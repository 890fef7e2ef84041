-- ===== src/EpollServer/Total/Read.antt =====
-- The fuel of the EPOLLIN part.
use plib.Base.{
  Ends, Ends-if, ℕ, zero, suc, ◌+◌, ◌-◌, ◌≤◌, ◌<◌, ◌≡◌, [], ◌∷◌, Bool, true, false, ◌&&◌, length,
  ◌==◌, ltb, if◌then◌else◌, arith, Bool-cases, Option-cases, inl, inr, ◌∙◌, get_elem?,
}
use plib.System.{Os, Ret-cases, EpollEvent, read}
use plib.Memory.Block.{store, store-Ends, length-store, store_fits}
use plib.Packet.{DataPacket, de_compress_data_packet, request_vote_request, request_vote_response}
use plib.SharedQueue
use plib.StdMap.{find}
use plib.Vote.{
  decompress_vote_req, decompress_vote_resp, sizeof_vote_req, sizeof_vote_resp, ReqeustVoteResp,
}
use plib.Packet.Wire.{de_compress-Ends}
use plib.Vote.Wire.{decompress_vote_req-Ends, decompress_vote_resp-Ends}
use plib.EpollServer.State.{Server, M, pure, ◌>>=◌, ◌>>◌, deref, buf_size}
use plib.EpollServer.Registry.{
  drop_fd, rm_client_fd, rm_bad_fd, mod_client_epoll_event, reg_epoll_response, put_resp_in_queue,
}
use plib.EpollServer.Read.{
  serve_vote_response, serve_message_with, serve_vote_response_with, epoll_read_with, serve_message,
  read_loop, serve_vote_request, epoll_read, is_read_error,
}
use plib.EpollServer.Total.Rules.{Ends-bind, Ends-lift_bind, Ends-if_run, any_Holds}

module _ (os : Os) where
  pub read_loop-Ends :
      (fuel fd n : ℕ) (s : Server)
      → length s.recvbuffer ≡ buf_size
      → n ≤ buf_size
      → buf_size < fuel + n
      → Ends (read_loop os fuel fd n s)
  unfolding read_loop
  read_loop-Ends zero fd n s size fits h = absurd (omega arith)
  read_loop-Ends (suc fuel) fd n s size fits h =
      elim (Ret-cases (os.read s.log fd (buf_size - 1))) [
        | inl (errno, e) ↦ rw (e, read_loop) tt
        | inr ([], e) ↦ rw (e, read_loop) tt
        | inr (x ∷ xs, e) ↦
            let t : Server = record s { log = read fd (buf_size - 1) ∷ s.log } in
            rw (e, read_loop)
              (Ends-lift_bind (store s.recvbuffer n (x ∷ xs)) _ t
                (store-Ends s.recvbuffer n (x ∷ xs))
                λ buffer stored.
                  read_loop-Ends fuel fd (n + length (x ∷ xs)) (record t { recvbuffer = buffer })
                    (length-store s.recvbuffer n (x ∷ xs) stored ∙ size)
                    (omega (arith, store_fits s.recvbuffer n (x ∷ xs) stored)) (omega arith))
      ]

  drop-Ends : (fd : ℕ) (s : Server) → Ends (drop_fd os fd s)
  unfolding drop_fd
  drop-Ends fd s = tt

  client-Ends :
      (p : ℕ) (s : Server) → Ends ((do client ← deref p; mod_client_epoll_event os client) s)
  unfolding mod_client_epoll_event
  client-Ends p s = elim (Option-cases (get_elem? s.tcp_clients p)) [
    | inl e ↦ rw (e, deref, Ends) tt
    | inr (c, e) ↦ rw (e, deref, Ends) tt
  ]

  pub rm_bad_fd-Ends : (fd : ℕ) (s : Server) → Ends (rm_bad_fd os fd s)
  unfolding rm_bad_fd rm_client_fd
  rm_bad_fd-Ends fd s = Ends-if (fd == s.listenfd) _ _ tt (
      Ends-if (fd == s.udpfd) _ _ tt (elim (Option-cases (find fd s.clientmap)) [
        | inl e ↦ rw (e, rm_client_fd, Ends) (drop-Ends fd s)
        | inr (p, e) ↦ rw (e, rm_client_fd, Ends) (client-Ends p s)
      ]))

  reg_epoll_response-Ends :
      (event : EpollEvent) (fd : ℕ) (s : Server) → Ends (reg_epoll_response os event fd s)
  unfolding reg_epoll_response
  reg_epoll_response-Ends event fd s =
      Ends-if_run _ (pure true) (do rm_bad_fd os fd; pure false) _ tt
        (Ends-bind (λ t. Unit {0}) (rm_bad_fd os fd) (λ u. pure false) _ (rm_bad_fd-Ends fd _)
          (any_Holds (rm_bad_fd os fd) _) (λ u t w. tt))

  put_resp_in_queue-Ends :
      (fd : ℕ) (resp : ReqeustVoteResp) (s : Server) → Ends (put_resp_in_queue os fd resp s)
  unfolding put_resp_in_queue SharedQueue.make_with SharedQueue.make
  put_resp_in_queue-Ends fd resp s = elim (Option-cases (find fd s.resp_message_map)) [
    | inl e ↦
        rw (e, put_resp_in_queue)
          (elim (Bool-cases (os.mutex_init s.log)) [ inl e' ↦ rw e' tt | inr e' ↦ rw e' tt ])
    | inr (q, e) ↦ rw (e, put_resp_in_queue) tt
  ]

  serve_vote_request-Ends :
      (event : EpollEvent) (p : DataPacket) (s : Server) → Ends (serve_vote_request os event p s)
  unfolding serve_vote_request
  serve_vote_request-Ends event p s =
      Ends-bind (λ t. Unit {0}) (reg_epoll_response os event event.fd) _ s
        (reg_epoll_response-Ends event event.fd s)
        (any_Holds (reg_epoll_response os event event.fd) s)
        λ registered t w.
          Ends-if_run registered _ (pure false) t
            (Ends-lift_bind (decompress_vote_req p) _ t (decompress_vote_req-Ends p) λ req decoded.
              Ends-bind (λ u. Unit {0}) (put_resp_in_queue os event.fd _) _ t
                (put_resp_in_queue-Ends event.fd _ t)
                (any_Holds (put_resp_in_queue os event.fd _) t) (λ u t' w'. tt))
            tt

  serve_vote_response-Ends : (p : DataPacket) (s : Server) → Ends (serve_vote_response p s)
  unfolding serve_vote_response serve_vote_response_with
  serve_vote_response-Ends p s =
      Ends-lift_bind (decompress_vote_resp p) _ s (decompress_vote_resp-Ends p) (λ resp decoded. tt)

  serve_message-Ends : (event : EpollEvent) (n : ℕ) (s : Server) → Ends (serve_message os event n s)
  unfolding serve_message serve_message_with serve_vote_response
  serve_message-Ends event n s =
      Ends-lift_bind (de_compress_data_packet (os.junk s.log) _) _ s
        (de_compress-Ends (os.junk s.log) _)
        λ p decoded.
          let other : M Bool =
            if p.msgtype == request_vote_response then serve_vote_response p else pure true in
          Ends-if_run (p.msgtype == request_vote_request) (serve_vote_request os event p) other s
            (serve_vote_request-Ends event p s)
            (Ends-if_run (p.msgtype == request_vote_response) (serve_vote_response p) (pure true) s
              (serve_vote_response-Ends p s) tt)

  -- With fuel above the size of the buffer the EPOLLIN part does not run out of it.
  pub epoll_read-Ends :
      (fuel : ℕ) (event : EpollEvent) (s : Server)
      → length s.recvbuffer ≡ buf_size
      → buf_size < fuel
      → Ends (epoll_read os fuel event s)
  unfolding epoll_read epoll_read_with serve_message
  epoll_read-Ends fuel event s size enough =
      Ends-bind (λ t. Unit {0}) (read_loop os fuel event.fd 0) _ s
        (read_loop-Ends fuel event.fd 0 s size (omega arith) (omega arith))
        (any_Holds (read_loop os fuel event.fd 0) s)
        λ end t w.
          let drop_it : M Bool = (do rm_bad_fd os event.fd; pure false) in
          let bad : Ends (drop_it t) =
            Ends-bind (λ u. Unit {0}) (rm_bad_fd os event.fd) (λ u. pure false) t
              (rm_bad_fd-Ends event.fd t) (any_Holds (rm_bad_fd os event.fd) t) (λ u t' w'. tt) in
          let short = ltb end.msgsize sizeof_vote_resp && ltb end.msgsize sizeof_vote_req in
          let serve = serve_message os event end.msgsize in
          let long : M Bool = if short then pure false else serve in
          Ends-if_run (is_read_error end.failure) drop_it
            (if end.msgsize == 0 then drop_it else long) t bad
            (Ends-if_run (end.msgsize == 0) drop_it long t bad
              (Ends-if_run short (pure false) serve t tt (serve_message-Ends event end.msgsize t)))
