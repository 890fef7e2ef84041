-- ===== src/EpollServer/Safety/Read.antt =====
-- The EPOLLIN part of the event loop, for properties P before and Q after it.
use plib.Base.{
  ℕ, zero, suc, ◌+◌, ◌-◌, [], ◌∷◌, Bool, true, false, length, inl, inr, ◌==◌, ltb, ◌&&◌,
  if◌then◌else◌,
}
use plib.System.{Os, Ret-cases, EpollEvent, read}
use plib.Memory.Block.{store, length-store}
use plib.Packet.{DataPacket, request_vote_request, request_vote_response, de_compress_data_packet}
use plib.Vote.{
  ReqeustVoteReq, decompress_vote_req, decompress_vote_resp, sizeof_vote_resp, sizeof_vote_req,
}
use plib.ElectionLogic.{ElectionLogic}
use plib.EpollServer.State.{Server, M, pure, ◌>>◌, buf_size}
use plib.EpollServer.Registry.{rm_bad_fd, reg_epoll_response, put_resp_in_queue}
use plib.EpollServer.Read.{
  serve_vote_response, serve_message_with, serve_vote_response_with, epoll_read_with, serve_message,
  read_loop, serve_vote_request, epoll_read, is_read_error,
}
use plib.EpollServer.Read.Requests.{response}
use plib.EpollServer.Safety.Rules.{Closed, Holds, Holds-bind, Holds-if_run, Holds-lift_bind}
use plib.EpollServer.Safety.Registry.{rm_bad_fd_keeps, reg_epoll_response_keeps}

module _ (os : Os) (P : Server → Type 0) (closed : Closed P) where
  pub read_loop_keeps : (fuel fd n : ℕ) (s : Server) → P s → Holds P (read_loop os fuel fd n s)
  unfolding read_loop
  read_loop_keeps zero fd n s v = tt
  read_loop_keeps (suc fuel) fd n s v =
      let t : Server = record s { log = read fd (buf_size - 1) ∷ s.log } in
      let w : P t = closed.call s _ tt v in
      elim (Ret-cases (os.read s.log fd (buf_size - 1))) [
        | inl (errno, e) ↦ rw (e, read_loop) w
        | inr ([], e) ↦ rw (e, read_loop) w
        | inr (x ∷ xs, e) ↦
            rw (e, read_loop)
              (Holds-lift_bind P (store s.recvbuffer n (x ∷ xs)) _ t λ buffer stored.
                read_loop_keeps fuel fd (n + length (x ∷ xs)) (record t { recvbuffer = buffer })
                  (closed.buffer t buffer (length-store s.recvbuffer n (x ∷ xs) stored) w))
      ]

module _ (os : Os) (P Q : Server → Type 0) (closed : Closed P) (weaker : (s : Server) → P s → Q s)
    (answer : (fd : ℕ) (req : ReqeustVoteReq) (s : Server)
      → P s
      → Holds Q (put_resp_in_queue os fd (response os req s) s))
    (elect : (s : Server) (l : ElectionLogic) → P s → Q (record s { election_logic = l })) where
  serve_vote_request_keeps :
      (event : EpollEvent) (p : DataPacket) (s : Server)
      → P s
      → Holds Q (serve_vote_request os event p s)
  unfolding serve_vote_request
  serve_vote_request_keeps event p s v =
      Holds-bind P Q (reg_epoll_response os event event.fd) _ s
        (reg_epoll_response_keeps os P closed event event.fd s v)
        λ registered t w.
          Holds-if_run Q registered _ (pure false) t
            (Holds-lift_bind Q (decompress_vote_req p) _ t λ req decoded.
              Holds-bind Q Q (put_resp_in_queue os event.fd _) _ t (answer event.fd req t w)
                (λ u t' w'. w'))
            (weaker t w)

  serve_vote_response_keeps :
      (p : DataPacket) (s : Server) → P s → Holds Q (serve_vote_response p s)
  unfolding serve_vote_response serve_vote_response_with
  serve_vote_response_keeps p s v =
      Holds-lift_bind Q (decompress_vote_resp p) _ s (λ resp decoded. elect s _ v)

  serve_message_keeps :
      (event : EpollEvent) (n : ℕ) (s : Server) → P s → Holds Q (serve_message os event n s)
  unfolding serve_message serve_message_with serve_vote_response
  serve_message_keeps event n s v =
      Holds-lift_bind Q (de_compress_data_packet (os.junk s.log) _) _ s λ p decoded.
        let other : M Bool =
          if p.msgtype == request_vote_response then serve_vote_response p else pure true in
        Holds-if_run Q (p.msgtype == request_vote_request) (serve_vote_request os event p) other s
          (serve_vote_request_keeps event p s v)
          (Holds-if_run Q (p.msgtype == request_vote_response) (serve_vote_response p) (pure true) s
            (serve_vote_response_keeps p s v) (weaker s v))

  pub epoll_read_keeps :
      (fuel : ℕ) (event : EpollEvent) (s : Server) → P s → Holds Q (epoll_read os fuel event s)
  unfolding epoll_read epoll_read_with serve_message
  epoll_read_keeps fuel event s v =
      Holds-bind P Q (read_loop os fuel event.fd 0) _ s
        (read_loop_keeps os P closed fuel event.fd 0 s v)
        λ end t w.
          let drop_it : M Bool = (do rm_bad_fd os event.fd; pure false) in
          let bad : Holds Q (drop_it t) =
            Holds-bind P Q (rm_bad_fd os event.fd) (λ u. pure false) t
              (rm_bad_fd_keeps os P closed event.fd t w) (λ u t' w'. weaker t' w') in
          let short = ltb end.msgsize sizeof_vote_resp && ltb end.msgsize sizeof_vote_req in
          let serve = serve_message os event end.msgsize in
          let long : M Bool = if short then pure false else serve in
          Holds-if_run Q (is_read_error end.failure) drop_it
            (if end.msgsize == 0 then drop_it else long) t bad
            (Holds-if_run Q (end.msgsize == 0) drop_it long t bad (
              Holds-if_run Q short (pure false) serve t (weaker t w)
                (serve_message_keeps event end.msgsize t w)))
