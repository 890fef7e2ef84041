-- ===== src/EpollServer/Read/Requests.antt =====
-- What becomes of a vote request in recvbuffer.
use plib.Base.{
  ◌-◌, ℕ, ◌+◌, ◌^◌, ◌≤◌, ◌<◌, ◌≡◌, refl, List, [], ◌∷◌, ◌++◌, true, false, Run, ok, length, drop,
  >>=-ok, length-append, ◌==◌, ltb, if◌then◌else◌, append_assoc, arith, ap, sym, ◌∙◌,
}
use plib.System.{Os, Log, Call, Ctl, EpollEvent, epoll_ctl, failed, read}
use plib.Memory.Block.{malloc}
use plib.Packet.{DataPacket, de_compress_data_packet}
use plib.Packet.Wire.{de_compress-wire}
use plib.Vote.{
  ReqeustVoteReq, ReqeustVoteResp, req_image, decompress_vote_req, resp_of_image, sizeof_vote_resp,
}
use plib.Vote.Wire.{IsVoteReq, req_wire, decompress-req_wire}
use plib.ElectionLogic.{handle_request_vote_request, handle_request_vote_response}
use plib.EpollServer.State.{Server, pure, ◌>>=◌, >>=-run, buf_size}
use plib.EpollServer.Registry.{reg_epoll_response, put_resp_in_queue}
use plib.EpollServer.Registry.Queues.{queued, writes, put_resp_in_queue_lem}
use plib.EpollServer.Read.{
  Handler, serve_vote_response, serve_message_with, epoll_read_with, serve_message,
  serve_vote_request, epoll_read, read_loop, eagain,
}
use plib.EpollServer.Read.Chunks.{Feeds, joined, reads_log, read_loop_message}

-- The response to a request that a state with this log gives: what the handler makes of a block
-- from malloc.
abbrev pub response : Os → ReqeustVoteReq → Server → ReqeustVoteResp
response os req s =
    handle_request_vote_request s.election_logic req
      (resp_of_image (malloc (os.junk s.log) sizeof_vote_resp))

-- The request for EPOLLOUT.
abbrev pub asked : EpollEvent → Call
asked event =
    epoll_ctl Ctl.mod_ event.fd
      (record { events = record event.events { epollout = true }; fd = event.fd })

writes-reads_log :
    (fd : ℕ) (cs : List (List ℕ)) (log : Log) → writes (reads_log fd cs log) ≡ writes log
writes-reads_log fd [] log = refl
writes-reads_log fd (c ∷ cs) log = writes-reads_log fd cs (read fd (buf_size - 1) ∷ log)

module _ (os : Os) where
  -- The kernel takes every change of the interest list, and mutexes can be made.
  abbrev pub Serves : Type 0
  Serves =
      ((log : Log) (op : Ctl) (fd : ℕ) (e : EpollEvent) → os.epoll_ctl log op fd e ≡ true)
      × ((log : Log) → os.mutex_init log ≡ true)

  pub registered :
      (event : EpollEvent) (s : Server)
      → Serves
      → reg_epoll_response os event event.fd s ≡ ok (true, record s { log = asked event ∷ s.log })
  unfolding reg_epoll_response
  registered event s (taken, made) =
      rw
        (taken s.log Ctl.mod_ event.fd
          (record { events = record event.events { epollout = true }; fd = event.fd }))
        refl

  packet_of : ReqeustVoteReq → List ℕ → DataPacket
  packet_of r more = record { msgtype = 1; length = 34; body = req_image r ++ more }

  packet_decoded :
      (junk : ℕ → ℕ) (r : ReqeustVoteReq) (more rest : List ℕ) (total : ℕ)
      → total ≡ 43 + length more
      → total < 2 ^ 64
      → de_compress_data_packet junk
          (record { length = total; body = req_wire r ++ (more ++ rest) })
        ≡ ok (packet_of r more)
  unfolding packet_of
  packet_decoded junk r more rest total e fits =
      de_compress-wire junk 1 34 total (req_image r ++ more) rest (omega arith) (omega arith) fits
        (omega arith)

  request_decoded :
      (r : ReqeustVoteReq) (more : List ℕ)
      → IsVoteReq r
      → 43 + length more < 2 ^ 64
      → decompress_vote_req (packet_of r more) ≡ ok r
  request_decoded r more valid fits =
      let junk : ℕ → ℕ = λ i. 0 in
      sym (
        >>=-ok (de_compress_data_packet junk _) decompress_vote_req (packet_of r more)
          (packet_decoded junk r more [] (43 + length more) refl fits))
      ∙ decompress-req_wire junk r more [] (43 + length more) valid refl fits

  request_run :
      (event : EpollEvent) (p : DataPacket) (r : ReqeustVoteReq) (s t : Server)
      → Serves
      → decompress_vote_req p ≡ ok r
      → let s1 : Server = record s { log = asked event ∷ s.log } in
        put_resp_in_queue os event.fd (response os r s1) s1 ≡ ok (tt, t)
        → serve_vote_request os event p s ≡ ok (true, t)
  unfolding serve_vote_request
  request_run event p r s t serves decoded run =
      let s1 : Server = record s { log = asked event ∷ s.log } in
      let put = put_resp_in_queue os event.fd (response os r s1) in
      >>=-run (reg_epoll_response os event event.fd) _ s s1 true (registered event s serves)
      ∙ rw (decoded, ◌>>=◌) (>>=-run put (λ u. pure true) s1 t tt run)

  request_queued :
      (event : EpollEvent) (p : DataPacket) (r : ReqeustVoteReq) (s : Server)
      → Serves
      → decompress_vote_req p ≡ ok r
      → (t : Server) × (serve_vote_request os event p s ≡ ok (true, t))
        × ((j : ℕ)
            → queued t j ≡ (
                if event.fd == j
                then queued s event.fd
                  ++ response os r (record s { log = asked event ∷ s.log }) ∷ []
                else queued s j))
        × (writes t.log ≡ writes s.log)
  request_queued event p r s (taken, made) decoded =
      let s1 : Server = record s { log = asked event ∷ s.log } in
      let (t, run, after, same) =
        put_resp_in_queue_lem os event.fd (response os r s1) s1 (made s1.log) in
      (t, request_run event p r s t (taken, made) decoded run, after, same)

  message_served :
      (event : EpollEvent) (n : ℕ) (s : Server) (r : ReqeustVoteReq) (more rest : List ℕ)
      → s.recvbuffer ≡ req_wire r ++ (more ++ rest)
      → n ≡ 43 + length more
      → n < 2 ^ 64
      → serve_message os event n s ≡ serve_vote_request os event (packet_of r more) s
  unfolding serve_message serve_message_with serve_vote_response packet_of
  message_served event n s r more rest buffer size fits =
      let decode : List ℕ → Run DataPacket =
        λ bytes. de_compress_data_packet (os.junk s.log) (record { length = n; body = bytes }) in
      let decoded : decode s.recvbuffer ≡ ok (packet_of r more) =
        ap decode buffer ∙ packet_decoded (os.junk s.log) r more rest n size fits in
      rw (decoded, ◌>>=◌) refl

  -- A message that is not too short is decoded, whatever is done with a response.
  pub read_served :
      (handler : Handler) (fuel : ℕ) (event : EpollEvent) (n : ℕ) (s s1 : Server)
      → read_loop os fuel event.fd 0 s ≡ ok (record { failure = failed eagain; msgsize = n }, s1)
      → 26 < n
      → epoll_read_with handler os fuel event s ≡ serve_message_with handler os event n s1
  unfolding epoll_read_with
  read_served handler fuel event n s s1 run long =
      let not_empty : (n == 0) ≡ false = ground arith in
      let not_short : ltb n sizeof_vote_resp ≡ false = ground arith in
      >>=-run (read_loop os fuel event.fd 0) _ s s1 _ run ∙ rw (not_empty, not_short) refl

  pub long_message :
      (fuel : ℕ) (event : EpollEvent) (n : ℕ) (s s1 : Server)
      → read_loop os fuel event.fd 0 s ≡ ok (record { failure = failed eagain; msgsize = n }, s1)
      → 26 < n
      → epoll_read os fuel event s ≡ serve_message os event n s1
  unfolding epoll_read serve_message
  long_message = read_served handle_request_vote_response

  -- A vote request whose fields fit their widths and that arrives in any number of parts before a
  -- read that would block gets a response queued last for its descriptor, no other queue changes
  -- and nothing is written, when the kernel takes the changes of the interest list and a mutex can
  -- be made.
  -- Bytes that follow the request in the buffer are passed over. As many rounds of reading as
  -- there are parts and one more are enough.
  pub epoll_read_request :
      (fuel : ℕ) (event : EpollEvent) (r : ReqeustVoteReq) (more : List ℕ) (cs : List (List ℕ))
      (s : Server)
      → Serves
      → IsVoteReq r
      → length s.recvbuffer ≡ buf_size
      → Feeds os event.fd cs eagain s.log
      → joined cs ≡ req_wire r ++ more
      → length (joined cs) ≤ buf_size
      → length cs < fuel
      → (t : Server) × (epoll_read os fuel event s ≡ ok (true, t))
        × ((j : ℕ)
            → queued t j ≡ (
                if event.fd == j
                then queued s event.fd
                  ++ response os r (record s { log = asked event ∷ reads_log event.fd cs s.log })
                    ∷ []
                else queued s j))
        × (writes t.log ≡ writes s.log)
  epoll_read_request fuel event r more cs s serves valid size feeds parts fits enough =
      let n = length (joined cs) in
      let rest = drop n s.recvbuffer in
      let s1 : Server = record s {
        recvbuffer = joined cs ++ rest;
        log = reads_log event.fd cs s.log;
      } in
      let count : n ≡ 43 + length more = ap length parts ∙ length-append (req_wire r) more in
      let (t, run, after, same) =
        request_queued event (packet_of r more) r s1 serves
          (request_decoded r more valid (omega arith)) in
      (
        t,
        long_message fuel event n s s1
              (read_loop_message os fuel event.fd eagain cs s feeds enough (omega arith))
              (omega arith)
            ∙ message_served event n s1 r more rest
                (ap (λ xs. xs ++ rest) parts ∙ append_assoc (req_wire r) more rest) count
                (omega arith)
            ∙ run,
        after,
        same ∙ writes-reads_log event.fd cs s.log,
      )
