-- ===== src/EpollServer/Read.antt =====
-- The EPOLLIN part of the event loop: reading a message, and the dispatch on its type.
pub mod Chunks
pub mod Requests
pub mod ShortRequests
pub mod Responses
use plib.Base.{
  ℕ, zero, suc, ◌+◌, ◌-◌, List, [], ◌∷◌, Bool, true, false, ◌&&◌, not, Run, ok, exits, spins,
  if◌then◌else◌, ◌==◌, ltb, length,
}
use plib.System.{Os, Ret, done, failed, EpollEvent, Call, read}
use plib.Memory.Block.{store, malloc}
use plib.Packet.{
  DataPacket, MessagePacket, de_compress_data_packet, request_vote_request, request_vote_response,
}
use plib.Vote.{
  ReqeustVoteResp, decompress_vote_req, decompress_vote_resp, resp_of_image, sizeof_vote_req,
  sizeof_vote_resp,
}
use plib.ElectionLogic.{ElectionLogic, handle_request_vote_request, handle_request_vote_response}
use plib.EpollServer.State.{
  Server, M, pure, ◌>>=◌, ◌>>◌, lift, get, put, record_call, ctl, no_events, buf_size,
}
use plib.EpollServer.Registry.{rm_bad_fd, reg_epoll_response, put_resp_in_queue}

abbrev pub eagain : ℕ
eagain = 11

-- How the read loop ends: by nread == 0 or by an error, with the bytes stored before.
pub record ReadEnd : Type 0 where
  pub failure : Ret (Unit {0})
  pub msgsize : ℕ

-- while ((nread = read(fd, recvbuffer + msgsize, BUFSIZE - 1)) > 0), on fuel.
unfoldable pub read_loop : Os → ℕ → ℕ → ℕ → M ReadEnd
read_loop os zero fd msgsize s = spins
read_loop os (suc fuel) fd msgsize s =
    let t : Server = record s { log = read fd (buf_size - 1) ∷ s.log } in
    elim (os.read s.log fd (buf_size - 1)) [
      | failed errno ↦ ok (record { failure = failed errno; msgsize = msgsize }, t)
      | done [] ↦ ok (record { failure = done tt; msgsize = msgsize }, t)
      | done (b ∷ bs) ↦
          (do
            buffer ← lift (store s.recvbuffer msgsize (b ∷ bs))
            put (record t { recvbuffer = buffer })
            read_loop os fuel fd (msgsize + length (b ∷ bs)))
            t
    ]

-- A read error other than EAGAIN.
abbrev pub is_read_error : Ret (Unit {0}) → Bool
is_read_error (done u) = false
is_read_error (failed errno) = not (errno == eagain)

-- A vote request. The response comes from malloc; `false` is the `continue` after a failed
-- registration.
unfoldable pub serve_vote_request : Os → EpollEvent → DataPacket → M Bool
serve_vote_request os event packet = do
  registered ← reg_epoll_response os event event.fd
  let answer : M Bool = (do
    req ← lift (decompress_vote_req packet)
    s ← get
    let found = resp_of_image (malloc (os.junk s.log) sizeof_vote_resp)
    put_resp_in_queue os event.fd (handle_request_vote_request s.election_logic req found)
    pure true)
  if registered then answer else pure false

-- What the election logic makes of a response.
abbrev pub Handler : Type 0
Handler = ElectionLogic → ReqeustVoteResp → ElectionLogic

-- A vote response, and what the election logic is to do with it. The program's handler does nothing
-- yet; that it is an argument lets a theorem say what it is handed.
unfoldable pub serve_vote_response_with : Handler → DataPacket → M Bool
serve_vote_response_with handler packet = do
  resp ← lift (decompress_vote_resp packet)
  s ← get
  put (record s { election_logic = handler s.election_logic resp })
  pure true

unfoldable pub serve_vote_response : DataPacket → M Bool
serve_vote_response = serve_vote_response_with handle_request_vote_response

-- What is done with a message in recvbuffer.
unfoldable pub serve_message_with : Handler → Os → EpollEvent → ℕ → M Bool
serve_message_with handler os event msgsize = do
  s ← get
  packet ←
      lift
        (de_compress_data_packet (os.junk s.log) (record { length = msgsize; body = s.recvbuffer }))
  if packet.msgtype == request_vote_request
      then serve_vote_request os event packet
      else if packet.msgtype == request_vote_response
      then serve_vote_response_with handler packet
      else pure true

unfoldable pub serve_message : Os → EpollEvent → ℕ → M Bool
serve_message = serve_message_with handle_request_vote_response

-- The EPOLLIN part. `false` is a `continue` of the event loop.
unfoldable pub epoll_read_with : Handler → Os → ℕ → EpollEvent → M Bool
epoll_read_with handler os fuel event = do
  end ← read_loop os fuel event.fd 0
  if is_read_error end.failure
      then (do rm_bad_fd os event.fd; pure false)
      else if end.msgsize == 0
      then (do rm_bad_fd os event.fd; pure false)
      else if ltb end.msgsize sizeof_vote_resp && ltb end.msgsize sizeof_vote_req
      then pure false
      else serve_message_with handler os event end.msgsize

unfoldable pub epoll_read : Os → ℕ → EpollEvent → M Bool
epoll_read = epoll_read_with handle_request_vote_response
