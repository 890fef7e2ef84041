-- ===== src/EpollServer/Read/Responses.antt =====
-- What becomes of a vote response in recvbuffer.
use plib.Base.{
  ℕ, ◌+◌, ◌^◌, ◌≤◌, ◌<◌, ◌≡◌, refl, List, ◌++◌, true, Run, ok, length, drop, length-append,
  append_assoc, arith, ap, ◌∙◌,
}
use plib.System.{Os, EpollEvent}
use plib.Packet.{DataPacket, de_compress_data_packet}
use plib.Packet.Wire.{de_compress-wire}
use plib.Vote.{ReqeustVoteResp, resp_image}
use plib.Vote.Wire.{IsVoteResp, resp_wire, decompress_vote_resp_lem}
use plib.EpollServer.State.{Server, ◌>>=◌, buf_size}
use plib.EpollServer.Read.{
  Handler, serve_vote_response_with, serve_message_with, epoll_read_with, eagain,
}
use plib.EpollServer.Read.Chunks.{Feeds, joined, reads_log, read_loop_message}
use plib.EpollServer.Read.Requests.{read_served}

-- The state once a message in these parts has been read, and then the response in it handled.
abbrev pub buffered : ℕ → List (List ℕ) → Server → Server
buffered fd cs s = record s {
  recvbuffer = joined cs ++ drop (length (joined cs)) s.recvbuffer;
  log = reads_log fd cs s.log;
}

abbrev pub responded : Handler → ReqeustVoteResp → Server → Server
responded handler r s = record s { election_logic = handler s.election_logic r }

module _ (os : Os) (handler : Handler) where
  response_served :
      (event : EpollEvent) (n : ℕ) (s : Server) (r : ReqeustVoteResp) (more rest : List ℕ)
      → IsVoteResp r
      → s.recvbuffer ≡ resp_wire r ++ (more ++ rest)
      → n ≡ 36 + length more
      → n < 2 ^ 64
      → serve_message_with handler os event n s ≡ ok (true, responded handler r s)
  unfolding serve_message_with serve_vote_response_with
  response_served event n s r more rest valid buffer size fits =
      let decode : List ℕ → Run DataPacket =
        λ bytes. de_compress_data_packet (os.junk s.log) (record { length = n; body = bytes }) in
      let p : DataPacket = record { msgtype = 2; length = 27; body = resp_image r ++ more } in
      let decoded : decode s.recvbuffer ≡ ok p =
        ap decode buffer
        ∙ de_compress-wire (os.junk s.log) 2 27 n (resp_image r ++ more) rest (omega arith)
            (omega arith) fits (omega arith) in
      rw (decoded, ◌>>=◌) (rw (decompress_vote_resp_lem r more 27 valid) refl)

  -- A vote response whose fields fit their widths and that arrives in any number of parts before a
  -- read that would block is handed to the handler as it was sent, whatever that is, and nothing else
  -- changes: no response is queued and no output is asked for. Bytes that follow it in the buffer,
  -- further responses among them, are passed over. As many rounds of reading as there are parts
  -- and one more are enough.
  pub epoll_read_response :
      (fuel : ℕ) (event : EpollEvent) (r : ReqeustVoteResp) (more : List ℕ) (cs : List (List ℕ))
      (s : Server)
      → IsVoteResp r
      → length s.recvbuffer ≡ buf_size
      → Feeds os event.fd cs eagain s.log
      → joined cs ≡ resp_wire r ++ more
      → length (joined cs) ≤ buf_size
      → length cs < fuel
      → epoll_read_with handler os fuel event s
        ≡ ok (true, responded handler r (buffered event.fd cs s))
  epoll_read_response fuel event r more cs s valid size feeds parts fits enough =
      let n = length (joined cs) in
      let rest = drop n s.recvbuffer in
      let count : n ≡ 36 + length more = ap length parts ∙ length-append (resp_wire r) more in
      read_served os handler fuel event n s (buffered event.fd cs s)
        (read_loop_message os fuel event.fd eagain cs s feeds enough (omega arith)) (omega arith)
      ∙ response_served event n (buffered event.fd cs s) r more rest valid
          (ap (λ xs. xs ++ rest) parts ∙ append_assoc (resp_wire r) more rest) count (omega arith)
