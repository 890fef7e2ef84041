-- ===== src/EpollServer/Read/ShortRequests.antt =====
-- What becomes of a message with the type of a request and too few bytes for one.
use plib.Base.{
  ℕ, ◌-◌, ◌≤◌, ◌<◌, ◌≡◌, refl, List, ◌∷◌, ◌++◌, true, ok, undefined, length, take, drop, >>=-ok,
  length-append, ◌==◌, arith, ap, sym, ◌∙◌,
}
use plib.System.{Os, EpollEvent}
use plib.Memory.Little.{of_le}
use plib.Packet.{DataPacket, MessagePacket, request_vote_request, de_compress_data_packet}
use plib.Packet.Wire.{de_compress_lem}
use plib.Vote.{decompress_vote_req}
use plib.Vote.Wire.{decompress_req_short}
use plib.EpollServer.State.{Server, ◌>>=◌, >>=-run, lift, buf_size}
use plib.EpollServer.Registry.{reg_epoll_response}
use plib.EpollServer.Read.{
  serve_vote_response, serve_message_with, serve_message, serve_vote_request, epoll_read, eagain,
}
use plib.EpollServer.Read.Chunks.{Feeds, joined, reads_log, read_loop_message}
use plib.EpollServer.Read.Requests.{Serves, asked, registered, long_message}

module _ (os : Os) where
  request_refused :
      (event : EpollEvent) (p : DataPacket) (s : Server)
      → Serves os
      → decompress_vote_req p ≡ undefined
      → serve_vote_request os event p s ≡ undefined
  unfolding serve_vote_request
  request_refused event p s serves refused =
      let s1 : Server = record s { log = asked event ∷ s.log } in
      >>=-run (reg_epoll_response os event event.fd) _ s s1 true (registered os event s serves)
      ∙ rw (refused, ◌>>=◌) refl

  short_served :
      (event : EpollEvent) (n : ℕ) (s : Server) (more : List ℕ)
      → Serves os
      → s.recvbuffer ≡ 1 ∷ more
      → 27 ≤ n
      → n < 43
      → n ≤ length s.recvbuffer
      → serve_message os event n s ≡ undefined
  unfolding serve_message serve_message_with serve_vote_response
  short_served event n s more serves kind long short there =
      let m : MessagePacket = record { length = n; body = s.recvbuffer } in
      let p : DataPacket = record {
        msgtype = of_le (take 1 s.recvbuffer);
        length = of_le (take 8 (drop 1 s.recvbuffer));
        body = take (n - 9) (drop 9 s.recvbuffer);
      } in
      let decoded : de_compress_data_packet (os.junk s.log) m ≡ ok p =
        de_compress_lem (os.junk s.log) m (omega arith) (omega arith) there in
      let refused : decompress_vote_req p ≡ undefined =
        sym (>>=-ok (de_compress_data_packet (os.junk s.log) m) decompress_vote_req p decoded)
        ∙ decompress_req_short (os.junk s.log) m (omega arith) short there in
      let request : (p.msgtype == request_vote_request) ≡ true =
        ap (λ bytes. of_le (take 1 bytes) == request_vote_request) kind in
      >>=-run (lift (de_compress_data_packet (os.junk s.log) m)) _ s s p (rw decoded refl)
      ∙ rw request (request_refused event p s serves refused)

  -- A message with the type of a request but too few bytes for one, 27 to 42, in any number of
  -- parts before a read that would block, passes the check of its size; when the kernel takes the
  -- change of the interest list, decoding it then reads outside the packet's block.
  pub epoll_read_short_request :
      (fuel : ℕ) (event : EpollEvent) (cs : List (List ℕ)) (more : List ℕ) (s : Server)
      → Serves os
      → length s.recvbuffer ≡ buf_size
      → Feeds os event.fd cs eagain s.log
      → joined cs ≡ 1 ∷ more
      → 27 ≤ length (joined cs)
      → length (joined cs) < 43
      → length cs < fuel
      → epoll_read os fuel event s ≡ undefined
  epoll_read_short_request fuel event cs more s serves size feeds kind long short enough =
      let n = length (joined cs) in
      let rest = drop n s.recvbuffer in
      let s1 : Server = record s {
        recvbuffer = joined cs ++ rest;
        log = reads_log event.fd cs s.log;
      } in
      long_message os fuel event n s s1
        (read_loop_message os fuel event.fd eagain cs s feeds enough (omega arith)) (omega arith)
      ∙ short_served event n s1 (more ++ rest) serves (ap (λ xs. xs ++ rest) kind) long short
          (omega (arith, length-append (joined cs) rest))
