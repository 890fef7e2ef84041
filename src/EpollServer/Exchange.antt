-- ===== src/EpollServer/Exchange.antt =====
-- A vote request at one node, and its response at the node that asked.
use plib.Base.{ℕ, suc, ◌+◌, ◌≤◌, ◌<◌, ◌≡◌, List, [], ◌∷◌, ◌++◌, map, true, ok, length, ap, ◌∙◌}
use plib.System.{Os, EpollEvent}
use plib.Vote.{ReqeustVoteReq, ReqeustVoteResp}
use plib.Vote.Wire.{IsVoteReq, IsVoteResp, req_wire, resp_wire}
use plib.EpollServer.State.{Server, buf_size}
use plib.EpollServer.Registry.Queues.{queued, writes}
use plib.EpollServer.Read.{Handler, epoll_read_with, eagain}
use plib.EpollServer.Read.Chunks.{Feeds, joined, reads_log}
use plib.EpollServer.Read.Requests.{Serves, asked, response}
use plib.EpollServer.Read.Responses.{buffered, responded, epoll_read_response}
use plib.EpollServer.Write.Sends.{WritesAll, written}
use plib.EpollServer.Delivery.Order.{to, to-written}
use plib.EpollServer.Service.{serve_client}
use plib.EpollServer.Answers.{rearmed, serve_client_answers}

-- The node that serves the request runs on `os`; the one that reads what it writes runs on `asker`,
-- and does with a response what the handler says.
module _ (os asker : Os) (handler : Handler) where
  -- When one node serves a request, with fields of their widths, in one event with input and output,
  -- its kernel takes the changes of the interest list and each write whole, and its mutexes can be
  -- made, and another node with a buffer of its size reads, in any number of parts before a read
  -- that would block, all that the first then writes to the descriptor and no more than the buffer
  -- holds: the bytes written are those of the responses that waited for the descriptor and of the one
  -- to the request, in this order; and the reader calls its handler, whatever that is, once, with its
  -- election logic and the oldest of these responses as it was queued, whose fields fit their
  -- widths, and passes over the others. So a request is answered by its own response exactly where
  -- none waited. The program's handler is handleReqeustVoteResponse. As many rounds of fuel as there
  -- are parts, or responses with the new one, and one more are enough, and two at the least.
  pub serve_client-epoll_read :
      (fuel fuel' : ℕ) (event event' : EpollEvent) (r : ReqeustVoteReq) (more : List ℕ)
      (cs cs' : List (List ℕ)) (s s' : Server) (oldest : ReqeustVoteResp)
      (later : List ReqeustVoteResp)
      → event.events.epollin ≡ true
      → event.events.epollout ≡ true
      → Serves os
      → WritesAll os
      → IsVoteReq r
      → length s.recvbuffer ≡ buf_size
      → Feeds os event.fd cs eagain s.log
      → joined cs ≡ req_wire r ++ more
      → length (joined cs) ≤ buf_size
      → length cs < suc (suc fuel)
      → length (queued s event.fd) + 1 < suc (suc fuel)
      → queued s event.fd
          ++ response os r (record s { log = asked event ∷ reads_log event.fd cs s.log }) ∷ []
        ≡ oldest ∷ later
      → IsVoteResp oldest
      → length s'.recvbuffer ≡ buf_size
      → Feeds asker event'.fd cs' eagain s'.log
      → joined cs' ≡ joined (map resp_wire (oldest ∷ later))
      → length (joined cs') ≤ buf_size
      → length cs' < fuel'
      → (t : Server) × (serve_client os (suc (suc fuel)) event s ≡ ok (tt, t))
        × (to event.fd (writes t.log)
            ≡ to event.fd (writes s.log) ++ map resp_wire (oldest ∷ later))
        × (epoll_read_with handler asker fuel' event' s'
            ≡ ok (true, responded handler oldest (buffered event'.fd cs' s')))
  serve_client-epoll_read fuel fuel' event event' r more cs cs' s s' oldest later input output
        serves all valid size feeds parts fits enough room queue good size' feeds' parts' fits'
        enough' =
      let (t, run, (before, log, same), _) =
        serve_client_answers os fuel event r more cs s input output serves all valid size feeds
          parts fits enough room in
      (
        t,
        run,
        ap (λ l. to event.fd (writes l)) log
            ∙ ap (λ rs. to event.fd (writes (rearmed event ∷ written event.fd rs before))) queue
            ∙ to-written event.fd (oldest ∷ later) before
            ∙ ap (λ ws. to event.fd ws ++ map resp_wire (oldest ∷ later)) same,
        epoll_read_response asker handler fuel' event' oldest (joined (map resp_wire later)) cs' s'
            good size' feeds' parts' fits' enough',
      )
