-- ===== src/Tests/Server.antt =====
-- The event loop.
use plib.Base.{
  Always, ℕ, ◌+◌, ◌≡◌, refl, List, [], ◌∷◌, ◌++◌, true, ok, undefined, Ends, take, drop, length,
  ◌==◌, if◌then◌else◌, length-replicate, length-append, replicate, ◌∙◌, ap, ap₂, arith,
}
use plib.StdMap.{find}
use plib.System.{Log, Os, done}
use plib.Vote.Wire.{req_wire}
use plib.EpollServer.State.{Server, buf_size}
use plib.EpollServer.Registry.Queues.{queued, writes}
use plib.EpollServer.Read.{read_loop, epoll_read, eagain}
use plib.EpollServer.Read.Chunks.{Feeds, joined, reads_log, read_loop_overflow}
use plib.EpollServer.Read.Requests.{Serves, asked, response, epoll_read_request}
use plib.EpollServer.Write.Sends.{written}
use plib.EpollServer.Answers.{rearmed, serve_client_answers}
use plib.EpollServer.Read.ShortRequests.{epoll_read_short_request}
use plib.EpollServer.Service.{serve_client, handle_event, init_service}
use plib.EpollServer.Lifetime.{ClosedOnce, lifetime, lifetime_closes}
use plib.EpollServer.Safety.Rules.{Holds}
use plib.EpollServer.Safety.Sockets.{Inv, init_service-Inv}
use plib.EpollServer.Total.Accept.{Pending}
use plib.EpollServer.Total.Service.{handle_event-Ends}
use plib.Tests.World.{
  sample_request, sample_request-IsVoteReq, sample_server, sample_event, scripted,
}

-- A request in two parts.
abbrev parts : List (List ℕ)
parts = take 20 (req_wire sample_request) ∷ drop 20 (req_wire sample_request) ∷ []

abbrev kernel : Os
kernel = scripted parts

-- Each round has input and output on descriptor 7.
abbrev eventful : Os
eventful = record kernel { epoll_wait = λ log. done (sample_event ∷ []) }

serves : Serves kernel
serves = (λ log op fd event. refl, λ log. refl)

buffer_size : length sample_server.recvbuffer ≡ buf_size
buffer_size = length-replicate {A = ℕ} buf_size 0

feeds : Feeds kernel 7 parts eagain []
feeds = (omega arith, refl, (omega arith, refl, refl))

init_service-Inv_example : Holds (Inv sample_server) (init_service eventful 5000 2 sample_server)
init_service-Inv_example = init_service-Inv eventful 5000 2 sample_server buffer_size

epoll_read_request_example :
    (t : Server) × (epoll_read kernel 3 sample_event sample_server ≡ ok (true, t))
    × ((j : ℕ)
        → queued t j ≡ (
            if 7 == j
            then queued sample_server 7
              ++ response kernel sample_request
                  (record sample_server { log = asked sample_event ∷ reads_log 7 parts [] })
                ∷ []
            else queued sample_server j))
    × (writes t.log ≡ [])
epoll_read_request_example =
    epoll_read_request kernel 3 sample_event sample_request [] parts sample_server serves
      sample_request-IsVoteReq buffer_size feeds refl (omega arith) (omega arith)

lifetime_closes_example :
    Always (λ r. ClosedOnce sample_server r.1) (lifetime kernel 5000 2 sample_server)
lifetime_closes_example =
    lifetime_closes kernel 5000 2 sample_server buffer_size (λ e. absurd (omega (arith, e)))

-- 6000 bytes, in two reads.
abbrev half : ℕ → List ℕ
half byte = replicate 3000 byte

half_size : (byte : ℕ) → length (half byte) ≡ 3000
half_size byte = length-replicate {A = ℕ} 3000 byte

abbrev long_parts : List (List ℕ)
long_parts = half 1 ∷ half 2 ∷ []

long_size : length (joined long_parts) ≡ 6000
long_size =
    length-append (half 1) (half 2 ++ [])
    ∙ ap₂ (◌+◌) (half_size 1) (length-append (half 2) [] ∙ ap (λ n. n + 0) (half_size 2))

read_loop_overflow_example : read_loop (scripted long_parts) 3 7 0 sample_server ≡ undefined
read_loop_overflow_example =
    read_loop_overflow (scripted long_parts) 3 7 eagain long_parts sample_server
      (omega (arith, half_size 1), refl, (omega (arith, half_size 2), refl, refl)) (omega arith)
      (omega (arith, buffer_size, long_size))

abbrev short_parts : List (List ℕ)
short_parts = (1 ∷ replicate 29 0) ∷ []

epoll_read_short_request_example :
    epoll_read (scripted short_parts) 3 sample_event sample_server ≡ undefined
epoll_read_short_request_example =
    epoll_read_short_request (scripted short_parts) 3 sample_event short_parts
      (replicate 29 0 ++ []) sample_server (λ log op fd event. refl, λ log. refl) buffer_size
      (omega arith, refl, refl) refl (omega arith) (omega arith) (omega arith)

pending : Pending kernel 0
pending log h = (11, refl)

handle_event-Ends_example : Ends (handle_event kernel 5000 sample_event sample_server)
unfolding find
handle_event-Ends_example =
    handle_event-Ends kernel 0 5000 sample_event sample_server pending buffer_size (omega arith)
      (omega arith) (omega arith)

serve_client_answers_example :
    (t : Server) × (serve_client kernel 5 sample_event sample_server ≡ ok (tt, t))
    × ((before : Log) × (t.log
          ≡ rearmed sample_event
            ∷ written 7
                (queued sample_server 7
                  ++ response kernel sample_request
                      (record sample_server { log = asked sample_event ∷ reads_log 7 parts [] })
                    ∷ [])
                before)
        × (writes before ≡ []))
    × ((j : ℕ) → queued t j ≡ (if 7 == j then [] else queued sample_server j))
unfolding find
serve_client_answers_example =
    serve_client_answers kernel 3 sample_event sample_request [] parts sample_server refl refl
      serves (λ log fd bytes. refl) sample_request-IsVoteReq buffer_size feeds refl (omega arith)
      (omega arith) (omega arith)
