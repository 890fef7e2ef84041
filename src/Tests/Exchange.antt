-- ===== src/Tests/Exchange.antt =====
-- A request and its response between two nodes, and a descriptor that is used again, on concrete
-- inputs.
use plib.Base.{ℕ, ◌≡◌, refl, List, [], ◌∷◌, map, true, ok, take, drop, length-replicate, arith}
use plib.StdMap.{find}
use plib.System.{Os, Log, Ret, Mask, EpollEvent, done, failed, accept, epoll_wait}
use plib.FdUtils.{set_fd_nonblock}
use plib.ElectionLogic.{handle_request_vote_request}
use plib.Vote.{ReqeustVoteResp}
use plib.Vote.Wire.{req_wire, resp_wire}
use plib.EpollServer.State.{Server, M, ◌>>◌, no_events, buf_size}
use plib.EpollServer.Registry.Queues.{queued, writes}
use plib.EpollServer.Accept.{accept_events}
use plib.EpollServer.Read.{Handler, epoll_read_with, eagain}
use plib.EpollServer.Read.Chunks.{joined}
use plib.EpollServer.Read.Responses.{buffered, responded}
use plib.EpollServer.Write.{epoll_write}
use plib.EpollServer.Delivery.Order.{to}
use plib.EpollServer.Service.{serve_client, serve_round, is_bad}
use plib.EpollServer.Exchange.{serve_client-epoll_read}
use plib.EpollServer.Reuse.{reused_descriptor}
use plib.Tests.World.{
  sample_request, sample_request-IsVoteReq, sample_response, sample_response-IsVoteResp,
  refused_response, sample_server, sample_event, scripted,
}

abbrev asking_parts : List (List ℕ)
asking_parts = take 20 (req_wire sample_request) ∷ drop 20 (req_wire sample_request) ∷ []

abbrev server_os : Os
server_os = scripted asking_parts

-- The response to the request: what zero bytes stand for.
abbrev blank_response : ReqeustVoteResp
blank_response = record {
  term = 0;
  candidate_id = 0;
  vote_grated = 0;
  request_term = 0;
  time_in_nano = 0;
}

abbrev answer_bytes : List ℕ
answer_bytes = joined (map resp_wire (sample_response ∷ refused_response ∷ blank_response ∷ []))

abbrev answer_parts : List (List ℕ)
answer_parts = take 50 answer_bytes ∷ drop 50 answer_bytes ∷ []

abbrev asker_os : Os
asker_os = scripted answer_parts

-- The descriptor of the asker's client.
abbrev answer_event : EpollEvent
answer_event = record { events = record no_events { epollin = true }; fd = 9 }

-- A handler that takes over the response's term.
abbrev keep_term : Handler
keep_term l resp = record l { persist_state = record l.persist_state { current_term = resp.term } }

serve_client-epoll_read_example :
    (t : Server) × (serve_client server_os 5 sample_event sample_server ≡ ok (tt, t))
    × (to 7 (writes t.log)
        ≡ map resp_wire (sample_response ∷ refused_response ∷ blank_response ∷ []))
    × (epoll_read_with keep_term asker_os 3 answer_event sample_server
        ≡ ok (true, responded keep_term sample_response (buffered 9 answer_parts sample_server)))
unfolding find handle_request_vote_request
serve_client-epoll_read_example =
    serve_client-epoll_read server_os asker_os keep_term 3 3 sample_event answer_event
      sample_request [] asking_parts answer_parts sample_server sample_server sample_response
      (refused_response ∷ blank_response ∷ []) refl refl (λ log op fd event. refl, λ log. refl)
      (λ log fd bytes. refl) sample_request-IsVoteReq (length-replicate {A = ℕ} buf_size 0)
      (omega arith, refl, (omega arith, refl, refl)) refl (omega arith) (omega arith) (omega arith)
      refl sample_response-IsVoteResp (length-replicate {A = ℕ} buf_size 0)
      (omega arith, refl, (omega arith, refl, refl)) refl (omega arith) (omega arith)

abbrev hangup : Mask
hangup = record no_events { epollin = true; epollhup = true }

abbrev input : Mask
input = record no_events { epollin = true }

-- Descriptor 7 hangs up, is given to a new connection, and has input.
abbrev events_of : Log → List EpollEvent
events_of [] = record { events = hangup; fd = 7 } ∷ []
events_of (epoll_wait ∷ []) = []
events_of (accept fd ∷ log) = record { events = input; fd = 7 } ∷ []
events_of (_ ∷ log) = record { events = accept_events; fd = 3 } ∷ []

abbrev accepted : Log → Ret ℕ
accepted (epoll_wait ∷ log) = done 7
accepted log = failed eagain

abbrev busy : Os
busy = record server_os { epoll_wait = λ log. done (events_of log); accept = accepted }

abbrev three_rounds : M (Unit {0})
three_rounds = do serve_round busy 7; serve_round busy 7; serve_round busy 7

reused_descriptor_example :
    (t : Server) × (three_rounds sample_server ≡ ok (tt, t))
    × (queued t 7 ≡ sample_response ∷ refused_response ∷ blank_response ∷ [])
    × (writes t.log ≡ [])
    × ((u : Server) × (epoll_write busy 7 (record { events = input; fd = 7 }) t ≡ ok (tt, u))
        × (to 7 (writes u.log)
            ≡ map resp_wire (sample_response ∷ refused_response ∷ blank_response ∷ [])))
unfolding find is_bad set_fd_nonblock handle_request_vote_request
reused_descriptor_example =
    reused_descriptor busy 5 7 eagain hangup input sample_server sample_request [] asking_parts
      input (λ log op fd event. refl, λ log. refl) (λ log fd bytes. refl) refl refl refl refl refl
      refl refl refl refl refl refl refl refl sample_request-IsVoteReq
      (omega arith, refl, (omega arith, refl, refl)) refl (omega arith) (omega arith) (omega arith)
