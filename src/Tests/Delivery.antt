-- ===== src/Tests/Delivery.antt =====
-- Responses queued and sent, a request decoded, and the constructor, on concrete inputs.
use plib.Base.{ℕ, zero, suc, ◌≡◌, refl, List, [], ◌∷◌, ◌++◌, map, ok, replicate, arith}
use plib.Memory.Little.{IsBytes}
use plib.Vote.{ReqeustVoteReq, ReqeustVoteResp, compress_vote_req, decompress_vote_req}
use plib.Vote.Wire.{IsVoteReq, resp_wire}
use plib.Vote.Decoded.{decompress_vote_req-IsVoteReq}
use plib.EpollServer.State.{Server}
use plib.EpollServer.Registry.Queues.{queued, writes}
use plib.EpollServer.Registry.Interleaving.{
  put_all, for_fd, view, queue_of, with_more, put_all_interleaved,
}
use plib.EpollServer.Delivery.{Op, enqueue, flush, run, Outbox, apply_all, Refines, run-Refines}
use plib.EpollServer.Delivery.Order.{to, enqueued, run_delivers}
use plib.EpollServer.Safety.Rules.{Holds}
use plib.EpollServer.Setup.{construct}
use plib.EpollServer.Setup.Listening.{IsFresh, Watched, construct-Watched}
use plib.StdMap.{find}
use plib.Tests.World.{scripted, sample_server, sample_election, sample_response, refused_response}

abbrev quiet_server : Server
quiet_server = record sample_server { resp_message_map = []; log = [] }

abbrev sample_ops : List Op
sample_ops =
    enqueue 7 sample_response
    ∷ enqueue 8 refused_response
    ∷ flush 7
    ∷ enqueue 7 refused_response
    ∷ flush 9
    ∷ []

abbrev empty_outbox : Outbox
empty_outbox = record { waiting = λ j. []; sent = [] }

run-Refines_example :
    (t : Server) × (run (scripted []) 7 sample_ops quiet_server ≡ ok (tt, t))
    × Refines [] (apply_all sample_ops empty_outbox) t
unfolding find
run-Refines_example =
    run-Refines (scripted []) (λ log fd bytes. refl) (λ log. refl) [] 5 0 sample_ops empty_outbox
      quiet_server (record { queues = λ j. refl; calls = refl }) (λ j. omega arith) (omega arith)

run_delivers_example :
    (t : Server) × (run (scripted []) 7 sample_ops quiet_server ≡ ok (tt, t))
    × ((fd : ℕ)
        → to fd (writes t.log) ++ map resp_wire (queued t fd)
          ≡ map resp_wire (enqueued fd sample_ops))
unfolding find
run_delivers_example =
    run_delivers (scripted []) 5 sample_ops quiet_server (λ log fd bytes. refl) (λ log. refl)
      (λ fd. refl) refl (omega arith)

abbrev two_ways : ℕ → List (ℕ × ReqeustVoteResp)
two_ways zero = (7, sample_response) ∷ (8, refused_response) ∷ (7, refused_response) ∷ []
two_ways (suc _) = (7, sample_response) ∷ (7, refused_response) ∷ (8, refused_response) ∷ []

two_ways_agree : (fd : ℕ) → for_fd fd (two_ways 0) ≡ for_fd fd (two_ways 1)
two_ways_agree fd = ground arith

put_all_interleaved_example :
    (t : Server) × (u : Server) × (put_all (scripted []) (two_ways 0) quiet_server ≡ ok (tt, t))
    × (put_all (scripted []) (two_ways 1) quiet_server ≡ ok (tt, u))
    × (view t ≡ view u)
    × ((fd : ℕ)
        → queue_of fd (view t)
          ≡ with_more (queue_of fd (view quiet_server)) (for_fd fd (two_ways 0)))
put_all_interleaved_example =
    put_all_interleaved (scripted []) (λ log. refl) (two_ways 0) (two_ways 1) quiet_server
      two_ways_agree

abbrev sevens : ℕ → List ℕ
sevens n = replicate n 7

sevens-IsBytes : (n : ℕ) → IsBytes (sevens n)
sevens-IsBytes zero = tt
sevens-IsBytes (suc n) = (omega arith, sevens-IsBytes n)

decompress_vote_req-IsVoteReq_example :
    (r : ReqeustVoteReq) × (decompress_vote_req
        (record { msgtype = 1; length = 34; body = sevens 40 })
      ≡ ok r)
    × IsVoteReq r
    × (compress_vote_req (λ i. 0) r (record { msgtype = 1; length = 0; body = [] })
        ≡ ok (record { msgtype = 1; length = 34; body = sevens 34 }))
decompress_vote_req-IsVoteReq_example =
    decompress_vote_req-IsVoteReq (λ i. 0) (record { msgtype = 1; length = 34; body = sevens 40 })
      (record { msgtype = 1; length = 0; body = [] }) (sevens-IsBytes 40) (omega arith)

construct-Watched_example :
    Holds
      (λ t. IsFresh t × Watched (scripted []) 9091 t)
      (construct (scripted []) 9091 sample_election sample_server)
construct-Watched_example = construct-Watched (scripted []) 9091 sample_election sample_server
