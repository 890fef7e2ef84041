-- ===== src/EpollServer/Teardown.antt =====
-- The destructor of ProtocalServerEpoll.
use plib.Base.{
  ℕ, zero, suc, ◌<◌, ◌≡◌, refl, List, [], ◌∷◌, ◌++◌, All, length, none, some, Run, ok, spins, ◌>>=◌,
  arith,
}
use plib.System.{close}
use plib.SharedQueue
use plib.SharedQueue.{SharedQueue}
use plib.Vote.{ReqeustVoteResp}
use plib.EpollServer.State.{Server}

-- while (!it->second->empty()), on fuel: the responses that are freed, in order.
unfoldable pub free_queued : ℕ → SharedQueue ReqeustVoteResp → Run (List ReqeustVoteResp)
free_queued zero q = spins
free_queued (suc fuel) q = elim (SharedQueue.front q) [
  | none ↦ ok []
  | some resp ↦ (do freed ← free_queued fuel (SharedQueue.pop_front q); ok (resp ∷ freed))
]

-- The loop over resp_message_map, in the order of the map.
unfoldable pub free_queues : ℕ → List (ℕ × SharedQueue ReqeustVoteResp) → Run (List ReqeustVoteResp)
free_queues fuel [] = ok []
free_queues fuel ((fd, q) ∷ m) = do
  freed ← free_queued fuel q
  others ← free_queues fuel m
  ok (freed ++ others)

-- The destructor: the responses that it frees, and the server with the calls that it makes.
unfoldable pub destroy : ℕ → Server → Run (List ReqeustVoteResp × Server)
destroy fuel s = do
  freed ← free_queues fuel s.resp_message_map
  ok (freed, record s { log = close s.listenfd ∷ close s.udpfd ∷ s.log; resp_message_map = [] })

-- All that is queued, by the order of the map and of the queues.
all_queued : List (ℕ × SharedQueue ReqeustVoteResp) → List ReqeustVoteResp
all_queued [] = []
all_queued ((fd, q) ∷ m) = q.queue ++ all_queued m

free_queued_lem :
    (fuel : ℕ) (rs : List ReqeustVoteResp)
    → length rs < fuel
    → free_queued fuel (record { queue = rs }) ≡ ok rs
unfolding free_queued SharedQueue.front SharedQueue.pop_front
free_queued_lem zero rs h = elim h [ ]
free_queued_lem (suc fuel) [] h = refl
free_queued_lem (suc fuel) (r ∷ rs) h = rw (free_queued_lem fuel rs (omega arith)) refl

free_queues_lem :
    (fuel : ℕ) (m : List (ℕ × SharedQueue ReqeustVoteResp))
    → All (λ e. length e.1.queue < fuel) m
    → free_queues fuel m ≡ ok (all_queued m)
unfolding free_queues all_queued
free_queues_lem fuel [] h = refl
free_queues_lem fuel ((fd, q) ∷ m) h =
    rw (free_queued_lem fuel q.queue h.0, free_queues_lem fuel m h.1) refl

-- The destructor frees each queued response once, and closes the two listening sockets and no
-- other descriptor. A round for each response of the longest queue and one more are enough.
destroy_frees :
    (fuel : ℕ) (s : Server)
    → All (λ e. length e.1.queue < fuel) s.resp_message_map
    → destroy fuel s
      ≡ ok (
        all_queued s.resp_message_map,
        record s { log = close s.listenfd ∷ close s.udpfd ∷ s.log; resp_message_map = [] },
      )
unfolding destroy
destroy_frees fuel s h = rw (free_queues_lem fuel s.resp_message_map h, destroy) refl
