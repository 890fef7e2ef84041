-- ===== src/EpollServer/Registry/Queues.antt =====
-- The queues of responses, one for each descriptor.
use plib.Base.{
  refl, ℕ, ◌≡◌, List, [], ◌∷◌, ◌++◌, true, Option, none, some, ok, ◌==◌, if◌then◌else◌, arith,
  exits, Bool-cases, Option-cases, ◌⊎◌, inl, inr,
}
use plib.System.{Os, Log, mutex_init, write}
use plib.SharedQueue
use plib.SharedQueue.{SharedQueue}
use plib.StdMap.{find, insert, assign}
use plib.StdMap.Laws.{find-insert, find-assign}
use plib.Vote.{ReqeustVoteResp}
use plib.EpollServer.State.{Server}
use plib.EpollServer.Registry.{put_resp_in_queue}

-- The abstract view of resp_message_map: what is queued for a descriptor.
abbrev pub items : Option (SharedQueue ReqeustVoteResp) → List ReqeustVoteResp
items none = []
items (some q) = q.queue

abbrev pub queued : Server → ℕ → List ReqeustVoteResp
queued s fd = items (find fd s.resp_message_map)

-- The writes of a log, first the newest.
abbrev pub writes : Log → List (ℕ × List ℕ)
writes [] = []
writes (write fd bytes ∷ log) = (fd, bytes) ∷ writes log
writes (_ ∷ log) = writes log

-- If a mutex can be made, a response is queued last for its descriptor, whether or not the
-- descriptor has a queue yet, the queues of the others stay as they are, and nothing is written.
pub put_resp_in_queue_lem :
    (os : Os) (fd : ℕ) (resp : ReqeustVoteResp) (s : Server)
    → os.mutex_init s.log ≡ true
    → (t : Server) × (put_resp_in_queue os fd resp s ≡ ok (tt, t))
      × ((j : ℕ) → queued t j ≡ (if fd == j then queued s fd ++ resp ∷ [] else queued s j))
      × (writes t.log ≡ writes s.log)
unfolding put_resp_in_queue SharedQueue.push_back SharedQueue.make_with
put_resp_in_queue_lem os fd resp s made = elim (Option-cases (find fd s.resp_message_map)) [
  | inl e ↦ (
    record s {
      resp_message_map = insert fd (record { queue = resp ∷ [] }) s.resp_message_map;
      log = mutex_init ∷ s.log;
    },
    ground (arith, e, made),
    λ j. rw (find-insert fd j _ s.resp_message_map e, e) (ground arith),
    refl,
  )
  | inr (q, e) ↦ (
    record s { resp_message_map = assign fd (SharedQueue.push_back q resp) s.resp_message_map },
    ground (arith, e),
    λ j.
        rw (find-assign fd j (SharedQueue.push_back q resp) q s.resp_message_map e, e)
          (ground arith),
    refl,
  )
]

-- Or the mutex of a new queue cannot be made, and the program exits.
pub put_resp_in_queue_cases :
    (os : Os) (fd : ℕ) (resp : ReqeustVoteResp) (s : Server)
    → (put_resp_in_queue os fd resp s ≡ exits 255)
      ⊎ ((t : Server) × (put_resp_in_queue os fd resp s ≡ ok (tt, t))
          × ((j : ℕ) → queued t j ≡ (if fd == j then queued s fd ++ resp ∷ [] else queued s j))
          × (writes t.log ≡ writes s.log))
unfolding put_resp_in_queue SharedQueue.push_back SharedQueue.make_with SharedQueue.make
put_resp_in_queue_cases os fd resp s = elim (Option-cases (find fd s.resp_message_map)) [
  | inl e ↦ elim (Bool-cases (os.mutex_init s.log)) [
    | inl made ↦ inr (
      record s {
        resp_message_map = insert fd (record { queue = resp ∷ [] }) s.resp_message_map;
        log = mutex_init ∷ s.log;
      },
      ground (arith, e, made),
      λ j. rw (find-insert fd j _ s.resp_message_map e, e) (ground arith),
      refl,
    )
    | inr failed ↦ inl (ground (arith, e, failed))
  ]
  | inr (q, e) ↦ inr (
    record s { resp_message_map = assign fd (SharedQueue.push_back q resp) s.resp_message_map },
    ground (arith, e),
    λ j.
        rw (find-assign fd j (SharedQueue.push_back q resp) q s.resp_message_map e, e)
          (ground arith),
    refl,
  )
]
