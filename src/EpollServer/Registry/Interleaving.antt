-- ===== src/EpollServer/Registry/Interleaving.antt =====
-- Sequences of putRespInQueue against resp_message_map with its representation forgotten: a
-- quotient of the map by the queue that each descriptor has, if any.
use mathlib.Core.Quot
use mathlib.Core.Quot.{Quot, Quot-set}
use native.Mathlib.Nat.{ℕ_set}
use plib.Base.{
  ℕ, ◌≡◌, refl, Option, some, Option-cases, arith, List, [], ◌∷◌, ◌++◌, true, ok, ◌==◌,
  if◌then◌else◌, Bool-cases, inl, inr, sym, ap, ◌∙◌, append_assoc, ==_iff,
}
use plib.System.{Os, Log, mutex_init}
use plib.SharedQueue.{SharedQueue}
use plib.SharedQueue
use plib.StdMap.{find, insert, assign}
use plib.StdMap.Laws.{find-insert, find-assign}
use plib.Vote.{ReqeustVoteResp}
use plib.EpollServer.State.{Server, M, pure, ◌>>◌, >>=-run}
use plib.EpollServer.Registry.{put_resp_in_queue}
use plib.EpollServer.Registry.Queues.{items}

unfoldable pub put_all : Os → List (ℕ × ReqeustVoteResp) → M (Unit {0})
put_all os [] = pure tt
put_all os ((fd, resp) ∷ rs) = do put_resp_in_queue os fd resp; put_all os rs

-- The responses of a sequence that are for a descriptor.
abbrev pub for_fd : ℕ → List (ℕ × ReqeustVoteResp) → List ReqeustVoteResp
for_fd fd [] = []
for_fd fd ((j, r) ∷ rs) = let rest = for_fd fd rs in if j == fd then r ∷ rest else rest

abbrev QueueMap : Type 0
QueueMap = List (ℕ × SharedQueue ReqeustVoteResp)

-- The same descriptors have a queue, and the same one.
abbrev SameQueues : QueueMap → QueueMap → Type 0
SameQueues m n = (fd : ℕ) → find fd m ≡ find fd n

abbrev pub Queues : Type 0
Queues = Quot SameQueues

abbrev pub view : Server → Queues
view s = Quot.mk s.resp_message_map

pub queue_set : IsSet (Option (SharedQueue ReqeustVoteResp))
queue_set = hlevel (ℕ_set)

-- The queue of a descriptor, if it has one, is a function of the quotient.
unfoldable pub queue_of : ℕ → Queues → Option (SharedQueue ReqeustVoteResp)
queue_of fd = Quot.lift queue_set (λ m. find fd m) (λ m n same. same fd)

-- A queue after more responses: a descriptor without any keeps its queue or the lack of one.
abbrev pub with_more :
    Option (SharedQueue ReqeustVoteResp)
    → List ReqeustVoteResp
    → Option (SharedQueue ReqeustVoteResp)
with_more q [] = q
with_more q (r ∷ rs) = some (record { queue = items q ++ r ∷ rs })

with_more_step :
    (q : Option (SharedQueue ReqeustVoteResp)) (r : ReqeustVoteResp) (rs : List ReqeustVoteResp)
    → with_more (some (record { queue = items q ++ r ∷ [] })) rs ≡ with_more q (r ∷ rs)
with_more_step q r [] = refl
with_more_step q r (x ∷ rs) =
    ap (λ xs. some (record { queue = xs })) (append_assoc (items q) (r ∷ []) (x ∷ rs))

joined :
    (queues : ℕ → Option (SharedQueue ReqeustVoteResp)) (j fd : ℕ) (r : ReqeustVoteResp)
    (rs : List (ℕ × ReqeustVoteResp))
    → with_more
        (if j == fd then some (record { queue = items (queues j) ++ r ∷ [] }) else queues fd)
        (for_fd fd rs)
      ≡ with_more (queues fd) (for_fd fd ((j, r) ∷ rs))
joined queues j fd r rs = elim (Bool-cases (j == fd)) [
  | inl e ↦ rw (e, (==_iff j fd).0 e) (with_more_step (queues fd) r (for_fd fd rs))
  | inr e ↦ rw e refl
]

module _ (os : Os) (made : (log : Log) → os.mutex_init log ≡ true) where
  put_resp_finds :
      (fd : ℕ) (resp : ReqeustVoteResp) (s : Server)
      → (t : Server) × (put_resp_in_queue os fd resp s ≡ ok (tt, t))
        × ((j : ℕ)
            → find j t.resp_message_map ≡ (
                if fd == j
                then some (record { queue = items (find fd s.resp_message_map) ++ resp ∷ [] })
                else find j s.resp_message_map))
  unfolding put_resp_in_queue SharedQueue.push_back SharedQueue.make_with
  put_resp_finds fd resp s = elim (Option-cases (find fd s.resp_message_map)) [
    | inl e ↦ (
      record s {
        resp_message_map = insert fd (record { queue = resp ∷ [] }) s.resp_message_map;
        log = mutex_init ∷ s.log;
      },
      ground (arith, e, made s.log),
      λ j. rw (find-insert fd j (record { queue = resp ∷ [] }) s.resp_message_map e, e) refl,
    )
    | inr (q, e) ↦ (
      record s { resp_message_map = assign fd (SharedQueue.push_back q resp) s.resp_message_map },
      ground (arith, e),
      λ j. rw (find-assign fd j (SharedQueue.push_back q resp) q s.resp_message_map e, e) refl,
    )
  ]

  put_all_lem :
      (rs : List (ℕ × ReqeustVoteResp)) (s : Server)
      → (t : Server) × (put_all os rs s ≡ ok (tt, t))
        × ((fd : ℕ)
            → find fd t.resp_message_map ≡ with_more (find fd s.resp_message_map) (for_fd fd rs))
  unfolding put_all
  put_all_lem [] s = (s, refl, λ fd. refl)
  put_all_lem ((j, r) ∷ rs) s =
      let (u, e, first) = put_resp_finds j r s in
      let (t, ran, rest) = put_all_lem rs u in
      (
        t,
        >>=-run (put_resp_in_queue os j r) (λ _. put_all os rs) s u tt e ∙ ran,
        λ fd.
            rest fd
            ∙ ap (λ q. with_more q (for_fd fd rs)) (first fd)
            ∙ joined (λ k. find k s.resp_message_map) j fd r rs,
      )

  -- If mutexes can be made, putting two sequences of responses that agree on the responses for
  -- each descriptor, in whatever order of the descriptors, ends without an exit in servers with the
  -- same queues for the same descriptors, as elements of the quotient; and there each descriptor
  -- with responses has a queue in which they stand behind what waited for it, and the others have
  -- the queue that they had, or none.
  pub put_all_interleaved :
      (rs ss : List (ℕ × ReqeustVoteResp)) (s : Server)
      → ((fd : ℕ) → for_fd fd rs ≡ for_fd fd ss)
      → (t : Server) × (u : Server) × (put_all os rs s ≡ ok (tt, t))
        × (put_all os ss s ≡ ok (tt, u))
        × (view t ≡ view u)
        × ((fd : ℕ) → queue_of fd (view t) ≡ with_more (queue_of fd (view s)) (for_fd fd rs))
  unfolding queue_of
  put_all_interleaved rs ss s agree =
      let (t, ran, after) = put_all_lem rs s in
      let (u, ran', after') = put_all_lem ss s in
      (
        t,
        u,
        ran,
        ran',
        Quot.sound (λ fd.
            after fd ∙ ap (with_more (find fd s.resp_message_map)) (agree fd) ∙ sym (after' fd)),
        after,
      )
