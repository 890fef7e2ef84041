-- ===== src/SharedQueue/Fifo.antt =====
-- The order of the items of a SharedQueue.
use plib.Base.{
  ℕ, zero, suc, ◌≡◌, refl, List, [], ◌∷◌, ◌++◌, none, some, length, append_assoc, append-nil, arith,
  ◌<◌,
}
use plib.SharedQueue.{SharedQueue, push_back, front, pop_front}

module _ {ℓ} {A : Type ℓ} where
  pub push_all : SharedQueue A → List A → SharedQueue A
  push_all q [] = q
  push_all q (x ∷ xs) = push_all (push_back q x) xs

  -- while (!q.empty()) { front; pop_front }, on fuel: what comes out, and the queue at the end.
  pub drain : ℕ → SharedQueue A → List A × SharedQueue A
  drain zero q = ([], q)
  drain (suc fuel) q = elim (front q) [
    | none ↦ ([], q)
    | some x ↦ (let (xs, rest) = drain fuel (pop_front q) in (x ∷ xs, rest))
  ]

  drain_lem :
      (xs : List A) (fuel : ℕ)
      → length xs < fuel
      → drain fuel (record { queue = xs }) ≡ (xs, record { queue = [] })
  unfolding drain front pop_front
  drain_lem xs zero h = elim h [ ]
  drain_lem [] (suc fuel) h = refl
  drain_lem (x ∷ xs) (suc fuel) h = rw (drain_lem xs fuel (omega arith))

  push_all_lem :
      (q : SharedQueue A) (xs : List A) → push_all q xs ≡ record { queue = q.queue ++ xs }
  unfolding push_all push_back
  push_all_lem q [] = rw (append-nil q.queue)
  push_all_lem q (x ∷ xs) = rw (push_all_lem (push_back q x) xs, append_assoc)

  -- Items pushed to a new queue come out by front and pop_front in the same order, and leave the
  -- queue empty, on fuel above their number.
  pub drain-push_all :
      (xs : List A) (fuel : ℕ)
      → length xs < fuel
      → drain fuel (push_all (record { queue = [] }) xs) ≡ (xs, record { queue = [] })
  drain-push_all xs fuel h = rw (push_all_lem (record { queue = [] }) xs) (drain_lem xs fuel h)
