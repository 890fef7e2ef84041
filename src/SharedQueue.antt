-- ===== src/SharedQueue.antt =====
-- SharedQueue.h: a queue over std::deque. No method but size() takes the mutex, so the model is
-- of the calls of one thread at a time. The result of pthread_mutex_init is an argument.
pub mod Fifo
use plib.Base.{
  ℕ, ◌≡◌, Bool, List, [], ◌∷◌, ◌++◌, Option, none, some, ◌>>=◌, Run, ok, exits, length,
  if◌then◌else◌,
}

-- The front of the deque is the head of the list.
pub record SharedQueue {ℓ} (A : Type ℓ) : Type ℓ where
  pub queue : List A

-- exit(-1) gives the status 255.
module _ {ℓ} {A : Type ℓ} where
  unfoldable pub make : Bool → Run (SharedQueue A)
  make mutex_made = if mutex_made then ok (record { queue = [] }) else exits 255

  unfoldable pub push_back : SharedQueue A → A → SharedQueue A
  push_back q item = record { queue = q.queue ++ (item ∷ []) }

  -- The constructor that takes an item makes a temporary queue, whose mutex alone is initialised
  -- by a call, and pushes to this one.
  unfoldable pub make_with : Bool → A → Run (SharedQueue A)
  unfolding make push_back
  make_with mutex_made item = do
    temporary ← make mutex_made
    ok (push_back (record { queue = [] }) item)

  unfoldable pub empty : SharedQueue A → Bool
  empty q = elim q.queue [ [] ↦ Bool.true | _ ∷ _ ↦ Bool.false ]

  -- bool front(T &): `none` is the result false, which leaves the reference alone.
  unfoldable pub front : SharedQueue A → Option A
  front q = elim q.queue [ [] ↦ none | x ∷ _ ↦ some x ]

  unfoldable pub pop_front : SharedQueue A → SharedQueue A
  pop_front q = elim q.queue [ [] ↦ q | _ ∷ rest ↦ record { queue = rest } ]

  unfoldable pub size : SharedQueue A → ℕ
  size q = length q.queue
