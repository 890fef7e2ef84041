-- ===== src/StdMap.antt =====
-- std::map<int, V>, of which the program uses find and insert. An int is its 32-bit pattern.
pub mod Laws
use plib.Base.{ℕ, ◌+◌, ◌%◌, ◌^◌, List, [], ◌∷◌, Bool, Option, none, some, ltb, ◌==◌, if◌then◌else◌}

-- The order of two's complement.
abbrev pub int_lt : ℕ → ℕ → Bool
int_lt a b = ltb ((a + 2 ^ 31) % 2 ^ 32) ((b + 2 ^ 31) % 2 ^ 32)

module _ {ℓ} {V : Type ℓ} where
  unfoldable pub find : ℕ → List (ℕ × V) → Option V
  find k [] = none
  find k ((j, w) ∷ m) = if j == k then some w else find k m

  place : ℕ → V → List (ℕ × V) → List (ℕ × V)
  place k v [] = (k, v) ∷ []
  place k v ((j, w) ∷ m) = if int_lt k j then (k, v) ∷ (j, w) ∷ m else (j, w) ∷ place k v m

  -- An entry that is there is left as it is.
  unfoldable pub insert : ℕ → V → List (ℕ × V) → List (ℕ × V)
  unfolding place find
  insert k v m = elim (find k m) [ none ↦ place k v m | some w ↦ m ]

  -- A change of the object that an entry points to.
  unfoldable pub assign : ℕ → V → List (ℕ × V) → List (ℕ × V)
  assign k v [] = []
  assign k v ((j, w) ∷ m) = if j == k then (j, v) ∷ m else (j, w) ∷ assign k v m
