-- ===== src/StdMap/Laws.antt =====
-- What find gives after each change of a map.
use plib.Base.{ℕ, ◌≡◌, refl, List, [], ◌∷◌, none, some, ◌==◌, if◌then◌else◌, arith}
use plib.StdMap.{find, place, insert, assign}

module _ {ℓ} {V : Type ℓ} where
  find-place :
      (k j : ℕ) (v : V) (m : List (ℕ × V))
      → find k m ≡ none
      → find j (place k v m) ≡ (if k == j then some v else find j m)
  unfolding find place
  find-place k j v [] h = refl
  find-place k j v ((i, w) ∷ m) h = ground (arith, find-place k j v m)

  pub find-insert :
      (k j : ℕ) (v : V) (m : List (ℕ × V))
      → find k m ≡ none
      → find j (insert k v m) ≡ (if k == j then some v else find j m)
  unfolding insert
  find-insert k j v m h = rw (h, insert) (find-place k j v m h)

  -- insert does not overwrite.
  pub insert_found : (k : ℕ) (v w : V) (m : List (ℕ × V)) → find k m ≡ some w → insert k v m ≡ m
  unfolding insert
  insert_found k v w m h = rw (h, insert)

  pub find-assign :
      (k j : ℕ) (v w : V) (m : List (ℕ × V))
      → find k m ≡ some w
      → find j (assign k v m) ≡ (if k == j then some v else find j m)
  unfolding find assign
  find-assign k j v w [] h = cc
  find-assign k j v w ((i, u) ∷ m) h = ground (arith, find-assign k j v w m)
