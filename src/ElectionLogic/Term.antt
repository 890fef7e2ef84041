-- ===== src/ElectionLogic/Term.antt =====
-- For which indices the term of a log entry is given.
use plib.Base.{
  ℕ, ◌+◌, ◌-◌, ◌<◌, ◌≤◌, ◌^◌, ◌≡◌, refl, ok, undefined, List, [], ◌∷◌, length, get_elem?, none,
  some, arith, sub64, suc, zero, ◌⊎◌, inl, inr, leb-cases,
}
use plib.StateLocalData.{Entry}
use plib.ElectionLogic.{ElectionLogic, get_term}

get_elem?_inside :
    (xs : List Entry) (i : ℕ) → i < length xs → (e : Entry) × (get_elem? xs i ≡ some e)
get_elem?_inside [] i h = elim h [ ]
get_elem?_inside (x ∷ xs) zero h = (x, refl)
get_elem?_inside (x ∷ xs) (suc i) h = get_elem?_inside xs i (omega arith)

get_elem?_outside : (xs : List Entry) (i : ℕ) → length xs ≤ i → get_elem? xs i ≡ none
get_elem?_outside [] i h = refl
get_elem?_outside (x ∷ xs) zero h = absurd (omega arith)
get_elem?_outside (x ∷ xs) (suc i) h = get_elem?_outside xs i (omega arith)

module _ (l : ElectionLogic) where
  open l.persist_state.logs use {log_vector, first_index}

  -- An index that the vector has gives its entry's term.
  pub get_term_inside :
      (index : ℕ)
      → 0 < index
      → first_index ≤ index
      → index < first_index + length log_vector
      → index < 2 ^ 64
      → (e : Entry) × (get_elem? log_vector (index - first_index) ≡ some e)
        × (get_term l index ≡ ok e.term)
  unfolding get_term
  get_term_inside index pos from to fits =
      let (e, at) = get_elem?_inside log_vector (index - first_index) (omega arith) in
      let wrapped : sub64 index first_index ≡ index - first_index = omega arith in
      (e, at, ground (arith, at, wrapped))

  -- An index before the first one or past the end reads outside the vector.
  pub get_term_outside :
      (index : ℕ)
      → 0 < index
      → index < 2 ^ 64
      → first_index + length log_vector < 2 ^ 64
      → (index < first_index) ⊎ (first_index + length log_vector ≤ index)
      → get_term l index ≡ undefined
  unfolding get_term
  get_term_outside index pos fits small out =
      let outside = get_elem?_outside log_vector (sub64 index first_index) (omega arith) in
      ground (arith, outside)

  -- For an index above 0, of 64 bits, and a vector whose end fits 64 bits: the term of the entry is
  -- given from the first index up to the end of the vector, and any other index reads outside the
  -- vector.
  pub get_term_lem :
      (index : ℕ)
      → 0 < index
      → index < 2 ^ 64
      → first_index + length log_vector < 2 ^ 64
      → ((first_index ≤ index)
          × (index < first_index + length log_vector)
          × ((e : Entry) × (get_elem? log_vector (index - first_index) ≡ some e)
              × (get_term l index ≡ ok e.term)))
        ⊎ (((index < first_index) ⊎ (first_index + length log_vector ≤ index))
            × (get_term l index ≡ undefined))
  get_term_lem index pos fits small = elim (leb-cases first_index index) [
    | inr before ↦ inr (inl before, get_term_outside index pos fits small (inl before))
    | inl from ↦ elim (leb-cases (first_index + length log_vector) index) [
      | inl past ↦ inr (inr past, get_term_outside index pos fits small (inr past))
      | inr to ↦ inl (from, to, get_term_inside index pos from to fits)
    ]
  ]
