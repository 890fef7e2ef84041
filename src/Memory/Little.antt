-- ===== src/Memory/Little.antt =====
-- Unsigned integers as they lie in memory: little-endian bytes.
use native.Mathlib.Nat.{pow-suc}
use plib.Base.{
  ℕ, zero, suc, ◌+◌, ◌*◌, ◌/◌, ◌%◌, ◌^◌, ◌<◌, ◌≡◌, refl, ap, List, [], ◌∷◌, All, length, arith,
}

-- The w bytes of an integer of w bytes.
abbrev pub le_bytes : ℕ → ℕ → List ℕ
le_bytes zero v = []
le_bytes (suc w) v = v % 256 ∷ le_bytes w (v / 256)

-- The integer that some bytes stand for.
abbrev pub of_le : List ℕ → ℕ
of_le [] = 0
of_le (b ∷ bs) = b + 256 * of_le bs

abbrev pub IsBytes : List ℕ → Type 0
IsBytes = All (λ b. b < 256)

pub length-le_bytes : (w v : ℕ) → length (le_bytes w v) ≡ w
length-le_bytes zero v = refl
length-le_bytes (suc w) v = ap suc (length-le_bytes w (v / 256))

pub le_bytes-IsBytes : (w v : ℕ) → IsBytes (le_bytes w v)
le_bytes-IsBytes zero v = tt
le_bytes-IsBytes (suc w) v = (omega arith, le_bytes-IsBytes w (v / 256))

pub of_le-le_bytes : (w v : ℕ) → v < 256 ^ w → of_le (le_bytes w v) ≡ v
of_le-le_bytes zero v h = omega arith
of_le-le_bytes (suc w) v h =
    let bound : v < 256 * 256 ^ w = omega (arith, pow-suc 256 w) in
    omega (arith, of_le-le_bytes w (v / 256) (omega arith))

pub of_le-lt : (bs : List ℕ) → IsBytes bs → of_le bs < 256 ^ length bs
of_le-lt [] h = omega arith
of_le-lt (b ∷ bs) h = omega (arith, of_le-lt bs h.1, pow-suc 256 (length bs))

pub le_bytes-of_le : (bs : List ℕ) → IsBytes bs → le_bytes (length bs) (of_le bs) ≡ bs
le_bytes-of_le [] h = refl
le_bytes-of_le (b ∷ bs) h = ground (
  arith,
  le_bytes-of_le bs h.1,
  ap (λ (x : ℕ). le_bytes (length bs) x)
      (let e : (b + 256 * of_le bs) / 256 ≡ of_le bs = omega arith in e),
)
