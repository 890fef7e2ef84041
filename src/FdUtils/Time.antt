-- ===== src/FdUtils/Time.antt =====
-- current_time_utc of FdUtils.h.
use plib.Base.{
  ℕ, zero, suc, ◌+◌, ◌-◌, ◌/◌, ◌%◌, ◌^◌, List, [], ◌∷◌, ◌++◌, if◌then◌else◌, ltb, leb, length, take,
  replicate,
}

-- struct tm, of which the function uses six members.
pub record Tm : Type 0 where
  pub tm_year : ℕ
  pub tm_mon : ℕ
  pub tm_mday : ℕ
  pub tm_hour : ℕ
  pub tm_min : ℕ
  pub tm_sec : ℕ

-- The decimal digits of a number, by a bound on how many there are.
unfoldable pub decimal : ℕ → ℕ → List ℕ
decimal zero v = []
decimal (suc n) v =
    let before = decimal n (v / 10) in
    if ltb v 10 then (b'0' + v) ∷ [] else before ++ (b'0' + v % 10) ∷ []

-- printf("%.nd", ...) of an int, which has ten digits at most.
unfoldable pub padded : ℕ → ℕ → List ℕ
unfolding decimal
padded n v = let digits = decimal 10 v in replicate (n - length digits) b'0' ++ digits

unfoldable pub printed : ℕ → ℕ → List ℕ
unfolding padded
printed n v = if leb (2 ^ 31) v then b'-' ∷ padded n (2 ^ 32 - v) else padded n v

-- The sum of two ints. An overflow, which is undefined, does not occur for a time of gmtime_r.
unfoldable pub plus : ℕ → ℕ → ℕ
plus a b = (a + b) % 2 ^ 32

-- The text for the broken-down time that gmtime_r gives, in a buffer of 32 bytes.
unfoldable pub current_time_utc : Tm → List ℕ
current_time_utc t = take 31 (
    printed 4 (plus t.tm_year 1000)
    ++ (b'-' ∷ printed 2 (plus t.tm_mon 1))
    ++ (b'-' ∷ printed 2 t.tm_mday)
    ++ (b'T' ∷ printed 2 t.tm_hour)
    ++ (b':' ∷ printed 2 t.tm_min)
    ++ (b':' ∷ printed 2 t.tm_sec)
    ++ (b'.' ∷ b'0' ∷ b'0' ∷ b'0' ∷ b'Z' ∷ []))
