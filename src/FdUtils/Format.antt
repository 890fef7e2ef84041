-- ===== src/FdUtils/Format.antt =====
-- The text of current_time_utc.
use native.Mathlib.Nat.{pow-suc}
use plib.Base.{
  ℕ, zero, suc, ◌+◌, ◌-◌, ◌*◌, ◌/◌, ◌%◌, ◌^◌, ◌≤◌, ◌<◌, ◌≡◌, refl, List, [], ◌∷◌, ◌++◌, All, length,
  replicate, length-append, length-replicate, arith, ap, ◌∙◌, leb, ltb, Bool-cases, inl, inr,
  take_all, false,
}
use plib.FdUtils.Time.{Tm, decimal, padded, printed, plus, current_time_utc}

abbrev pub IsDigit : ℕ → Type 0
IsDigit c = (b'0' ≤ c) × (c ≤ b'9')

-- The number that digits stand for, after one that has been read.
abbrev value_from : ℕ → List ℕ → ℕ
value_from v [] = v
value_from v (c ∷ cs) = value_from (v * 10 + (c - b'0')) cs

abbrev pub value : List ℕ → ℕ
value = value_from 0

-- The text is a number of so many digits.
pub record Digits (width v : ℕ) (text : List ℕ) : Type 0 where
  pub size : length text ≡ width
  pub number : value text ≡ v
  pub digits : All IsDigit text

value_from-append :
    (v : ℕ) (xs ys : List ℕ) → value_from v (xs ++ ys) ≡ value_from (value_from v xs) ys
value_from-append v [] ys = refl
value_from-append v (x ∷ xs) ys = value_from-append (v * 10 + (x - b'0')) xs ys

value_from-replicate : (k : ℕ) → value_from 0 (replicate k b'0') ≡ 0
value_from-replicate zero = refl
value_from-replicate (suc k) = value_from-replicate k

All-append : (xs ys : List ℕ) → All IsDigit xs → All IsDigit ys → All IsDigit (xs ++ ys)
All-append [] ys h k = k
All-append (x ∷ xs) ys (h, hs) k = (h, All-append xs ys hs k)

zeros_digits : (k : ℕ) → All IsDigit (replicate k b'0')
zeros_digits zero = tt
zeros_digits (suc k) = ((omega arith, omega arith), zeros_digits k)

two_digits : (width v : ℕ) → 10 ≤ v → v < 10 * 10 ^ width → 0 < width
two_digits zero v h k = absurd (omega arith)
two_digits (suc width) v h k = omega arith

-- A number of `width` digits at most, where there is room for them.
decimal_lem :
    (n width v : ℕ)
    → width ≤ n
    → 0 < width
    → v < 10 ^ width
    → (length (decimal n v) ≤ width) × (value (decimal n v) ≡ v) × All IsDigit (decimal n v)
unfolding decimal
decimal_lem zero width v room some small = absurd (omega arith)
decimal_lem (suc n) zero v room some small = elim some [ ]
decimal_lem (suc n) (suc width) v room some small = elim (Bool-cases (ltb v 10)) [
  | inl one ↦ rw one (omega arith, omega arith, ((omega arith, ground (arith, one)), tt))
  | inr more ↦
      let ten : 10 ≤ v = ground (arith, more) in
      let bound : v < 10 * 10 ^ width = omega (arith, pow-suc 10 width) in
      let (size, number, digits) =
        decimal_lem n width (v / 10) (omega arith) (two_digits width v ten bound)
          (omega (arith, bound)) in
      let last = (b'0' + v % 10) ∷ [] in
      rw more (
        omega (arith, length-append (decimal n (v / 10)) last, size),
        value_from-append 0 (decimal n (v / 10)) last ∙ omega (arith, number),
        All-append (decimal n (v / 10)) last digits ((omega arith, omega arith), tt),
      )
]

padded_lem :
    (width v : ℕ) → 0 < width → width ≤ 10 → v < 10 ^ width → Digits width v (padded width v)
unfolding padded
padded_lem width v some room small =
    let text = decimal 10 v in
    let (size, number, digits) = decimal_lem 10 width v room some small in
    let zeros = replicate (width - length text) b'0' in
    record {
      size = omega (
        arith,
        size,
        length-append zeros text,
        length-replicate {A = ℕ} (width - length text) b'0',
      );
      number =
          value_from-append 0 zeros text
          ∙ ap (λ v. value_from v text) (value_from-replicate (width - length text))
          ∙ number;
      digits = All-append zeros text (zeros_digits (width - length text)) digits;
    }

printed_lem :
    (width v : ℕ)
    → 0 < width
    → width ≤ 10
    → v < 10 ^ width
    → v < 2 ^ 31
    → Digits width v (printed width v)
unfolding printed
printed_lem width v some room small int =
    let positive : leb (2 ^ 31) v ≡ false = ground arith in
    rw positive (padded_lem width v some room small)

two_lem : (v : ℕ) → v < 100 → Digits 2 v (printed 2 v)
two_lem v small = printed_lem 2 v (omega arith) (omega arith) (omega arith) (omega arith)

plus_small : (a b : ℕ) → a + b < 2 ^ 32 → plus a b ≡ a + b
unfolding plus
plus_small a b h = omega arith

-- The members are those of a time in the years from 1900 to 9899, in the ranges that gmtime_r
-- gives.
pub record IsTm (t : Tm) : Type 0 where
  pub year_fits : t.tm_year < 9000
  pub month_fits : t.tm_mon < 12
  pub day_fits : t.tm_mday ≤ 31
  pub hour_fits : t.tm_hour < 24
  pub minute_fits : t.tm_min < 60
  pub second_fits : t.tm_sec ≤ 60

-- For a time whose fields are in the ranges of a struct tm, with a year from 1900 to 10899, the text
-- is the year, as tm_year + 1000, in four digits, and the month, counted from 1, the day, the hour,
-- the minute and the second in two digits each, with the separators between them.
pub current_time_utc-Digits :
    (t : Tm)
    → IsTm t
    → (year month day hour minute second : List ℕ) × (current_time_utc t
        ≡ year
          ++ (b'-' ∷ month)
          ++ (b'-' ∷ day)
          ++ (b'T' ∷ hour)
          ++ (b':' ∷ minute)
          ++ (b':' ∷ second)
          ++ (b'.' ∷ b'0' ∷ b'0' ∷ b'0' ∷ b'Z' ∷ []))
      × Digits 4 (t.tm_year + 1000) year
      × Digits 2 (t.tm_mon + 1) month
      × Digits 2 t.tm_mday day
      × Digits 2 t.tm_hour hour
      × Digits 2 t.tm_min minute
      × Digits 2 t.tm_sec second
unfolding current_time_utc
current_time_utc-Digits t h =
    let year = printed 4 (plus t.tm_year 1000) in
    let month = printed 2 (plus t.tm_mon 1) in
    let day = printed 2 t.tm_mday in
    let hour = printed 2 t.tm_hour in
    let minute = printed 2 t.tm_min in
    let second = printed 2 t.tm_sec in
    let y : Digits 4 (t.tm_year + 1000) year =
      rw (plus_small t.tm_year 1000 (omega (arith, h.year_fits))) (
        printed_lem 4 (t.tm_year + 1000) (omega arith) (omega arith) (omega (arith, h.year_fits))
          (omega (arith, h.year_fits))) in
    let m : Digits 2 (t.tm_mon + 1) month =
      rw (plus_small t.tm_mon 1 (omega (arith, h.month_fits))) (
        printed_lem 2 (t.tm_mon + 1) (omega arith) (omega arith) (omega (arith, h.month_fits))
          (omega (arith, h.month_fits))) in
    let d = two_lem t.tm_mday (omega (arith, h.day_fits)) in
    let o = two_lem t.tm_hour (omega (arith, h.hour_fits)) in
    let n = two_lem t.tm_min (omega (arith, h.minute_fits)) in
    let s = two_lem t.tm_sec (omega (arith, h.second_fits)) in
    let l1 = year ++ (b'-' ∷ month) in
    let l2 = l1 ++ (b'-' ∷ day) in
    let l3 = l2 ++ (b'T' ∷ hour) in
    let l4 = l3 ++ (b':' ∷ minute) in
    let l5 = l4 ++ (b':' ∷ second) in
    let whole = l5 ++ (b'.' ∷ b'0' ∷ b'0' ∷ b'0' ∷ b'Z' ∷ []) in
    let fits : length whole ≤ 31 = omega (
      arith,
      length-append year (b'-' ∷ month),
      length-append l1 (b'-' ∷ day),
      length-append l2 (b'T' ∷ hour),
      length-append l3 (b':' ∷ minute),
      length-append l4 (b':' ∷ second),
      length-append l5 (b'.' ∷ b'0' ∷ b'0' ∷ b'0' ∷ b'Z' ∷ []),
      y.size,
      m.size,
      d.size,
      o.size,
      n.size,
      s.size,
    ) in
    (year, month, day, hour, minute, second, take_all 31 whole fits, y, m, d, o, n, s)
