-- ===== src/Draft/HexText.antt =====
-- draft/SampleTest.cpp: a struct copied as bytes, printed in hexadecimal and read back.
use plib.Base.{
  ℕ, ◌+◌, ◌-◌, ◌*◌, ◌/◌, ◌%◌, ◌^◌, ◌<◌, ◌≡◌, refl, List, [], ◌∷◌, Bool, true, false, Option, none,
  some, ◌&&◌, ◌||◌, leb, ltb, ◌==◌, if◌then◌else◌, arith, ap, ap₂, subst, sym, ◌∙◌,
}
use plib.Memory.Little.{IsBytes}

abbrev pub hex_digit : ℕ → ℕ
hex_digit v = if ltb v 10 then b'0' + v else b'A' + (v - 10)

-- printf("%02X", ...) of each byte.
unfoldable pub print_hex : List ℕ → List ℕ
print_hex [] = []
print_hex (b ∷ bs) = hex_digit (b / 16) ∷ hex_digit (b % 16) ∷ print_hex bs

-- The value of a digit in base 16.
abbrev pub digit_of : ℕ → Option ℕ
digit_of c =
    if leb b'0' c && leb c b'9'
    then some (c - b'0')
    else if leb b'A' c && leb c b'F'
    then some (c - b'A' + 10)
    else if leb b'a' c && leb c b'f'
    then some (c - b'a' + 10)
    else none

abbrev pub is_space : ℕ → Bool
is_space c = (c == b' ') || (leb 9 c && leb c 13)

-- strtol in base 16 on a short text, as a 64-bit pattern: spaces, a sign, 0x, and digits up to
-- the first character that is none.
abbrev pub digits : ℕ → List ℕ → ℕ
digits value [] = value
digits value (c ∷ cs) = elim (digit_of c) [ none ↦ value | some d ↦ digits (16 * value + d) cs ]

abbrev pub unsigned : List ℕ → ℕ
unsigned (c ∷ x ∷ cs) =
    if (c == b'0') && ((x == b'x') || (x == b'X')) then digits 0 cs else digits 0 (c ∷ x ∷ cs)
unsigned cs = digits 0 cs

abbrev pub signed : List ℕ → ℕ
signed [] = 0
signed (c ∷ cs) =
    if c == b'-'
    then (2 ^ 64 - unsigned cs) % 2 ^ 64
    else if c == b'+'
    then unsigned cs
    else unsigned (c ∷ cs)

unfoldable pub strtol : List ℕ → ℕ
strtol [] = 0
strtol (c ∷ cs) = let rest = strtol cs in if is_space c then rest else signed (c ∷ cs)

-- The loop of case 5: each two characters give a char.
unfoldable pub parse_hex : List ℕ → List ℕ
parse_hex [] = []
parse_hex (c ∷ []) = strtol (c ∷ []) % 256 ∷ []
parse_hex (c ∷ d ∷ cs) = strtol (c ∷ d ∷ []) % 256 ∷ parse_hex cs

hex_digit_cases : (v : ℕ) → v < 16 → record {
  value : digit_of (hex_digit v) ≡ some v;
  no_space : is_space (hex_digit v) ≡ false;
  no_minus : (hex_digit v == b'-') ≡ false;
  no_plus : (hex_digit v == b'+') ≡ false;
  no_x : ((hex_digit v == b'x') || (hex_digit v == b'X')) ≡ false;
}
hex_digit_cases v h = record {
  value = ground arith;
  no_space = ground arith;
  no_minus = ground arith;
  no_plus = ground arith;
  no_x = ground arith;
}

digits_two :
    (c d hi lo : ℕ)
    → digit_of c ≡ some hi
    → digit_of d ≡ some lo
    → digits 0 (c ∷ d ∷ []) ≡ 16 * hi + lo
digits_two c d hi lo e f = rw (e, digits) (rw (f, digits) (omega arith))

unsigned_two :
    (c d : ℕ) → ((d == b'x') || (d == b'X')) ≡ false → unsigned (c ∷ d ∷ []) ≡ digits 0 (c ∷ d ∷ [])
unsigned_two c d e =
    subst
      (λ x.
        (if (c == b'0') && x then digits 0 [] else digits 0 (c ∷ d ∷ [])) ≡ digits 0 (c ∷ d ∷ []))
      (sym e) (go (c == b'0'))
  where
    go :
        (b : Bool)
        → (if b && false then digits 0 [] else digits 0 (c ∷ d ∷ [])) ≡ digits 0 (c ∷ d ∷ [])
    go true = refl
    go false = refl

signed_plain :
    (c : ℕ) (cs : List ℕ)
    → (c == b'-') ≡ false
    → (c == b'+') ≡ false
    → signed (c ∷ cs) ≡ unsigned (c ∷ cs)
signed_plain c cs e f =
    subst
      (λ x.
        (if x
          then (2 ^ 64 - unsigned cs) % 2 ^ 64
          else if c == b'+'
          then unsigned cs
          else unsigned (c ∷ cs))
        ≡ unsigned (c ∷ cs))
      (sym e)
      (subst (λ x. (if x then unsigned cs else unsigned (c ∷ cs)) ≡ unsigned (c ∷ cs)) (sym f) refl)

strtol_plain : (c : ℕ) (cs : List ℕ) → is_space c ≡ false → strtol (c ∷ cs) ≡ signed (c ∷ cs)
unfolding strtol
strtol_plain c cs e =
    subst (λ x. (if x then strtol cs else signed (c ∷ cs)) ≡ signed (c ∷ cs)) (sym e) refl

byte_back :
    (hi lo : ℕ) → hi < 16 → lo < 16 → strtol (hex_digit hi ∷ hex_digit lo ∷ []) ≡ 16 * hi + lo
byte_back hi lo h k =
    let first = hex_digit_cases hi h in
    let second = hex_digit_cases lo k in
    let c = hex_digit hi in
    let d = hex_digit lo in
    strtol_plain c (d ∷ []) first.no_space
    ∙ signed_plain c (d ∷ []) first.no_minus first.no_plus
    ∙ unsigned_two c d second.no_x
    ∙ digits_two c d hi lo first.value second.value

-- Bytes printed in hexadecimal are read back unchanged.
pub parse_hex-print_hex : (bytes : List ℕ) → IsBytes bytes → parse_hex (print_hex bytes) ≡ bytes
unfolding parse_hex print_hex
parse_hex-print_hex [] h = refl
parse_hex-print_hex (b ∷ bs) (fits, h) =
    ap₂ ◌∷◌
      (ap (λ v. v % 256) (byte_back (b / 16) (b % 16) (omega arith) (omega arith)) ∙ omega arith)
      (parse_hex-print_hex bs h)
