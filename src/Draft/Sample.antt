-- ===== src/Draft/Sample.antt =====
-- sample of draft/SampleTest.cpp: the same struct recovered in several ways.
use plib.Base.{ℕ, ◌/◌, ◌%◌, List, [], ◌∷◌, ◌++◌, Run, ok, ◌>>=◌, ltb, if◌then◌else◌, take, drop}
use plib.Memory.Little.{le_bytes, of_le}
use plib.Memory.Block.{malloc, load, store}
use plib.Draft.HexText.{hex_digit, print_hex, parse_hex}

-- A float is its 32 bits.
pub record DataSample : Type 0 where
  pub a : ℕ
  pub b : ℕ
  pub c : List ℕ

abbrev pub sizeof_sample : ℕ
sizeof_sample = 16

abbrev sample_image : DataSample → List ℕ
sample_image s = le_bytes 4 s.a ++ (le_bytes 4 s.b ++ s.c)

abbrev sample_of : List ℕ → DataSample
sample_of image = record {
  a = of_le (take 4 image);
  b = of_le (take 4 (drop 4 image));
  c = take 8 (drop 8 image);
}

-- printf("%X", ...) of each byte.
print_short : List ℕ → List ℕ
print_short [] = []
print_short (x ∷ xs) =
    let rest = print_short xs in
    if ltb x 16 then hex_digit x ∷ rest else hex_digit (x / 16) ∷ hex_digit (x % 16) ∷ rest

-- "Test" with its zero byte.
abbrev cdata : List ℕ
cdata = b'T' ∷ b'e' ∷ b's' ∷ b't' ∷ 0 ∷ []

abbrev hexdata : List ℕ
hexdata =
    b'C' ∷ b'D' ∷ b'C' ∷ b'C' ∷ b'C' ∷ b'C' ∷ b'3' ∷ b'D' ∷ b'1' ∷ b'A' ∷ b'0' ∷ b'0' ∷ b'0' ∷ b'0'
    ∷ b'0' ∷ b'0' ∷ b'5' ∷ b'4' ∷ b'6' ∷ b'5' ∷ b'7' ∷ b'3' ∷ b'7' ∷ b'4' ∷ b'0' ∷ b'0' ∷ b'0'
    ∷ b'0' ∷ b'0' ∷ b'0' ∷ b'0' ∷ b'0' ∷ b'A' ∷ b'0' ∷ b'8' ∷ b'A' ∷ b'1' ∷ b'5' ∷ b'1' ∷ b'C'
    ∷ b'F' ∷ b'E' ∷ b'7' ∷ b'F' ∷ b'0' ∷ b'0' ∷ b'0' ∷ b'0' ∷ []

-- What is printed.
pub record Printed : Type 0 where
  pub test : DataSample
  pub long_hex : List ℕ
  pub short_hex : List ℕ
  pub case3 : DataSample
  pub case5 : DataSample

-- 0.1f is 0x3dcccccd. What `temp.c` and `datas` hold before is not determined.
unfoldable pub sample : (ℕ → ℕ) → (ℕ → ℕ) → Run Printed
unfolding print_short
sample stack heap = do
  c ← store (malloc stack 8) 0 cdata
  let temp : DataSample = record { a = 0x3dcc_cccd; b = 26; c = c }
  datas ← store (malloc heap sizeof_sample) 0 (sample_image temp)
  case3 ← load datas 0 sizeof_sample
  case5 ← load (parse_hex hexdata) 0 sizeof_sample
  ok (record {
    test = sample_of (sample_image temp);
    long_hex = print_hex datas;
    short_hex = print_short datas;
    case3 = sample_of case3;
    case5 = sample_of case5;
  })
