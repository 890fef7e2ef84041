-- ===== src/Memory/Block.antt =====
-- malloc and memcpy on a block of memory, the bytes from a pointer up to the end of its object.
use plib.Base.{
  Ends, Ends-if, ℕ, zero, suc, ◌+◌, ◌≤◌, ◌<◌, ◌≡◌, refl, ap, List, [], ◌∷◌, ◌++◌, Run, ok,
  undefined, leb, if◌then◌else◌, length, take, drop, arith, le→leb, gt→leb, length-append,
  length-take, length-drop, take-append, take_prefix, drop-append, drop-drop, append_assoc,
  append-nil, drop_all, subst, ◌∙◌, sym, Always, leb-cases, ◌⊎◌, inl, inr,
}

-- A fresh block of n bytes, `at` being the offset of its first. What malloc leaves in memory is
-- not determined: `junk` is any content.
abbrev pub fresh : (ℕ → ℕ) → ℕ → ℕ → List ℕ
fresh junk zero at = []
fresh junk (suc n) at = junk at ∷ fresh junk n (suc at)

abbrev pub malloc : (ℕ → ℕ) → ℕ → List ℕ
malloc junk n = fresh junk n 0

-- The n bytes that memcpy reads at an offset.
abbrev pub load : List ℕ → ℕ → ℕ → Run (List ℕ)
load block offset n =
    if leb (offset + n) (length block) then ok (take n (drop offset block)) else undefined

-- The block after memcpy has written bytes at an offset.
abbrev pub store : List ℕ → ℕ → List ℕ → Run (List ℕ)
store block offset bytes =
    if leb (offset + length bytes) (length block)
    then ok (take offset block ++ (bytes ++ drop (offset + length bytes) block))
    else undefined

pub length-fresh : (junk : ℕ → ℕ) (n at : ℕ) → length (fresh junk n at) ≡ n
length-fresh junk zero at = refl
length-fresh junk (suc n) at = ap suc (length-fresh junk n (suc at))

-- Reading one of the parts that a block consists of.
pub load_part :
    (pre part post : List ℕ) (offset n : ℕ)
    → offset ≡ length pre
    → n ≡ length part
    → load (pre ++ (part ++ post)) offset n ≡ ok part
load_part pre part post offset n p q = rw (
  le→leb (offset + n) (length (pre ++ (part ++ post)))
      (omega (arith, length-append pre (part ++ post), length-append part post)),
  drop-append offset pre (part ++ post) p,
  take-append n part post q,
)

pub load_inside :
    (block : List ℕ) (offset n : ℕ)
    → offset + n ≤ length block
    → load block offset n ≡ ok (take n (drop offset block))
load_inside block offset n h = rw (le→leb (offset + n) (length block) h)

-- Reading from the start of a block.
pub load_start : (block : List ℕ) (n : ℕ) → n ≤ length block → load block 0 n ≡ ok (take n block)
load_start block n h = rw (le→leb (0 + n) (length block) (omega arith))

-- Writing where the bytes written so far end, as a serializer does.
pub store_next :
    (written rest new : List ℕ) (offset : ℕ)
    → offset ≡ length written
    → length new ≤ length rest
    → store (written ++ rest) offset new ≡ ok (written ++ (new ++ drop (length new) rest))
store_next written rest new offset p q = rw (
  le→leb (offset + length new) (length (written ++ rest))
      (omega (arith, length-append written rest)),
  take-append offset written rest p,
  ← drop-drop offset (length new) (offset + length new) (written ++ rest) refl,
  drop-append offset written rest p,
)

-- A write after what is written, with the rest of the block that is left.
pub store_push :
    (written rest new : List ℕ) (offset : ℕ)
    → offset ≡ length written
    → length new ≤ length rest
    → (left : List ℕ) × (store (written ++ rest) offset new ≡ ok ((written ++ new) ++ left))
      × (length new + length left ≡ length rest)
store_push written rest new offset p q =
    let left = drop (length new) rest in
    (
      left,
      store_next written rest new offset p q ∙ ap ok (sym (append_assoc written new left)),
      omega (arith, length-drop (length new) rest),
    )

pub store_outside :
    (block : List ℕ) (offset : ℕ) (new : List ℕ)
    → length block < offset + length new
    → store block offset new ≡ undefined
store_outside block offset new h = rw (gt→leb _ _ h)

-- Or the rest of the block is too small for it.
pub store_push_cases :
    (written rest new : List ℕ) (offset : ℕ)
    → offset ≡ length written
    → ((length rest < length new) × (store (written ++ rest) offset new ≡ undefined))
      ⊎ ((left : List ℕ) × (store (written ++ rest) offset new ≡ ok ((written ++ new) ++ left))
          × (length new + length left ≡ length rest))
store_push_cases written rest new offset p = elim (leb-cases (length new) (length rest)) [
  | inl fits ↦ inr (store_push written rest new offset p fits)
  | inr over ↦
      inl (
        over,
        store_outside (written ++ rest) offset new (omega (arith, length-append written rest)),
      )
]

-- A copy that fills a block.
pub store_whole :
    (block content : List ℕ) → length block ≡ length content → store block 0 content ≡ ok content
store_whole block content e =
    store_next [] block content 0 refl (omega (arith, e))
    ∙ ap (λ rest. ok (content ++ rest)) (drop_all (length content) block (omega (arith, e)))
    ∙ ap ok (append-nil content)

-- The same for a fresh block.
pub store_full :
    (junk : ℕ → ℕ) (content : List ℕ) (n : ℕ)
    → n ≡ length content
    → store (malloc junk n) 0 content ≡ ok content
store_full junk content n e =
    store_whole (malloc junk n) content (omega (arith, length-fresh junk n 0, e))

-- Reading a part of a block, by how the block is made of its parts.
pub load_at :
    (body pre part post : List ℕ) (offset n : ℕ)
    → body ≡ pre ++ (part ++ post)
    → offset ≡ length pre
    → n ≡ length part
    → load body offset n ≡ ok part
load_at body pre part post offset n made p q =
    subst (λ b. load b offset n ≡ ok part) (sym made) (load_part pre part post offset n p q)

pub load_outside :
    (block : List ℕ) (offset n : ℕ) → length block < offset + n → load block offset n ≡ undefined
load_outside block offset n h = rw (gt→leb _ _ h)

pub store_fits :
    (block : List ℕ) (offset : ℕ) (new : List ℕ) {result : List ℕ}
    → store block offset new ≡ ok result
    → offset + length new ≤ length block
store_fits block offset new h = ground arith

-- The length of a block never changes.
pub length-store :
    (block : List ℕ) (offset : ℕ) (new : List ℕ) {result : List ℕ}
    → store block offset new ≡ ok result
    → length result ≡ length block
length-store block offset new h = ground (
  arith,
  length-append (take offset block) (new ++ drop (offset + length new) block),
  length-append new (drop (offset + length new) block),
  length-take offset block,
  length-drop (offset + length new) block,
)

-- The same where two parts have been written.
pub store_third :
    (first second rest new : List ℕ) (offset : ℕ)
    → offset ≡ length first + length second
    → length new ≤ length rest
    → store (first ++ (second ++ rest)) offset new
      ≡ ok (first ++ (second ++ (new ++ drop (length new) rest)))
store_third first second rest new offset p q = rw (
  ← append_assoc first second rest,
  store_next (first ++ second) rest new offset (omega (arith, length-append first second)) q,
  append_assoc first second,
)

pub store-Ends : (block : List ℕ) (offset : ℕ) (bytes : List ℕ) → Ends (store block offset bytes)
store-Ends block offset bytes = Ends-if _ (ok _) undefined tt tt

pub load-Ends : (block : List ℕ) (offset n : ℕ) → Ends (load block offset n)
load-Ends block offset n = Ends-if _ (ok _) undefined tt tt

-- Writing just before a part that has been written, as a copy from the last part to the first does.
pub store_before :
    (pre written new : List ℕ) (offset : ℕ)
    → offset + length new ≡ length pre
    → store (pre ++ written) offset new ≡ ok (take offset pre ++ (new ++ written))
store_before pre written new offset e = rw (
  le→leb (offset + length new) (length (pre ++ written)) (omega (arith, length-append pre written)),
  take_prefix offset pre written (omega arith),
  drop-append (offset + length new) pre written e,
)

pub load_size :
    (block : List ℕ) (offset n : ℕ) → Always (λ part. length part ≡ n) (load block offset n)
load_size block offset n = elim (leb-cases (offset + n) (length block)) [
  | inl fits ↦
      rw (load_inside block offset n fits)
        (omega (arith, fits, length-take n (drop offset block), length-drop offset block))
  | inr over ↦ rw (load_outside block offset n over) tt
]

pub store_size :
    (block : List ℕ) (offset : ℕ) (new : List ℕ)
    → Always (λ result. length result ≡ length block) (store block offset new)
store_size block offset new = elim (leb-cases (offset + length new) (length block)) [
  | inl fits ↦ rw (le→leb _ _ fits) (length-store block offset new (rw (le→leb _ _ fits) refl))
  | inr over ↦ rw (store_outside block offset new over) tt
]
