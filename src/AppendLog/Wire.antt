-- ===== src/AppendLog/Wire.antt =====
-- The bytes of a compressed append request.
use plib.Base.{
  ℕ, ◌+◌, ◌≤◌, ◌<◌, ◌^◌, ◌≡◌, refl, List, [], ◌∷◌, ◌++◌, All, ok, ◌>>=◌, length, take, arith, ap,
  subst, sym, ◌∙◌, append_assoc, append-nil, length-append, length-take,
}
use plib.Memory.Little.{le_bytes}
use plib.Memory.Block.{malloc, store, store_push, load_start, length-fresh}
use plib.Packet.{DataPacket}
use plib.AppendLog.{LogEntry, AppendLogReq, basic_image, store_entries, compress_append_log_req}

-- The blocks of an entry hold the bytes of its sizes.
pub record IsEntry (e : LogEntry) : Type 0 where
  pub key_there : e.key_size ≤ length e.key
  pub value_there : e.val_size ≤ length e.value
  pub key_fits : e.key_size < 2 ^ 16
  pub value_fits : e.val_size < 2 ^ 16

unfoldable pub entry_wire : LogEntry → List ℕ
entry_wire e =
    le_bytes 2 e.key_size
    ++ (take e.key_size e.key ++ (le_bytes 2 e.val_size ++ take e.val_size e.value))

unfoldable pub entries_wire : List LogEntry → List ℕ
entries_wire [] = []
entries_wire (e ∷ es) = entry_wire e ++ entries_wire es

pub length-entry_wire :
    (e : LogEntry) → IsEntry e → length (entry_wire e) ≡ e.key_size + e.val_size + 4
unfolding entry_wire
length-entry_wire e h = omega (
  arith,
  h.key_there,
  h.value_there,
  length-append (take e.key_size e.key) (le_bytes 2 e.val_size ++ take e.val_size e.value),
  length-take e.key_size e.key,
  length-take e.val_size e.value,
)

entry_run :
    (e : LogEntry) (es : List LogEntry) (at : ℕ) (b b1 b2 b3 b4 : List ℕ)
    → IsEntry e
    → store b at (le_bytes 2 e.key_size) ≡ ok b1
    → store b1 (at + 2) (take e.key_size e.key) ≡ ok b2
    → store b2 (at + 2 + e.key_size) (le_bytes 2 e.val_size) ≡ ok b3
    → store b3 (at + 2 + e.key_size + 2) (take e.val_size e.value) ≡ ok b4
    → store_entries b at (e ∷ es) ≡ store_entries b4 (at + 2 + e.key_size + 2 + e.val_size) es
unfolding store_entries
entry_run e es at b b1 b2 b3 b4 h s1 s2 s3 s4 =
    rw (s1, load_start e.key e.key_size h.key_there)
      (rw (s2, s3) (rw (load_start e.value e.val_size h.value_there) (rw s4 refl)))

regroup : (w a k c v : List ℕ) → (((w ++ a) ++ k) ++ c) ++ v ≡ w ++ (a ++ (k ++ (c ++ v)))
regroup w a k c v =
    append_assoc ((w ++ a) ++ k) c v
    ∙ append_assoc (w ++ a) k (c ++ v)
    ∙ append_assoc w a (k ++ (c ++ v))

-- The four writes of an entry.
pub entry_stored :
    (w rest : List ℕ) (at : ℕ) (e : LogEntry) (es : List LogEntry)
    → IsEntry e
    → at ≡ length w
    → length (entry_wire e) ≤ length rest
    → (left : List ℕ) × (store_entries (w ++ rest) at (e ∷ es)
        ≡ store_entries ((w ++ entry_wire e) ++ left) (at + 2 + e.key_size + 2 + e.val_size) es)
      × (length (entry_wire e) + length left ≡ length rest)
unfolding entry_wire
entry_stored w rest at e es h start fits =
    let size = length-entry_wire e h in
    let key = take e.key_size e.key in
    let value = take e.val_size e.value in
    let key_size : length key ≡ e.key_size =
      omega (arith, length-take e.key_size e.key, h.key_there) in
    let val_size : length value ≡ e.val_size =
      omega (arith, length-take e.val_size e.value, h.value_there) in
    let (r1, s1, l1) =
      store_push w rest (le_bytes 2 e.key_size) at start (omega (arith, size, fits)) in
    let w1 = w ++ le_bytes 2 e.key_size in
    let n1 : length w1 ≡ at + 2 = omega (arith, length-append w (le_bytes 2 e.key_size), start) in
    let (r2, s2, l2) =
      store_push w1 r1 key (at + 2) (sym n1) (omega (arith, size, fits, l1, key_size)) in
    let w2 = w1 ++ key in
    let n2 : length w2 ≡ at + 2 + e.key_size = omega (arith, length-append w1 key, n1, key_size) in
    let (r3, s3, l3) =
      store_push w2 r2 (le_bytes 2 e.val_size) (at + 2 + e.key_size) (sym n2)
        (omega (arith, size, fits, l1, l2, key_size)) in
    let w3 = w2 ++ le_bytes 2 e.val_size in
    let n3 : length w3 ≡ at + 2 + e.key_size + 2 =
      omega (arith, length-append w2 (le_bytes 2 e.val_size), n2) in
    let (r4, s4, l4) =
      store_push w3 r3 value (at + 2 + e.key_size + 2) (sym n3)
        (omega (arith, size, fits, l1, l2, l3, key_size, val_size)) in
    (
      r4,
      subst
          (λ x.
            store_entries (w ++ rest) at (e ∷ es)
            ≡ store_entries (x ++ r4) (at + 2 + e.key_size + 2 + e.val_size) es)
          (regroup w (le_bytes 2 e.key_size) key (le_bytes 2 e.val_size) value)
          (entry_run e es at (w ++ rest) (w1 ++ r1) (w2 ++ r2) (w3 ++ r3) ((w3 ++ value) ++ r4) h s1
            s2 s3 s4),
      omega (arith, size, l1, l2, l3, l4, key_size, val_size),
    )

pub store_entries_lem :
    (w rest : List ℕ) (at : ℕ) (es : List LogEntry)
    → All IsEntry es
    → at ≡ length w
    → length (entries_wire es) ≤ length rest
    → (left : List ℕ) × (store_entries (w ++ rest) at es ≡ ok ((w ++ entries_wire es) ++ left))
      × (length (entries_wire es) + length left ≡ length rest)
unfolding entries_wire store_entries
store_entries_lem w rest at [] h start fits =
    (rest, ap (λ x. ok (x ++ rest)) (sym (append-nil w)), omega arith)
store_entries_lem w rest at (e ∷ es) (h, hs) start fits =
    let split = length-append (entry_wire e) (entries_wire es) in
    let (r1, run1, l1) = entry_stored w rest at e es h start (omega (arith, split)) in
    let (r2, run2, l2) =
      store_entries_lem (w ++ entry_wire e) r1 (at + 2 + e.key_size + 2 + e.val_size) es hs
        (omega (arith, length-append w (entry_wire e), length-entry_wire e h))
        (omega (arith, split, l1)) in
    (
      r2,
      run1 ∙ run2 ∙ ap (λ x. ok (x ++ r2)) (append_assoc w (entry_wire e) (entries_wire es)),
      omega (arith, split, l1, l2),
    )

-- The bytes of the request before the entries.
pub head_wire : AppendLogReq → List ℕ
head_wire r =
    (basic_image r ++ le_bytes 2 r.log_entries.length) ++ le_bytes 2 r.log_entries.mem_size

pub length-head_wire : (r : AppendLogReq) → 38 ≡ length (head_wire r)
unfolding head_wire
length-head_wire r = refl

no_bytes : (xs : List ℕ) → length xs ≡ 0 → xs ≡ []
no_bytes [] h = refl
no_bytes (x ∷ xs) h = absurd (omega arith)

-- What is left of the block after the head is for the entries.
pub head_stored :
    (junk : ℕ → ℕ) (r : AppendLogReq) (p : DataPacket)
    → (rest : List ℕ) × (length rest ≡ r.log_entries.mem_size)
      × (compress_append_log_req junk r p ≡ (
          store_entries (head_wire r ++ rest) 38 r.log_entries.start >>= λ body.
          ok (record p { length = 38 + r.log_entries.mem_size; body = body })))
unfolding head_wire compress_append_log_req
head_stored junk r p =
    let m = r.log_entries.mem_size in
    let block = malloc junk (34 + 2 + 2 + m) in
    let block_size = length-fresh junk (34 + 2 + 2 + m) 0 in
    let count = le_bytes 2 r.log_entries.length in
    let (r1, s1, l1) = store_push [] block (basic_image r) 0 refl (omega (arith, block_size)) in
    let (r2, s2, l2) =
      store_push (basic_image r) r1 count 34 refl (omega (arith, block_size, l1)) in
    let (r3, s3, l3) =
      store_push (basic_image r ++ count) r2 (le_bytes 2 m) 36 refl
        (omega (arith, block_size, l1, l2)) in
    (
      r3,
      omega (arith, block_size, l1, l2, l3),
      rw s1 (
          rw s2 (
            rw s3 (
              ap
                (λ n. store_entries (head_wire r ++ r3) 38 r.log_entries.start >>= λ body.
                  ok (record p { length = n; body = body }))
                (omega arith)))),
    )

-- A request whose entries' blocks hold the bytes of their sizes, and whose mem_size is the size of
-- the entries' bytes, is compressed to its fields, its two counts and its entries one after the
-- other, whatever malloc leaves in the block.
pub compress-request_wire :
    (junk : ℕ → ℕ) (r : AppendLogReq) (p : DataPacket)
    → All IsEntry r.log_entries.start
    → length (entries_wire r.log_entries.start) ≡ r.log_entries.mem_size
    → compress_append_log_req junk r p
      ≡ ok (record p {
        length = 38 + r.log_entries.mem_size;
        body = head_wire r ++ entries_wire r.log_entries.start;
      })
compress-request_wire junk r p valid size =
    let (rest, enough, run) = head_stored junk r p in
    let (left, stored, count) =
      store_entries_lem (head_wire r) rest 38 r.log_entries.start valid (length-head_wire r)
        (omega (arith, size, enough)) in
    let body = head_wire r ++ entries_wire r.log_entries.start in
    let full : left ≡ [] = no_bytes left (omega (arith, enough, count, size)) in
    run
    ∙ rw stored (
        ap (λ bytes. ok (record p { length = 38 + r.log_entries.mem_size; body = bytes }))
          (ap (◌++◌ body) full ∙ append-nil body))
