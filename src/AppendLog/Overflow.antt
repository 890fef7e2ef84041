-- ===== src/AppendLog/Overflow.antt =====
-- Compressing a request whose mem_size is not the size of its entries' bytes.
use plib.Base.{
  ℕ, ◌+◌, ◌<◌, ◌≡◌, refl, List, [], ◌∷◌, ◌++◌, All, ok, undefined, length, take, arith, ◌∙◌, ◌⊎◌,
  inl, inr, leb-cases, length-append, length-take,
}
use plib.Memory.Little.{le_bytes}
use plib.Memory.Block.{store_push_cases, load_start}
use plib.Packet.{DataPacket}
use plib.AppendLog.{LogEntry, AppendLogReq, store_entries, compress_append_log_req}
use plib.AppendLog.Wire.{
  IsEntry, entry_wire, entries_wire, head_wire, length-entry_wire, entry_stored, store_entries_lem,
  head_stored, length-head_wire,
}

-- One of the four writes of an entry is outside the block.
entry_outside :
    (w rest : List ℕ) (at : ℕ) (e : LogEntry) (es : List LogEntry)
    → IsEntry e
    → at ≡ length w
    → length rest < length (entry_wire e)
    → store_entries (w ++ rest) at (e ∷ es) ≡ undefined
unfolding store_entries
entry_outside w rest at e es h start late =
    let size = length-entry_wire e h in
    let k = le_bytes 2 e.key_size in
    let v = le_bytes 2 e.val_size in
    let key = take e.key_size e.key in
    let value = take e.val_size e.value in
    let key_size : length key ≡ e.key_size =
      omega (arith, length-take e.key_size e.key, h.key_there) in
    let val_size : length value ≡ e.val_size =
      omega (arith, length-take e.val_size e.value, h.value_there) in
    let loaded = load_start e.key e.key_size h.key_there in
    let loaded' = load_start e.value e.val_size h.value_there in
    let n1 : at + 2 ≡ length (w ++ k) = omega (arith, length-append w k, start) in
    let n2 : at + 2 + e.key_size ≡ length ((w ++ k) ++ key) =
      omega (arith, length-append (w ++ k) key, n1, key_size) in
    let n3 : at + 2 + e.key_size + 2 ≡ length (((w ++ k) ++ key) ++ v) =
      omega (arith, length-append ((w ++ k) ++ key) v, n2) in
    elim (store_push_cases w rest k at start) [
      | inl (_, out) ↦ rw out refl
      | inr (r1, s1, l1) ↦ elim (store_push_cases (w ++ k) r1 key (at + 2) n1) [
        | inl (_, out) ↦ rw (s1, loaded) (rw out refl)
        | inr (r2, s2, l2) ↦
            elim (store_push_cases ((w ++ k) ++ key) r2 v (at + 2 + e.key_size) n2) [
              | inl (_, out) ↦ rw (s1, loaded) (rw (s2, out) refl)
              | inr (r3, s3, l3) ↦
                  elim (store_push_cases (((w ++ k) ++ key) ++ v) r3 value (at + 2 + e.key_size + 2)
                    n3) [
                      | inl (_, out) ↦ rw (s1, loaded) (rw (s2, s3) (rw (loaded', out) refl))
                      | inr (r4, s4, l4) ↦
                          absurd (omega (arith, size, l1, l2, l3, l4, key_size, val_size, late))
                    ]
            ]
      ]
    ]

entries_outside :
    (w rest : List ℕ) (at : ℕ) (es : List LogEntry)
    → All IsEntry es
    → at ≡ length w
    → length rest < length (entries_wire es)
    → store_entries (w ++ rest) at es ≡ undefined
unfolding entries_wire
entries_outside w rest at [] h start late = absurd (omega (arith, late))
entries_outside w rest at (e ∷ es) (h, hs) start late =
    elim (leb-cases (length (entry_wire e)) (length rest)) [
      | inl fits ↦
          let (r1, run, l1) = entry_stored w rest at e es h start fits in
          run
          ∙ entries_outside (w ++ entry_wire e) r1 (at + 2 + e.key_size + 2 + e.val_size) es hs
              (omega (arith, length-append w (entry_wire e), length-entry_wire e h, start))
              (omega (arith, length-append (entry_wire e) (entries_wire es), l1))
      | inr over ↦ entry_outside w rest at e es h start over
    ]

-- Whatever malloc leaves in the block, and for entries whose blocks hold the bytes of their sizes:
-- either mem_size is at least the size of the entries' bytes, and the request is compressed to its
-- fields, its two counts, its entries one after the other, and as many bytes more as mem_size says
-- there are; or mem_size is smaller, and the entries are written past the end of the block.
pub compress_append_log_req_cases :
    (junk : ℕ → ℕ) (r : AppendLogReq) (p : DataPacket)
    → All IsEntry r.log_entries.start
    → ((left : List ℕ) × (length (entries_wire r.log_entries.start) + length left
          ≡ r.log_entries.mem_size)
        × (compress_append_log_req junk r p
            ≡ ok (record p {
              length = 38 + r.log_entries.mem_size;
              body = (head_wire r ++ entries_wire r.log_entries.start) ++ left;
            })))
      ⊎ ((r.log_entries.mem_size < length (entries_wire r.log_entries.start))
          × (compress_append_log_req junk r p ≡ undefined))
compress_append_log_req_cases junk r p valid =
    let es = r.log_entries.start in
    let (rest, size, run) = head_stored junk r p in
    elim (leb-cases (length (entries_wire es)) r.log_entries.mem_size) [
      | inl fits ↦
          let (left, stored, count) =
            store_entries_lem (head_wire r) rest 38 es valid (length-head_wire r)
              (omega (arith, size)) in
          inl (left, omega (arith, count, size), run ∙ rw stored refl)
      | inr over ↦ inr (
        over,
        run
            ∙ rw
                (entries_outside (head_wire r) rest 38 es valid (length-head_wire r)
                  (omega (arith, size)))
                refl,
      )
    ]
