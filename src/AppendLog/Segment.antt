-- ===== src/AppendLog/Segment.antt =====
-- compressLogEntries and decompressLogEntries of SegmentLog.h, on the bytes of the two structs. They
-- copy to and from `&body + k`, which is k pointers, not k bytes, after the member body.
use plib.Base.{ℕ, ◌+◌, ◌*◌, ◌≡◌, refl, List, ◌∷◌, ◌++◌, Run, undefined, ◌>>=◌, length}
use plib.Memory.Little.{le_bytes, of_le}
use plib.Memory.Block.{load, store}

-- A pointer is its address.
pub record EntriesHead : Type 0 where
  pub length : ℕ
  pub mem_size : ℕ
  pub start : ℕ

abbrev entries_image : EntriesHead → List ℕ
entries_image e = le_bytes 2 e.length ++ (le_bytes 2 e.mem_size ++ le_bytes 8 e.start)

-- The packed DataPacket, whose member body is its bytes 9 to 16.
abbrev pub packet_image : ℕ → ℕ → ℕ → List ℕ
packet_image msgtype length body = msgtype ∷ (le_bytes 8 length ++ le_bytes 8 body)

abbrev body_at : ℕ
body_at = 9

abbrev sizeof_pointer : ℕ
sizeof_pointer = 8

-- The packet's bytes, where malloc gave the address `area` for its body.
unfoldable pub compress_log_entries : ℕ → EntriesHead → ℕ → Run (List ℕ)
compress_log_entries area entries msgtype = do
  let packet = packet_image msgtype (2 + 2 + entries.mem_size) area
  counted ← store packet body_at (le_bytes 2 entries.length)
  sized ← store counted (body_at + sizeof_pointer * 2) (le_bytes 2 entries.mem_size)
  content ← load (entries_image entries) 4 entries.mem_size
  store sized (body_at + sizeof_pointer * (2 + 2)) content

-- The bytes of the struct LogEntries.
unfoldable pub decompress_log_entries : List ℕ → EntriesHead → Run (List ℕ)
decompress_log_entries packet entries = do
  count ← load packet body_at 2
  counted ← store (entries_image entries) 0 count
  mem_size ← load packet (body_at + sizeof_pointer * 2) 2
  sized ← store counted 2 mem_size
  content ← load packet (body_at + sizeof_pointer * (2 + 2)) (of_le mem_size)
  store sized 4 content

-- Neither function has a defined behaviour, whatever it is given.
pub log_entries_undefined :
    (area msgtype size body : ℕ) (entries : EntriesHead)
    → (compress_log_entries area entries msgtype ≡ undefined)
      × (decompress_log_entries (packet_image msgtype size body) entries ≡ undefined)
unfolding compress_log_entries decompress_log_entries
log_entries_undefined area msgtype size body entries = (refl, refl)
