-- ===== src/AppendLog.antt =====
-- AppendLogCommand.h: the append request with its linked list of log entries, and the response.
pub mod Wire
pub mod Overflow
pub mod Decode
pub mod Segment
use plib.Base.{
  ℕ, zero, suc, ◌+◌, ◌*◌, List, [], ◌∷◌, ◌++◌, Bool, Run, ok, undefined, spins, ◌>>=◌,
  if◌then◌else◌, ◌==◌, leb, take, drop,
}
use plib.Memory.Little.{le_bytes, of_le}
use plib.Memory.Block.{fresh, malloc, load, store}
use plib.Packet.{DataPacket}

-- The pointers key and value are the blocks that they point to.
pub record LogEntry : Type 0 where
  pub key_size : ℕ
  pub key : List ℕ
  pub val_size : ℕ
  pub value : List ℕ

-- The list that `start` points to, along the next pointers up to the null pointer.
pub record LogEntries : Type 0 where
  pub length : ℕ
  pub mem_size : ℕ
  pub start : List LogEntry

pub record AppendLogReq : Type 0 where
  pub term : ℕ
  pub leader_id : ℕ
  pub prev_log_term : ℕ
  pub prev_log_index : ℕ
  pub leader_commit_index : ℕ
  pub log_entries : LogEntries

pub record AppendLogResp : Type 0 where
  pub term : ℕ
  pub success : ℕ

-- The sum of the sizes of the first five fields.
abbrev pub basic_size : ℕ
basic_size = 34

-- A packed struct of two 16-bit fields and a pointer.
abbrev pub sizeof_log_entries : ℕ
sizeof_log_entries = 12

abbrev pub sizeof_append_resp : ℕ
sizeof_append_resp = 9

-- The first basic_size bytes of the struct.
abbrev pub basic_image : AppendLogReq → List ℕ
basic_image r =
    le_bytes 8 r.term
    ++ (le_bytes 2 r.leader_id
        ++ (le_bytes 8 r.prev_log_term
            ++ (le_bytes 8 r.prev_log_index ++ le_bytes 8 r.leader_commit_index)))

-- while (tmp_entry != nullptr), from the offset tmp_size on.
unfoldable pub store_entries : List ℕ → ℕ → List LogEntry → Run (List ℕ)
store_entries body tmp_size [] = ok body
store_entries body tmp_size (e ∷ es) = do
  sized ← store body tmp_size (le_bytes 2 e.key_size)
  key ← load e.key 0 e.key_size
  keyed ← store sized (tmp_size + 2) key
  measured ← store keyed (tmp_size + 2 + e.key_size) (le_bytes 2 e.val_size)
  value ← load e.value 0 e.val_size
  valued ← store measured (tmp_size + 2 + e.key_size + 2) value
  store_entries valued (tmp_size + 2 + e.key_size + 2 + e.val_size) es

unfoldable pub compress_append_log_req : (ℕ → ℕ) → AppendLogReq → DataPacket → Run DataPacket
compress_append_log_req junk r packet = do
  let full_size = basic_size + 2 + 2 + r.log_entries.mem_size
  basic ← store (malloc junk full_size) 0 (basic_image r)
  counted ← store basic basic_size (le_bytes 2 r.log_entries.length)
  sized ← store counted (basic_size + 2) (le_bytes 2 r.log_entries.mem_size)
  body ← store_entries sized (basic_size + 2 + 2) r.log_entries.start
  ok (record packet { length = full_size; body = body })

-- The entries that decompression makes, in the order of the loop. The pointer behind the last of
-- them, which the next pointer of that entry is, or `start` where there are none, is never set:
-- `end_pointer` is the bytes that malloc left there.
pub record DecodedEntries : Type 0 where
  pub length : ℕ
  pub mem_size : ℕ
  pub entries : List LogEntry
  pub end_pointer : List ℕ

pub record DecodedAppendLogReq : Type 0 where
  pub term : ℕ
  pub leader_id : ℕ
  pub prev_log_term : ℕ
  pub prev_log_index : ℕ
  pub leader_commit_index : ℕ
  pub log_entries : DecodedEntries

-- The next pointer of a packed LogEntry.
abbrev pub next_offset : ℕ
next_offset = 20

-- The do loop over the entries, whose rounds tmp_length counts. That is a uint16_t, and starts as
-- the value of two bytes, which is below 2 ^ 16.
unfoldable pub load_entries : (ℕ → ℕ) → List ℕ → ℕ → ℕ → Run (List LogEntry)
load_entries junk body tmp_size zero = ok []
load_entries junk body tmp_size (suc tmp_length) = do
  key_bytes ← load body tmp_size 2
  let key_size = of_le key_bytes
  key_content ← load body (tmp_size + 2) key_size
  key ← store (malloc junk key_size) 0 key_content
  val_bytes ← load body (tmp_size + 2 + key_size) 2
  let val_size = of_le val_bytes
  value_content ← load body (tmp_size + 2 + key_size + 2) val_size
  value ← store (malloc junk val_size) 0 value_content
  rest ← load_entries junk body (tmp_size + 2 + key_size + 2 + val_size) tmp_length
  ok (record { key_size = key_size; key = key; val_size = val_size; value = value } ∷ rest)

-- mem_size goes to `logEntries + sizeof(LogEntries::length)`, two structs behind the pointer.
unfoldable pub decompress_append_log_req : (ℕ → ℕ) → DataPacket → Run DecodedAppendLogReq
decompress_append_log_req junk packet = do
  basic ← load packet.body 0 basic_size
  count ← load packet.body basic_size 2
  counted ← store (malloc junk sizeof_log_entries) 0 count
  mem_size ← load packet.body (basic_size + 2) 2
  entries ← store counted (2 * sizeof_log_entries) mem_size
  let length = of_le (take 2 entries)
  start ← load_entries junk packet.body (basic_size + 2 + 2) length
  ok (record {
    term = of_le (take 8 basic);
    leader_id = of_le (take 2 (drop 8 basic));
    prev_log_term = of_le (take 8 (drop 10 basic));
    prev_log_index = of_le (take 8 (drop 18 basic));
    leader_commit_index = of_le (take 8 (drop 26 basic));
    log_entries = record {
      length = length;
      mem_size = of_le (take 2 (drop 2 entries));
      entries = start;
      end_pointer = if length == 0 then drop 4 entries else fresh junk 8 next_offset;
    };
  })

abbrev pub append_resp_image : AppendLogResp → List ℕ
append_resp_image r = le_bytes 8 r.term ++ le_bytes 1 r.success

unfoldable pub compress_append_log_resp : (ℕ → ℕ) → AppendLogResp → DataPacket → Run DataPacket
compress_append_log_resp junk r packet = do
  body ← store (malloc junk sizeof_append_resp) 0 (append_resp_image r)
  ok (record packet { length = sizeof_append_resp; body = body })

unfoldable pub decompress_append_log_resp : DataPacket → Run AppendLogResp
decompress_append_log_resp packet = do
  image ← load packet.body 0 sizeof_append_resp
  ok (record { term = of_le (take 8 image); success = of_le (take 1 (drop 8 image)) })
