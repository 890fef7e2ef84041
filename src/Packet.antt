-- ===== src/Packet.antt =====
-- DataProtocalSerializer.h: the message types, a data packet, and the message packet that carries
-- it over a socket as type, length and body.
pub mod Wire
use plib.Base.{ℕ, ◌+◌, List, [], ◌>>=◌, Run, ok, u64, sub64}
use plib.Memory.Little.{le_bytes, of_le}
use plib.Memory.Block.{malloc, load, store}

-- The values of enum Type.
abbrev pub unknown : ℕ
unknown = 0

abbrev pub request_vote_request : ℕ
request_vote_request = 1

abbrev pub request_vote_response : ℕ
request_vote_response = 2

abbrev pub append_entries_request : ℕ
append_entries_request = 3

abbrev pub append_entries_response : ℕ
append_entries_response = 4

abbrev pub client_request : ℕ
client_request = 5

-- `body` holds the bytes from the pointer to the end of its block.
pub record DataPacket : Type 0 where
  pub msgtype : ℕ
  pub length : ℕ
  pub body : List ℕ

pub record MessagePacket : Type 0 where
  pub length : ℕ
  pub body : List ℕ

-- What compressDataPacket leaves: the message, and the data packet with its body freed.
pub record Compressed : Type 0 where
  pub message : MessagePacket
  pub packet : DataPacket

pub compress_data_packet : (ℕ → ℕ) → DataPacket → Run Compressed
compress_data_packet junk packet = do
  let total = u64 (1 + 8 + packet.length)
  typed ← store (malloc junk total) 0 (le_bytes 1 packet.msgtype)
  sized ← store typed 1 (le_bytes 8 packet.length)
  content ← load packet.body 0 packet.length
  filled ← store sized (1 + 8) content
  ok (record {
    message = record { length = total; body = filled };
    packet = record packet { body = [] };
  })

-- The size of the body comes from the message's length, not from the length field.
pub de_compress_data_packet : (ℕ → ℕ) → MessagePacket → Run DataPacket
de_compress_data_packet junk message = do
  msgtype ← load message.body 0 1
  len ← load message.body 1 8
  let body_size = sub64 (sub64 message.length 1) 8
  content ← load message.body (1 + 8) body_size
  body ← store (malloc junk body_size) 0 content
  ok (record { msgtype = of_le msgtype; length = of_le len; body = body })
