-- ===== src/Tests/Wires.antt =====
-- Packets and votes.
use plib.Base.{ℕ, ◌≡◌, [], ◌∷◌, ok, ◌>>=◌, arith}
use plib.Packet.{DataPacket, compress_data_packet, de_compress_data_packet}
use plib.Packet.Wire.{IsPacket, compress-de_compress}

abbrev zeros : ℕ → ℕ
zeros i = 0

abbrev sample_packet : DataPacket
sample_packet = record { msgtype = 5; length = 3; body = 1 ∷ 2 ∷ 3 ∷ 4 ∷ [] }

sample_packet-IsPacket : IsPacket sample_packet
sample_packet-IsPacket = record {
  msgtype_fits = omega arith;
  total_fits = omega arith;
  body_there = omega arith;
}

compress-de_compress_example :
    (compress_data_packet zeros sample_packet >>= λ c. de_compress_data_packet zeros c.message)
    ≡ ok (record { msgtype = 5; length = 3; body = 1 ∷ 2 ∷ 3 ∷ [] })
compress-de_compress_example = compress-de_compress zeros zeros sample_packet sample_packet-IsPacket
