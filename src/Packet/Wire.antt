-- ===== src/Packet/Wire.antt =====
-- The bytes of a message packet, and the round trip through them.
use plib.Base.{
  Ends, Ends->>=, ℕ, ◌+◌, ◌-◌, ◌^◌, ◌≤◌, ◌<◌, ◌≡◌, refl, List, [], ◌++◌, ◌>>=◌, ok, undefined,
  length, take, drop, arith, u64, sub64, drop_all, append-nil, length-drop, length-take,
}
use plib.Memory.Little.{le_bytes, of_le, of_le-le_bytes}
use plib.Memory.Block.{
  store, load, store-Ends, load-Ends, malloc, length-fresh, store_next, store_third, load_start,
  load_inside, load_part,
}
use plib.Packet.{DataPacket, MessagePacket, compress_data_packet, de_compress_data_packet}

-- A packet whose fields fit their widths, whose body is there, and whose message has a length
-- that fits 64 bits.
pub record IsPacket (p : DataPacket) : Type 0 where
  pub msgtype_fits : p.msgtype < 2 ^ 8
  pub total_fits : 1 + 8 + p.length < 2 ^ 64
  pub body_there : p.length ≤ length p.body

abbrev pub wire : DataPacket → List ℕ
wire p = le_bytes 1 p.msgtype ++ (le_bytes 8 p.length ++ take p.length p.body)

pub compress-wire :
    (junk : ℕ → ℕ) (p : DataPacket)
    → IsPacket p
    → compress_data_packet junk p
      ≡ ok (record {
        message = record { length = 9 + p.length; body = wire p };
        packet = record p { body = [] };
      })
unfolding compress_data_packet
compress-wire junk p h =
    let total : u64 (1 + 8 + p.length) ≡ 9 + p.length = omega (arith, h.total_fits) in
    let block = malloc junk (9 + p.length) in
    let size : length block ≡ 9 + p.length = length-fresh junk (9 + p.length) 0 in
    let rest1 = length-drop 1 block in
    let rest2 = length-drop 8 (drop 1 block) in
    let content = take p.length p.body in
    let content_size : length content ≡ p.length =
      omega (arith, length-take p.length p.body, h.body_there) in
    rw (
      total,
      store_next [] block (le_bytes 1 p.msgtype) 0 refl (omega (arith, size)),
      store_next (le_bytes 1 p.msgtype) (drop 1 block) (le_bytes 8 p.length) 1 refl
          (omega (arith, size, rest1)),
      load_start p.body p.length h.body_there,
      store_third (le_bytes 1 p.msgtype) (le_bytes 8 p.length) (drop 8 (drop 1 block)) content 9
          refl (omega (arith, size, rest1, rest2, content_size)),
      drop_all (length content) (drop 8 (drop 1 block))
          (omega (arith, size, rest1, rest2, content_size)),
      append-nil content,
    )

-- Decoding a message reads the type and the length field, and takes for the body all that
-- follows the header.
pub de_compress-wire :
    (junk : ℕ → ℕ) (msgtype len total : ℕ) (content rest : List ℕ)
    → msgtype < 2 ^ 8
    → len < 2 ^ 64
    → total < 2 ^ 64
    → total ≡ 9 + length content
    → de_compress_data_packet junk (record {
      length = total;
      body = le_bytes 1 msgtype ++ (le_bytes 8 len ++ (content ++ rest));
    })
      ≡ ok (record { msgtype = msgtype; length = len; body = content })
unfolding de_compress_data_packet
de_compress-wire junk msgtype len total content rest hm hl ht e =
    let size : sub64 (sub64 total 1) 8 ≡ length content = omega arith in
    let block = malloc junk (length content) in
    let block_size : length block ≡ length content = length-fresh junk (length content) 0 in
    rw (
      load_part [] (le_bytes 1 msgtype) (le_bytes 8 len ++ (content ++ rest)) 0 1 refl refl,
      load_part (le_bytes 1 msgtype) (le_bytes 8 len) (content ++ rest) 1 8 refl refl,
      size,
      load_part (le_bytes 1 msgtype ++ le_bytes 8 len) content rest 9 (length content) refl refl,
      store_next [] block content 0 refl (omega (arith, block_size)),
      drop_all (length content) block (omega (arith, block_size)),
      append-nil content,
      of_le-le_bytes 1 msgtype hm,
      of_le-le_bytes 8 len hl,
    )

-- In general the body is the rest of the message, of whatever length, and the length field is
-- not compared with it.
pub de_compress_lem :
    (junk : ℕ → ℕ) (m : MessagePacket)
    → 9 ≤ m.length
    → m.length < 2 ^ 64
    → m.length ≤ length m.body
    → de_compress_data_packet junk m
      ≡ ok (record {
        msgtype = of_le (take 1 m.body);
        length = of_le (take 8 (drop 1 m.body));
        body = take (m.length - 9) (drop 9 m.body);
      })
unfolding de_compress_data_packet
de_compress_lem junk m long fits there =
    let size : sub64 (sub64 m.length 1) 8 ≡ m.length - 9 = omega arith in
    let block = malloc junk (m.length - 9) in
    let block_size : length block ≡ m.length - 9 = length-fresh junk (m.length - 9) 0 in
    let content = take (m.length - 9) (drop 9 m.body) in
    let content_size : length content ≡ m.length - 9 =
      omega (arith, length-take (m.length - 9) (drop 9 m.body), length-drop 9 m.body) in
    rw (
      load_inside m.body 0 1 (omega arith),
      load_inside m.body 1 8 (omega arith),
      size,
      load_inside m.body 9 (m.length - 9) (omega arith),
      store_next [] block content 0 refl (omega (arith, block_size, content_size)),
      drop_all (length content) block (omega (arith, block_size, content_size)),
      append-nil content,
    )

-- A packet whose type is a byte, whose body has the bytes of its length and whose message is of
-- 64-bit size comes back from compression and decompression with its type, its length and the
-- first `length` bytes of its body, whatever malloc leaves in the blocks.
pub compress-de_compress :
    (junk junk' : ℕ → ℕ) (p : DataPacket)
    → IsPacket p
    → (compress_data_packet junk p >>= λ c. de_compress_data_packet junk' c.message)
      ≡ ok (record p { body = take p.length p.body })
compress-de_compress junk junk' p h =
    let content = take p.length p.body in
    let size : length content ≡ p.length =
      omega (arith, length-take p.length p.body, h.body_there) in
    let decoded =
      de_compress-wire junk' p.msgtype p.length (9 + p.length) content [] h.msgtype_fits
        (omega (arith, h.total_fits)) h.total_fits (omega (arith, size)) in
    rw (compress-wire junk p h) (rw (append-nil content) at decoded)

-- A message shorter than its header makes the size of the body wrap below zero, and the copy
-- read outside the message.
pub de_compress_short :
    (junk : ℕ → ℕ) (m : MessagePacket)
    → m.length < 9
    → length m.body < 2 ^ 63
    → de_compress_data_packet junk m ≡ undefined
unfolding de_compress_data_packet
de_compress_short junk m h body_small = ground arith

pub de_compress-Ends : (junk : ℕ → ℕ) (m : MessagePacket) → Ends (de_compress_data_packet junk m)
unfolding de_compress_data_packet
de_compress-Ends junk m = Ends->>= (load m.body 0 1) _ (load-Ends m.body 0 1) λ msgtype e.
    Ends->>= (load m.body 1 8) _ (load-Ends m.body 1 8) λ len e1.
      Ends->>= (load m.body 9 _) _ (load-Ends m.body 9 _)
        λ content e2. Ends->>= (store _ 0 content) _ (store-Ends _ 0 content) (λ body e3. tt)
