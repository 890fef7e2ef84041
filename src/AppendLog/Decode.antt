-- ===== src/AppendLog/Decode.antt =====
-- What decompression makes of an append request and of a response.
use plib.Base.{
  ℕ, ◌≤◌, ◌<◌, ◌^◌, ◌≡◌, refl, [], ◌++◌, ok, undefined, ◌>>=◌, length, take, drop, arith,
  length-take, length-drop,
}
use plib.Memory.Little.{of_le-le_bytes}
use plib.Memory.Block.{malloc, store, store_outside, store_next, load_inside, length-store}
use plib.Packet.{DataPacket}
use plib.AppendLog.{
  AppendLogResp, decompress_append_log_req, sizeof_log_entries, compress_append_log_resp,
  decompress_append_log_resp,
}

-- A packet with bytes for the fields and the two counts is not decompressed, whatever is in it:
-- mem_size is always stored outside the block of the entries.
pub decompress_undefined :
    (junk : ℕ → ℕ) (p : DataPacket)
    → 38 ≤ length p.body
    → decompress_append_log_req junk p ≡ undefined
unfolding decompress_append_log_req
decompress_undefined junk p there =
    let count = take 2 (drop 34 p.body) in
    let mem_size = take 2 (drop 36 p.body) in
    let count_size : length count ≡ 2 =
      omega (arith, length-take 2 (drop 34 p.body), length-drop 34 p.body) in
    let block = malloc junk sizeof_log_entries in
    let counted = count ++ drop (length count) block in
    let stored : store block 0 count ≡ ok counted =
      store_next [] block count 0 refl (omega (arith, count_size)) in
    let outside : store counted 24 mem_size ≡ undefined =
      store_outside counted 24 mem_size (omega (arith, length-store block 0 count stored)) in
    rw (load_inside p.body 0 34 (omega arith)) (
      rw (load_inside p.body 34 2 (omega arith))
        (rw stored (rw (load_inside p.body 36 2 (omega arith)) (rw outside refl))))

-- A response is read back from its packet, where its term and its flag fit their widths.
pub decompress-compress_append_log_resp :
    (junk : ℕ → ℕ) (r : AppendLogResp) (p : DataPacket)
    → r.term < 2 ^ 64
    → r.success < 2 ^ 8
    → (compress_append_log_resp junk r p >>= decompress_append_log_resp) ≡ ok r
unfolding compress_append_log_resp decompress_append_log_resp
decompress-compress_append_log_resp junk r p term_fits flag_fits =
    rw (of_le-le_bytes 8 r.term term_fits, of_le-le_bytes 1 r.success flag_fits) refl
