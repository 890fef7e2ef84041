-- ===== src/Vote/Wire.antt =====
-- The round trips of votes through data packets and messages, and what short bodies do.
use plib.Base.{
  Ends, Ends->>=, ℕ, ◌+◌, ◌^◌, ◌≤◌, ◌<◌, ◌≡◌, refl, ap, List, [], take, drop, length-take, ◌-◌,
  ◌++◌, ◌>>=◌, ok, undefined, length, arith,
}
use plib.Memory.Little.{of_le-le_bytes}
use plib.Memory.Block.{load, load-Ends, load_outside, load_part}
use plib.Packet.{DataPacket, MessagePacket, compress_data_packet, de_compress_data_packet}
use plib.Packet.Wire.{wire, compress-wire, de_compress-wire, de_compress_lem}
use plib.Vote.{
  ReqeustVoteReq, ReqeustVoteResp, req_image, req_of_image, resp_image, resp_of_image,
  compress_vote_req, decompress_vote_req, compress_vote_resp, decompress_vote_resp,
}

-- The fields fit their widths.
pub record IsVoteReq (r : ReqeustVoteReq) : Type 0 where
  pub term_fits : r.term < 2 ^ 64
  pub id_fits : r.candidate_id < 2 ^ 16
  pub index_fits : r.last_log_index < 2 ^ 64
  pub log_term_fits : r.last_log_term < 2 ^ 64
  pub time_fits : r.time_in_nano < 2 ^ 64

pub record IsVoteResp (r : ReqeustVoteResp) : Type 0 where
  pub term_fits : r.term < 2 ^ 64
  pub id_fits : r.candidate_id < 2 ^ 16
  pub grated_fits : r.vote_grated < 2 ^ 8
  pub request_fits : r.request_term < 2 ^ 64
  pub time_fits : r.time_in_nano < 2 ^ 64

pub req_of_image-req_image : (r : ReqeustVoteReq) → IsVoteReq r → req_of_image (req_image r) ≡ r
req_of_image-req_image r h = rw (
  of_le-le_bytes 8 r.term h.term_fits,
  of_le-le_bytes 2 r.candidate_id h.id_fits,
  of_le-le_bytes 8 r.last_log_index h.index_fits,
  of_le-le_bytes 8 r.last_log_term h.log_term_fits,
  of_le-le_bytes 8 r.time_in_nano h.time_fits,
)

pub resp_of_image-resp_image :
    (r : ReqeustVoteResp) → IsVoteResp r → resp_of_image (resp_image r) ≡ r
resp_of_image-resp_image r h = rw (
  of_le-le_bytes 8 r.term h.term_fits,
  of_le-le_bytes 2 r.candidate_id h.id_fits,
  of_le-le_bytes 1 r.vote_grated h.grated_fits,
  of_le-le_bytes 8 r.request_term h.request_fits,
  of_le-le_bytes 8 r.time_in_nano h.time_fits,
)

-- The packet that a compress function makes.
pub compress_vote_req_lem :
    (junk : ℕ → ℕ) (r : ReqeustVoteReq) (p : DataPacket)
    → compress_vote_req junk r p ≡ ok (record p { length = 34; body = req_image r })
unfolding compress_vote_req
compress_vote_req_lem junk r p = refl

pub compress_vote_resp_lem :
    (junk : ℕ → ℕ) (r : ReqeustVoteResp) (p : DataPacket)
    → compress_vote_resp junk r p ≡ ok (record p { length = 27; body = resp_image r })
unfolding compress_vote_resp
compress_vote_resp_lem junk r p = refl

abbrev pub req_wire : ReqeustVoteReq → List ℕ
req_wire r = wire (record { msgtype = 1; length = 34; body = req_image r })

abbrev pub resp_wire : ReqeustVoteResp → List ℕ
resp_wire r = wire (record { msgtype = 2; length = 27; body = resp_image r })

-- A response is compressed, and then framed, to the 36 bytes of its type, its length and its
-- fields, whatever malloc leaves in the blocks.
pub compress_resp-wire :
    (junk junk' : ℕ → ℕ) (r : ReqeustVoteResp) (body : List ℕ) (len : ℕ)
    → (compress_vote_resp junk r (record { msgtype = 2; length = len; body = body }) >>= λ p.
        compress_data_packet junk' p)
      ≡ ok (record {
        message = record { length = 36; body = resp_wire r };
        packet = record { msgtype = 2; length = 27; body = [] };
      })
compress_resp-wire junk junk' r body len = rw (
  compress_vote_resp_lem junk r (record { msgtype = 2; length = len; body = body }),
  compress-wire junk' (record { msgtype = 2; length = 27; body = resp_image r }) (omega arith),
)

-- A request whose fields fit their widths, at the start of a message of 64-bit size, is decoded
-- from it whatever follows in the message and after it.
pub decompress-req_wire :
    (junk : ℕ → ℕ) (r : ReqeustVoteReq) (more rest : List ℕ) (total : ℕ)
    → IsVoteReq r
    → total ≡ 43 + length more
    → total < 2 ^ 64
    → (de_compress_data_packet junk (record { length = total; body = req_wire r ++ (more ++ rest) })
        >>= decompress_vote_req)
      ≡ ok r
unfolding decompress_vote_req
decompress-req_wire junk r more rest total h e fits =
    rw
      (
        de_compress-wire junk 1 34 total (req_image r ++ more) rest (omega arith) (omega arith) fits
            (omega arith),
        load_part [] (req_image r) more 0 34 refl refl,
      )
      (ap ok (req_of_image-req_image r h))

-- A response whose fields fit their widths, at the start of a message of 64-bit size, is decoded
-- from it whatever follows in the message and after it.
pub decompress-resp_wire :
    (junk : ℕ → ℕ) (r : ReqeustVoteResp) (more rest : List ℕ) (total : ℕ)
    → IsVoteResp r
    → total ≡ 36 + length more
    → total < 2 ^ 64
    → (de_compress_data_packet junk
          (record { length = total; body = resp_wire r ++ (more ++ rest) })
        >>= decompress_vote_resp)
      ≡ ok r
unfolding decompress_vote_resp
decompress-resp_wire junk r more rest total h e fits =
    rw
      (
        de_compress-wire junk 2 27 total (resp_image r ++ more) rest (omega arith) (omega arith)
            fits (omega arith),
        load_part [] (resp_image r) more 0 27 refl refl,
      )
      (ap ok (resp_of_image-resp_image r h))

-- The same of a packet.
pub decompress_vote_resp_lem :
    (r : ReqeustVoteResp) (more : List ℕ) (len : ℕ)
    → IsVoteResp r
    → decompress_vote_resp (record { msgtype = 2; length = len; body = resp_image r ++ more })
      ≡ ok r
unfolding decompress_vote_resp
decompress_vote_resp_lem r more len valid =
    rw (load_part [] (resp_image r) more 0 27 refl refl) (ap ok (resp_of_image-resp_image r valid))

-- A message with a header but a body too short for a request makes decompression read outside
-- the body's block.
pub decompress_req_short :
    (junk : ℕ → ℕ) (m : MessagePacket)
    → 9 ≤ m.length
    → m.length < 43
    → m.length ≤ length m.body
    → (de_compress_data_packet junk m >>= decompress_vote_req) ≡ undefined
unfolding decompress_vote_req
decompress_req_short junk m long short there =
    let content = take (m.length - 9) (drop 9 m.body) in
    rw (
      de_compress_lem junk m long (omega arith) there,
      load_outside content 0 34 (omega (arith, length-take (m.length - 9) (drop 9 m.body))),
    )

pub decompress_vote_req-Ends : (p : DataPacket) → Ends (decompress_vote_req p)
unfolding decompress_vote_req
decompress_vote_req-Ends p = Ends->>= (load p.body 0 34) _ (load-Ends p.body 0 34) (λ image e. tt)

pub decompress_vote_resp-Ends : (p : DataPacket) → Ends (decompress_vote_resp p)
unfolding decompress_vote_resp
decompress_vote_resp-Ends p = Ends->>= (load p.body 0 27) _ (load-Ends p.body 0 27) (λ image e. tt)
