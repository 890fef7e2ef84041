-- ===== src/Vote/Decoded.antt =====
-- What any bytes are decoded to.
use plib.Base.{
  ℕ, ◌+◌, ◌^◌, ◌≤◌, ◌<◌, ◌≡◌, refl, ap, ap₂, sym, ◌∙◌, subst, List, ◌++◌, ok, length, take, drop,
  arith, length-take, length-drop, All-append, All-take, All-drop, take-drop, drop-drop, take_all,
}
use plib.Memory.Little.{le_bytes, of_le, IsBytes, of_le-lt, le_bytes-of_le, le_bytes-IsBytes}
use plib.Memory.Block.{load_start}
use plib.Packet.{DataPacket}
use plib.Packet.Wire.{wire}
use plib.Vote.{
  ReqeustVoteReq, ReqeustVoteResp, req_image, req_of_image, resp_image, resp_of_image,
  compress_vote_req, decompress_vote_req, compress_vote_resp, decompress_vote_resp,
}
use plib.Vote.Wire.{IsVoteReq, IsVoteResp, resp_wire, compress_vote_req_lem, compress_vote_resp_lem}

-- The field of w bytes at an offset.
field : ℕ → ℕ → List ℕ → List ℕ
field w at image = take w (drop at image)

module _ (image : List ℕ) (bytes : IsBytes image) where
  length-field : (w at : ℕ) → at + w ≤ length image → length (field w at image) ≡ w
  unfolding field
  length-field w at fits = omega (arith, length-take w (drop at image), length-drop at image)

  field-IsBytes : (w at : ℕ) → IsBytes (field w at image)
  unfolding field
  field-IsBytes w at = All-take _ w (drop at image) (All-drop _ at image bytes)

  -- The value of a field fits its width, and has the field's bytes.
  field_fits : (w at : ℕ) → at + w ≤ length image → of_le (field w at image) < 256 ^ w
  field_fits w at fits =
      subst (λ n. of_le (field w at image) < 256 ^ n) (length-field w at fits)
        (of_le-lt (field w at image) (field-IsBytes w at))

  field_back :
      (w at : ℕ) → at + w ≤ length image → le_bytes w (of_le (field w at image)) ≡ field w at image
  field_back w at fits =
      subst (λ n. le_bytes n (of_le (field w at image)) ≡ field w at image) (length-field w at fits)
        (le_bytes-of_le (field w at image) (field-IsBytes w at))

  -- The bytes of a field, followed by those of the rest of the image.
  field_then :
      (w at next : ℕ) (rest : List ℕ)
      → next ≡ at + w
      → next ≤ length image
      → rest ≡ drop next image
      → le_bytes w (of_le (field w at image)) ++ rest ≡ drop at image
  unfolding field
  field_then w at next rest e fits same =
      ap₂ ◌++◌ (field_back w at (omega (arith, e))) (same ∙ sym (drop-drop at w next image e))
      ∙ take-drop w (drop at image)

  -- The last field.
  field_last :
      (w at : ℕ) → at + w ≡ length image → le_bytes w (of_le (field w at image)) ≡ drop at image
  unfolding field
  field_last w at e =
      field_back w at (omega (arith, e))
      ∙ take_all w (drop at image) (omega (arith, length-drop at image, e))

  req_image-req_of_image : length image ≡ 34 → req_image (req_of_image image) ≡ image
  unfolding field
  req_image-req_of_image size = field_then 8 0 8 _ refl (omega (arith, size)) (
      field_then 2 8 10 _ refl (omega (arith, size)) (
        field_then 8 10 18 _ refl (omega (arith, size)) (
          field_then 8 18 26 _ refl (omega (arith, size)) (field_last 8 26 (omega (arith, size))))))

  resp_image-resp_of_image : length image ≡ 27 → resp_image (resp_of_image image) ≡ image
  unfolding field
  resp_image-resp_of_image size = field_then 8 0 8 _ refl (omega (arith, size)) (
      field_then 2 8 10 _ refl (omega (arith, size)) (
        field_then 1 10 11 _ refl (omega (arith, size)) (
          field_then 8 11 19 _ refl (omega (arith, size)) (field_last 8 19 (omega (arith, size))))))

  req_of_image-IsVoteReq : length image ≡ 34 → IsVoteReq (req_of_image image)
  unfolding field
  req_of_image-IsVoteReq size = record {
    term_fits = field_fits 8 0 (omega (arith, size));
    id_fits = field_fits 2 8 (omega (arith, size));
    index_fits = field_fits 8 10 (omega (arith, size));
    log_term_fits = field_fits 8 18 (omega (arith, size));
    time_fits = field_fits 8 26 (omega (arith, size));
  }

  pub resp_of_image-IsVoteResp : length image ≡ 27 → IsVoteResp (resp_of_image image)
  unfolding field
  resp_of_image-IsVoteResp size = record {
    term_fits = field_fits 8 0 (omega (arith, size));
    id_fits = field_fits 2 8 (omega (arith, size));
    grated_fits = field_fits 1 10 (omega (arith, size));
    request_fits = field_fits 8 11 (omega (arith, size));
    time_fits = field_fits 8 19 (omega (arith, size));
  }

-- Any body of at least 34 bytes is decoded to a request whose fields fit their widths, and which is
-- compressed to the first 34 of those bytes again.
pub decompress_vote_req-IsVoteReq :
    (junk : ℕ → ℕ) (p q : DataPacket)
    → IsBytes p.body
    → 34 ≤ length p.body
    → (r : ReqeustVoteReq) × (decompress_vote_req p ≡ ok r)
      × IsVoteReq r
      × (compress_vote_req junk r q ≡ ok (record q { length = 34; body = take 34 p.body }))
unfolding decompress_vote_req
decompress_vote_req-IsVoteReq junk p q bytes long =
    let image = take 34 p.body in
    let size : length image ≡ 34 = omega (arith, length-take 34 p.body, long) in
    let good = All-take _ 34 p.body bytes in
    (
      req_of_image image,
      rw (load_start p.body 34 long) refl,
      req_of_image-IsVoteReq image good size,
      compress_vote_req_lem junk (req_of_image image) q
          ∙ ap (λ b. ok (record q { length = 34; body = b }))
              (req_image-req_of_image image good size),
    )

-- The same for a response and 27 bytes.
pub decompress_vote_resp-IsVoteResp :
    (junk : ℕ → ℕ) (p q : DataPacket)
    → IsBytes p.body
    → 27 ≤ length p.body
    → (r : ReqeustVoteResp) × (decompress_vote_resp p ≡ ok r)
      × IsVoteResp r
      × (compress_vote_resp junk r q ≡ ok (record q { length = 27; body = take 27 p.body }))
unfolding decompress_vote_resp
decompress_vote_resp-IsVoteResp junk p q bytes long =
    let image = take 27 p.body in
    let size : length image ≡ 27 = omega (arith, length-take 27 p.body, long) in
    let good = All-take _ 27 p.body bytes in
    (
      resp_of_image image,
      rw (load_start p.body 27 long) refl,
      resp_of_image-IsVoteResp image good size,
      compress_vote_resp_lem junk (resp_of_image image) q
          ∙ ap (λ b. ok (record q { length = 27; body = b }))
              (resp_image-resp_of_image image good size),
    )

then_IsBytes : (w v : ℕ) (rest : List ℕ) → IsBytes rest → IsBytes (le_bytes w v ++ rest)
then_IsBytes w v rest = All-append (λ b. b < 256) (le_bytes w v) rest (le_bytes-IsBytes w v)

resp_image-IsBytes : (r : ReqeustVoteResp) → IsBytes (resp_image r)
resp_image-IsBytes r =
    let time = le_bytes 8 r.time_in_nano in
    let request = le_bytes 8 r.request_term ++ time in
    let grated = le_bytes 1 r.vote_grated ++ request in
    then_IsBytes 8 r.term (le_bytes 2 r.candidate_id ++ grated) (
      then_IsBytes 2 r.candidate_id grated (
        then_IsBytes 1 r.vote_grated request
          (then_IsBytes 8 r.request_term time (le_bytes-IsBytes 8 r.time_in_nano))))

-- The message of a response is that of one whose fields fit their widths.
pub resp_wire-IsVoteResp :
    (r : ReqeustVoteResp) → (fit : ReqeustVoteResp) × IsVoteResp fit × (resp_wire r ≡ resp_wire fit)
resp_wire-IsVoteResp r =
    let image = resp_image r in
    let bytes = resp_image-IsBytes r in
    (
      resp_of_image image,
      resp_of_image-IsVoteResp image bytes refl,
      ap (λ body. wire (record { msgtype = 2; length = 27; body = body }))
          (sym (resp_image-resp_of_image image bytes refl)),
    )
