-- ===== src/Vote.antt =====
-- RequestVoteCommand.h: the vote request and response, packed structs that are copied byte by
-- byte into the body of a data packet.
pub mod Wire
pub mod Decoded
use plib.Base.{ℕ, List, ◌++◌, ◌>>=◌, Run, ok, take, drop}
use plib.Memory.Little.{le_bytes, of_le}
use plib.Memory.Block.{malloc, load, store}
use plib.Packet.{DataPacket}

pub record ReqeustVoteReq : Type 0 where
  pub term : ℕ
  pub candidate_id : ℕ
  pub last_log_index : ℕ
  pub last_log_term : ℕ
  pub time_in_nano : ℕ

-- `vote_grated` is the byte of the bool: 0 or 1 where the struct holds a value.
pub record ReqeustVoteResp : Type 0 where
  pub term : ℕ
  pub candidate_id : ℕ
  pub vote_grated : ℕ
  pub request_term : ℕ
  pub time_in_nano : ℕ

abbrev pub sizeof_vote_req : ℕ
sizeof_vote_req = 34

abbrev pub sizeof_vote_resp : ℕ
sizeof_vote_resp = 27

-- The bytes of a packed struct, and the struct that bytes stand for.
abbrev pub req_image : ReqeustVoteReq → List ℕ
req_image r =
    le_bytes 8 r.term
    ++ (le_bytes 2 r.candidate_id
        ++ (le_bytes 8 r.last_log_index
            ++ (le_bytes 8 r.last_log_term ++ le_bytes 8 r.time_in_nano)))

abbrev pub req_of_image : List ℕ → ReqeustVoteReq
req_of_image bytes = record {
  term = of_le (take 8 bytes);
  candidate_id = of_le (take 2 (drop 8 bytes));
  last_log_index = of_le (take 8 (drop 10 bytes));
  last_log_term = of_le (take 8 (drop 18 bytes));
  time_in_nano = of_le (take 8 (drop 26 bytes));
}

abbrev pub resp_image : ReqeustVoteResp → List ℕ
resp_image r =
    le_bytes 8 r.term
    ++ (le_bytes 2 r.candidate_id
        ++ (le_bytes 1 r.vote_grated ++ (le_bytes 8 r.request_term ++ le_bytes 8 r.time_in_nano)))

abbrev pub resp_of_image : List ℕ → ReqeustVoteResp
resp_of_image bytes = record {
  term = of_le (take 8 bytes);
  candidate_id = of_le (take 2 (drop 8 bytes));
  vote_grated = of_le (take 1 (drop 10 bytes));
  request_term = of_le (take 8 (drop 11 bytes));
  time_in_nano = of_le (take 8 (drop 19 bytes));
}

-- Each compress function sets the length and the body and leaves the message type.
pub compress_vote_req : (ℕ → ℕ) → ReqeustVoteReq → DataPacket → Run DataPacket
compress_vote_req junk r packet = do
  body ← store (malloc junk sizeof_vote_req) 0 (req_image r)
  ok (record packet { length = sizeof_vote_req; body = body })

pub decompress_vote_req : DataPacket → Run ReqeustVoteReq
decompress_vote_req packet = do image ← load packet.body 0 sizeof_vote_req; ok (req_of_image image)

pub compress_vote_resp : (ℕ → ℕ) → ReqeustVoteResp → DataPacket → Run DataPacket
compress_vote_resp junk r packet = do
  body ← store (malloc junk sizeof_vote_resp) 0 (resp_image r)
  ok (record packet { length = sizeof_vote_resp; body = body })

pub decompress_vote_resp : DataPacket → Run ReqeustVoteResp
decompress_vote_resp packet = do
  image ← load packet.body 0 sizeof_vote_resp
  ok (resp_of_image image)
