-- ===== src/StateLocalData.antt =====
-- StateLocalData.h and SegmentLog.h: the state of a node of the cluster, and its log store.
-- Only the log store's vector and indices are modelled; nothing in the program uses its map.
use Prim.Native.String.{String}
use plib.Base.{ℕ, List, [], Bool}

pub data Role : Type 0 where
  unknow candidate leader follower : Role

-- An entry of the log, without the pointer to its content.
pub record Entry : Type 0 where
  pub term : ℕ

pub record SegmentLog : Type 0 where
  pub log_vector : List Entry
  pub first_index : ℕ
  pub last_index : ℕ

unfoldable pub segment_log : SegmentLog
segment_log = record { log_vector = []; first_index = 0; last_index = 0 }

pub record PersistState : Type 0 where
  pub current_term : ℕ
  pub vote_for : ℕ
  pub logs : SegmentLog
  pub node_role : Role
  pub election_time_nano : ℕ
  pub leader_id : ℕ
  pub commit_index : ℕ
  pub last_applied_index : ℕ

unfoldable pub persist_state : SegmentLog → PersistState
persist_state logs = record {
  current_term = 0;
  vote_for = 0;
  logs = logs;
  node_role = Role.candidate;
  election_time_nano = 0;
  leader_id = 0;
  commit_index = 0;
  last_applied_index = 0;
}

pub record VolatileState : Type 0 where
  pub nodeid : ℕ
  pub serv_inet_addr : String
  pub serv_port : ℕ
  pub responsed_vote : Bool
  pub granted_vote : Bool
  pub match_index : ℕ
  pub next_index : ℕ
  pub last_request_time_nano : ℕ
  pub next_request_time_nano : ℕ
  pub last_response_time_nano : ℕ
