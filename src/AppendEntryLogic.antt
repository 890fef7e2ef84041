-- ===== src/AppendEntryLogic.antt =====
-- AppendEntryLogic.h and AppendEntryLogic.cpp: the members and the constructor; the methods are
-- declared and have no bodies. And InstallSnapshot.h: its two packed structs.
use plib.Base.{ℕ, Bool}
use plib.StateLocalData.{PersistState}

-- The index of the node's own configuration stands for the pointer local_config, and the members
-- that point to the other nodes are left out, as nothing reads them.
pub record AppendEntryLogic : Type 0 where
  pub max_entry_bytes : ℕ
  pub max_entry_batch : ℕ
  pub local_config : ℕ
  pub persist_state : PersistState

unfoldable pub make : ℕ → PersistState → AppendEntryLogic
make local_config persist_state = record {
  max_entry_bytes = 4_000_000;
  max_entry_batch = 2000;
  local_config = local_config;
  persist_state = persist_state;
}

pub record InstallSnapshotReq : Type 0 where
  pub term : ℕ
  pub candidate_id : ℕ
  pub last_log_index : ℕ
  pub last_log_term : ℕ

pub record InstallSnapshotResp : Type 0 where
  pub term : ℕ
  pub candidate_id : ℕ
  pub vote_grated : Bool
