-- ===== src/ElectionLogic.antt =====
-- ElectionLogic: the lookup of a log entry's term, and the handlers, whose bodies are empty.
pub mod Term
use plib.Base.{ℕ, Run, ok, undefined, ◌==◌, if◌then◌else◌, get_elem?, sub64, Option, none, some}
use plib.StateLocalData.{PersistState, VolatileState, Entry}
use plib.Vote.{ReqeustVoteReq, ReqeustVoteResp}

-- The index of the node's own configuration stands for the pointer local_config.
pub record ElectionLogic : Type 0 where
  pub local_config : ℕ
  pub persist_state : PersistState

-- The constructor.
unfoldable pub make : ℕ → PersistState → ElectionLogic
make local_config persist_state = record {
  local_config = local_config;
  persist_state = persist_state;
}

term_of : Option Entry → Run ℕ
term_of none = undefined
term_of (some e) = ok e.term

-- operator[] of a vector does not check its index.
unfoldable pub get_term : ElectionLogic → ℕ → Run ℕ
unfolding term_of
get_term l index =
    if index == 0
    then ok 0
    else term_of
        (get_elem? l.persist_state.logs.log_vector (sub64 index l.persist_state.logs.first_index))

-- The response is passed by reference and left as it was.
unfoldable pub handle_request_vote_request :
    ElectionLogic → ReqeustVoteReq → ReqeustVoteResp → ReqeustVoteResp
handle_request_vote_request l req resp = resp

unfoldable pub handle_request_vote_response : ElectionLogic → ReqeustVoteResp → ElectionLogic
handle_request_vote_response l resp = l

unfoldable pub request_vote : ElectionLogic → ElectionLogic
request_vote l = l

unfoldable pub become_leader : ElectionLogic → ElectionLogic
become_leader l = l

unfoldable pub election_time_out : ElectionLogic → ElectionLogic
election_time_out l = l

unfoldable pub leadership_timeout : ElectionLogic → ElectionLogic
leadership_timeout l = l
