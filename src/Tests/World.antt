-- ===== src/Tests/World.antt =====
-- A kernel with the answers of a short script, and a server on it.
use plib.Base.{ℕ, ◌+◌, List, [], ◌∷◌, true, false, length, replicate, arith}
use plib.System.{Os, Log, Ret, done, failed, EpollEvent, read}
use plib.StateLocalData.{Role}
use plib.ElectionLogic.{ElectionLogic}
use plib.Vote.{ReqeustVoteReq, ReqeustVoteResp}
use plib.Vote.Wire.{IsVoteReq, IsVoteResp}
use plib.EpollServer.State.{Server, no_events, buf_size}
use plib.EpollServer.Accept.{accept_events}

abbrev pub sample_request : ReqeustVoteReq
sample_request = record {
  term = 3;
  candidate_id = 2;
  last_log_index = 17;
  last_log_term = 2;
  time_in_nano = 1_000_000_007;
}

pub sample_request-IsVoteReq : IsVoteReq sample_request
sample_request-IsVoteReq = record {
  term_fits = omega arith;
  id_fits = omega arith;
  index_fits = omega arith;
  log_term_fits = omega arith;
  time_fits = omega arith;
}

abbrev pub sample_response : ReqeustVoteResp
sample_response = record {
  term = 3;
  candidate_id = 2;
  vote_grated = 1;
  request_term = 3;
  time_in_nano = 1_000_000_009;
}

pub sample_response-IsVoteResp : IsVoteResp sample_response
sample_response-IsVoteResp = record {
  term_fits = omega arith;
  id_fits = omega arith;
  grated_fits = omega arith;
  request_fits = omega arith;
  time_fits = omega arith;
}

abbrev pub refused_response : ReqeustVoteResp
refused_response = record sample_response { vote_grated = 0 }

-- The answers of reads, in their order, and then EAGAIN.
abbrev answer : List (List ℕ) → Log → Ret (List ℕ)
answer [] log = failed 11
answer (c ∷ cs) [] = done c
answer (c ∷ cs) (read fd n ∷ log) = answer cs log
answer (c ∷ cs) (_ ∷ log) = answer (c ∷ cs) log

abbrev pub scripted : List (List ℕ) → Os
scripted chunks = record {
  socket = λ log kind. done (3 + length log);
  fcntl_getfd = λ log fd. 1;
  fcntl_setfl = λ log fd flags. true;
  bind = λ log fd. true;
  listen = λ log fd. true;
  connect = λ log fd. true;
  epoll_create = λ log. 5;
  epoll_ctl = λ log op fd event. true;
  epoll_wait = λ log. done [];
  accept = λ log. failed 11;
  read = λ log fd n. answer chunks log;
  write = λ log fd bytes. done (length bytes);
  recvfrom = λ log fd n. failed 11;
  sendto = λ log fd bytes. done (length log);
  select = λ log fds n. done (7 ∷ []);
  mutex_init = λ log. true;
  setsockopt = λ log fd. true;
  errno = λ log. 22;
  gethostbyaddr = λ log before. before;
  gethostbyname = λ log. true;
  setrlimit = λ log limit. true;
  junk = λ log i. 0;
  close_requested = λ log. false;
}

abbrev pub sample_election : ElectionLogic
sample_election = record {
  local_config = 0;
  persist_state = record {
    current_term = 0;
    vote_for = 0;
    logs = record {
      log_vector = record { term = 1 } ∷ record { term = 2 } ∷ record { term = 2 } ∷ [];
      first_index = 4;
      last_index = 6;
    };
    node_role = Role.candidate;
    election_time_nano = 0;
    leader_id = 0;
    commit_index = 0;
    last_applied_index = 0;
  };
}

abbrev pub empty_buffer : List ℕ
empty_buffer = replicate buf_size 0

-- Descriptor 7 is a peer with two responses queued.
abbrev pub sample_server : Server
sample_server = record {
  listenfd = 3;
  udpfd = 4;
  epfd = 5;
  tcp_listen_event = record { events = accept_events; fd = 3 };
  udp_receive_event = record { events = accept_events; fd = 4 };
  election_logic = sample_election;
  recvbuffer = empty_buffer;
  tcp_clients = record { connfd = 9; node = 1 } ∷ [];
  clientmap = (9, 0) ∷ [];
  resp_message_map =
      (7, record { queue = sample_response ∷ refused_response ∷ [] })
      ∷ (9, record { queue = [] })
      ∷ [];
  keep_running = true;
  log = [];
}

-- Input and output are possible on descriptor 7.
abbrev pub sample_event : EpollEvent
sample_event = record { events = record no_events { epollin = true; epollout = true }; fd = 7 }
