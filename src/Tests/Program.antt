-- ===== src/Tests/Program.antt =====
-- The whole program, the select server, and the append requests.
use plib.Base.{
  inr, ◌⊎◌, ◌<◌, ◌+◌, inl, ◌==◌, if◌then◌else◌, ℕ, zero, suc, true, ◌≡◌, refl, List, [], ◌∷◌, ◌++◌,
  false, ok, undefined, Always, length, replicate, arith,
}
use plib.System.{failed, Log, select, read, write, recvfrom, Os, done}
use plib.StateLocalData.{VolatileState}
use plib.ClusterConfig.{load_cluster_config}
use plib.Packet.{DataPacket}
use plib.EpollServer.State.{Server}
use plib.Starter.{start}
use plib.Starter.Peers.{others}
use plib.SelectServer.{
  greeting, max_fd_from, SelectServer, buf_size, service_loop, round, bad_errno,
}
use plib.SelectServer.Readque.{Grown, service_loop-Grown}
use plib.SelectServer.Round.{watched, highest, rejected, accept_failure_ends}
use plib.SelectServer.Echo.{echoes, round_echoed, round_undefined}
use plib.AppendLog.{LogEntry, AppendLogReq, compress_append_log_req, decompress_append_log_req}
use plib.AppendLog.Wire.{IsEntry, entries_wire, head_wire}
use plib.AppendLog.Overflow.{compress_append_log_req_cases}
use plib.AppendLog.Decode.{decompress_undefined}
use plib.UdpClient.{handle}
use plib.UdpClient.Retry.{Tried, handle-Tried}
use plib.Tests.World.{sample_server, scripted}

abbrev memory : ℕ → VolatileState
memory i = record {
  nodeid = 0;
  serv_inet_addr = "";
  serv_port = 0;
  responsed_vote = false;
  granted_vote = false;
  match_index = 0;
  next_index = 0;
  last_request_time_nano = 0;
  next_request_time_nano = 0;
  last_response_time_nano = 0;
}

abbrev zeros : ℕ → ℕ
zeros i = 0

abbrev raw_server : Server
raw_server = record sample_server { tcp_clients = []; clientmap = []; resp_message_map = [] }

-- Node 2 has the clients of the first and the third node of the configuration.
others_of_two : others 2 (load_cluster_config memory) 0 ≡ 0 ∷ 2 ∷ []
unfolding load_cluster_config others
others_of_two = refl

-- errno is EAGAIN, left by an accept.
abbrev select_server : SelectServer
select_server = record {
  listenfd = 3;
  udpfd = 4;
  errno = 11;
  recvbuffer = replicate buf_size 0;
  readque = 7 ∷ 8 ∷ [];
  log = [];
}

abbrev echo : Os
echo = record (scripted []) { read = λ log fd n. done [] }

service_loop-Grown_example :
    Always (λ r. Grown select_server r.1) (service_loop echo 2 select_server)
service_loop-Grown_example = service_loop-Grown echo 2 select_server

-- A connection that is gone before it is accepted.
abbrev gone : Os
gone = record (scripted []) { select = λ log fds maxfdp1. done (3 ∷ []); accept = λ log. failed 11 }

abbrev calm_server : SelectServer
calm_server = record select_server { errno = 0 }

accept_failure_ends_example :
    (round gone calm_server ≡ ok (true, rejected 11 calm_server))
    × (service_loop gone 5 calm_server
        ≡ ok (
          false,
          record (rejected 11 calm_server) {
            log =
                select (watched calm_server) (highest calm_server) ∷ (rejected 11 calm_server).log;
          },
        ))
unfolding bad_errno
accept_failure_ends_example =
    accept_failure_ends gone 3 11 (3 ∷ []) calm_server
      (omega arith, (omega arith, (omega arith, (omega arith, tt)))) (refl, (refl, (refl, tt))) refl
      refl refl (inr (inr (λ h. omega (arith, h)))) refl

abbrev hello : ℕ → List ℕ
hello zero = []
hello (suc n) = b'h' ∷ []

abbrev talking : Os
talking = record (scripted []) {
  select = λ log fds maxfdp1. done (8 ∷ []);
  read = λ log fd n. done (hello n);
}

round_echoed_example :
    (t : SelectServer) × (round talking calm_server ≡ ok (true, t))
    × (t.readque ≡ 7 ∷ 8 ∷ [])
    × (t.log ≡ echoes talking (8 ∷ []) (7 ∷ 8 ∷ []) (select (3 ∷ 4 ∷ 7 ∷ 8 ∷ []) 9 ∷ []))
unfolding bad_errno max_fd_from
round_echoed_example =
    round_echoed talking 8 [] calm_server
      (omega arith, (omega arith, (omega arith, (omega arith, tt)))) refl refl refl refl
      (((b'h' ∷ [], refl, omega arith), (16, refl)), tt)

-- The read of descriptor 7 fails after 8 has been answered.
abbrev failing : Os
failing = record talking {
  select = λ log fds maxfdp1. done (7 ∷ 8 ∷ []);
  read = λ log fd n. if fd == 7 then failed 104 else done (hello n);
}

round_undefined_example : round failing (record calm_server { readque = 8 ∷ 7 ∷ [] }) ≡ undefined
unfolding bad_errno max_fd_from
round_undefined_example =
    round_undefined failing 7 (8 ∷ []) (record calm_server { readque = 8 ∷ 7 ∷ [] }) (8 ∷ []) 7 []
      (omega arith, (omega arith, (omega arith, (omega arith, tt)))) refl refl refl refl refl
      (((b'h' ∷ [], refl, omega arith), (16, refl)), tt) refl (inl (104, refl))

-- The client 8 is sent the greeting and the h that it sent.
echoes_hello :
    echoes talking (8 ∷ []) (7 ∷ 8 ∷ []) [] ≡ write 8 (greeting ++ b'h' ∷ []) ∷ read 8 buf_size ∷ []
echoes_hello = refl

abbrev sample_entry : LogEntry
sample_entry = record { key_size = 2; key = 5 ∷ 6 ∷ 7 ∷ []; val_size = 1; value = 8 ∷ [] }

abbrev second_entry : LogEntry
second_entry = record sample_entry { val_size = 0 }

abbrev sample_entries : List LogEntry
sample_entries = sample_entry ∷ second_entry ∷ []

sample_entry-IsEntry : IsEntry sample_entry
sample_entry-IsEntry = record {
  key_there = omega arith;
  value_there = omega arith;
  key_fits = omega arith;
  value_fits = omega arith;
}

second_entry-IsEntry : IsEntry second_entry
second_entry-IsEntry = record {
  key_there = omega arith;
  value_there = omega arith;
  key_fits = omega arith;
  value_fits = omega arith;
}

abbrev sample_append : AppendLogReq
sample_append = record {
  term = 3;
  leader_id = 1;
  prev_log_term = 2;
  prev_log_index = 10;
  leader_commit_index = 9;
  log_entries = record { length = 2; mem_size = 13; start = sample_entries };
}

abbrev no_packet : DataPacket
no_packet = record { msgtype = 3; length = 0; body = [] }

-- mem_size is one less than the 13 bytes of the entries.
abbrev tight_append : AppendLogReq
tight_append = record sample_append {
  log_entries = record { length = 2; mem_size = 12; start = sample_entries };
}

compress_append_log_req_cases_example :
    ((left : List ℕ) × (length (entries_wire sample_entries) + length left ≡ 12)
      × (compress_append_log_req zeros tight_append no_packet
          ≡ ok (record no_packet {
            length = 50;
            body = (head_wire tight_append ++ entries_wire sample_entries) ++ left;
          })))
    ⊎ ((12 < length (entries_wire sample_entries))
        × (compress_append_log_req zeros tight_append no_packet ≡ undefined))
compress_append_log_req_cases_example =
    compress_append_log_req_cases zeros tight_append no_packet
      (sample_entry-IsEntry, (second_entry-IsEntry, tt))

decompress_undefined_example :
    decompress_append_log_req zeros (record { msgtype = 3; length = 51; body = replicate 51 0 })
    ≡ undefined
decompress_undefined_example =
    decompress_undefined zeros (record { msgtype = 3; length = 51; body = replicate 51 0 })
      (omega arith)

handle-Tried_example :
    (sent : Log) × Tried (scripted []) 6 (1 ∷ 2 ∷ []) 2 [] sent
    × ((handle (scripted []) (record { connfd = 6 }) (1 ∷ 2 ∷ []) []).1 ≡ recvfrom 6 4096 ∷ sent)
handle-Tried_example = handle-Tried (scripted []) (record { connfd = 6 }) (1 ∷ 2 ∷ []) []
