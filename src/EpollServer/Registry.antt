-- ===== src/EpollServer/Registry.antt =====
-- The methods that change what the server and its epoll instance know of descriptors.
pub mod Queues
pub mod Clients
pub mod Interleaving
use plib.Base.{
  ℕ, List, [], ◌∷◌, Bool, true, false, Option, none, some, ◌==◌, if◌then◌else◌, set, ok,
}
use plib.System.{Os, Log, Mask, EpollEvent, Ctl, epoll_ctl, close, is_negative, mutex_init}
use plib.SharedQueue
use plib.SharedQueue.{SharedQueue}
use plib.StdMap.{find, insert, assign}
use plib.TcpClient.{ProtocalClientTcp, do_connect, close_conn_socket}
use plib.Vote.{ReqeustVoteResp}
use plib.EpollServer.State.{
  Server, M, pure, ◌>>=◌, ◌>>◌, lift, get, put, record_call, ctl, deref, no_events,
}

-- EPOLLOUT | EPOLLET.
abbrev pub client_events : Mask
client_events = record no_events { epollout = true; epollet = true }

unfoldable pub add_client_epoll_event : Os → ProtocalClientTcp → M (Unit {0})
add_client_epoll_event os client = do
  added ← ctl os Ctl.add client.connfd (record { events = client_events; fd = client.connfd })
  pure tt

unfoldable pub mod_client_epoll_event : Os → ProtocalClientTcp → M (Unit {0})
mod_client_epoll_event os client = do
  changed ← ctl os Ctl.mod_ client.connfd (record { events = client_events; fd = client.connfd })
  pure tt

-- The last part of rmBadFd: a descriptor that is no client's is taken out and closed.
unfoldable pub drop_fd : Os → ℕ → M (Unit {0})
drop_fd os badfd = do
  removed ← ctl os Ctl.del badfd (record { events = no_events; fd = badfd })
  record_call (close badfd)

unfoldable pub rm_client_fd : Os → ℕ → M (Unit {0})
rm_client_fd os badfd s = elim (find badfd s.clientmap) [
  | none ↦ drop_fd os badfd s
  | some p ↦ (do client ← deref p; mod_client_epoll_event os client) s
]

unfoldable pub rm_bad_fd : Os → ℕ → M (Unit {0})
rm_bad_fd os badfd s =
    if badfd == s.listenfd
    then (do changed ← ctl os Ctl.mod_ s.listenfd s.tcp_listen_event; pure tt) s
    else if badfd == s.udpfd
    then (do changed ← ctl os Ctl.mod_ s.udpfd s.udp_receive_event; pure tt) s
    else rm_client_fd os badfd s

-- client->doConnect() and, if that fails, client->closeConnSocket(): whether it is connected.
unfoldable pub connect_client : Os → ℕ → M Bool
connect_client os p = do
  client ← deref p
  s ← get
  let c = do_connect os client s.log
  let connected = if is_negative c.result then false else true
  log' ← lift (if connected then ok c.log else close_conn_socket c.client c.log)
  put (record s { tcp_clients = set s.tcp_clients p c.client; log = log' })
  pure connected

unfoldable pub register_client : Os → ℕ → M (Unit {0})
register_client os p = do
  connected ← connect_client os p
  client ← deref p
  s ← get
  q ← lift (SharedQueue.make (os.mutex_init s.log))
  put (record s {
    clientmap = insert client.connfd p s.clientmap;
    resp_message_map = insert client.connfd q s.resp_message_map;
    log = mutex_init ∷ s.log;
  })
  if connected then add_client_epoll_event os client else pure tt

-- `true` if EPOLLOUT is asked for; otherwise the descriptor has been dealt with as bad.
unfoldable pub reg_epoll_response : Os → EpollEvent → ℕ → M Bool
reg_epoll_response os event triggered_fd = do
  changed ←
      ctl os Ctl.mod_ triggered_fd
        (record { events = record event.events { epollout = true }; fd = triggered_fd })
  if changed then pure true else (do rm_bad_fd os triggered_fd; pure false)

unfoldable pub put_resp_in_queue : Os → ℕ → ReqeustVoteResp → M (Unit {0})
put_resp_in_queue os triggered_fd resp s = elim (find triggered_fd s.resp_message_map) [
  | some q ↦ ok (
    tt,
    record s {
      resp_message_map = assign triggered_fd (SharedQueue.push_back q resp) s.resp_message_map;
    },
  )
  | none ↦
      (do
        q ← lift (SharedQueue.make_with (os.mutex_init s.log) resp)
        put (record s {
          resp_message_map = insert triggered_fd q s.resp_message_map;
          log = mutex_init ∷ s.log;
        }))
        s
]

unfoldable pub close_epoll_server : Server → Server
close_epoll_server s = record s { keep_running = false }
