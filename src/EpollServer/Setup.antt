-- ===== src/EpollServer/Setup.antt =====
-- The constructor of ProtocalServerEpoll.
pub mod Listening
use plib.Base.{ℕ, [], ◌∷◌, Bool, true, false, ok, exits, if◌then◌else◌}
use plib.System.{
  Os, done, failed, EpollEvent, Ctl, Kind, socket, setsockopt, bind, listen, epoll_create,
  is_negative, dgram, stream,
}
use plib.FdUtils.{Returned, set_fd_nonblock}
use plib.ElectionLogic.{ElectionLogic}
use plib.EpollServer.State.{
  M, pure, ◌>>=◌, ◌>>◌, get, put, record_call, ctl, exit_with, max_epoll_size, default_listen_queue,
}
use plib.EpollServer.Accept.{accept_events}

abbrev pub require : Bool → ℕ → M (Unit {0})
require true code = pure tt
require false code = exit_with code

-- exit(0) where a socket cannot be opened.
unfoldable pub open_socket : Os → Kind → M ℕ
open_socket os kind s = elim (os.socket s.log kind) [
  | failed errno ↦ exits 0
  | done fd ↦ ok (fd, record s { log = socket kind ∷ s.log })
]

-- set_fd_nonblock(listenfd) < 0 || set_fd_nonblock(udpfd) < 0, whose value is only printed.
unfoldable pub set_nonblock : Os → ℕ → ℕ → M (Unit {0})
set_nonblock os listenfd udpfd s =
    let first : Returned = set_fd_nonblock os listenfd s.log in
    let log' =
      if is_negative first.result then first.log else (set_fd_nonblock os udpfd first.log).log in
    ok (tt, record s { log = log' })

unfoldable pub bind_port : Os → ℕ → ℕ → M (Unit {0})
bind_port os fd port = do s ← get; record_call (bind fd port); require (os.bind s.log fd) 255

abbrev pub listening : ℕ → EpollEvent
listening fd = record { events = accept_events; fd = fd }

-- The constructor's body, on an object whose members `raw` holds; exit(-1) gives the status 255.
unfoldable pub open_sockets : Os → ℕ → M (Unit {0})
open_sockets os port = do
  listenfd ← open_socket os stream
  udpfd ← open_socket os dgram
  record_call (setsockopt listenfd)
  record_call (setsockopt udpfd)
  set_nonblock os listenfd udpfd
  bind_port os listenfd port
  s ← get
  record_call (listen listenfd default_listen_queue)
  require (os.listen s.log listenfd) 255
  bind_port os udpfd port
  t ← get
  put (record t {
    listenfd = listenfd;
    udpfd = udpfd;
    epfd = os.epoll_create t.log;
    log = epoll_create max_epoll_size ∷ t.log;
  })

unfoldable pub watch_sockets : Os → M (Unit {0})
watch_sockets os = do
  s ← get
  put (record s { tcp_listen_event = listening s.listenfd; udp_receive_event = listening s.udpfd })
  added_tcp ← ctl os Ctl.add s.listenfd (listening s.listenfd)
  require added_tcp 255
  added_udp ← ctl os Ctl.add s.udpfd (listening s.udpfd)
  require added_udp 255

unfoldable pub construct : Os → ℕ → ElectionLogic → M (Unit {0})
construct os port election_logic raw =
    (do open_sockets os port; watch_sockets os)
      (record raw {
        election_logic = election_logic;
        clientmap = [];
        resp_message_map = [];
        keep_running = true;
      })
