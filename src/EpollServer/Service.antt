-- ===== src/EpollServer/Service.antt =====
-- The event loop, ProtocalServerEpoll::initService.
use plib.Base.{
  ℕ, zero, suc, List, [], ◌∷◌, Bool, true, false, ◌&&◌, ◌||◌, not, ok, if◌then◌else◌, ◌==◌,
  replicate,
}
use plib.System.{Os, done, failed, Mask, EpollEvent, epoll_wait}
use plib.EpollServer.State.{Server, M, pure, ◌>>=◌, ◌>>◌, buf_size}
use plib.EpollServer.Registry.{rm_bad_fd, close_epoll_server}
use plib.EpollServer.Accept.{accept_all, udp_receive}
use plib.EpollServer.Read.{epoll_read}
use plib.EpollServer.Write.{epoll_write}

-- An error or a hang-up, or neither of input and output.
unfoldable pub is_bad : Mask → Bool
is_bad m = (m.epollerr || m.epollhup) || not (m.epollin || m.epollout)

-- The EPOLLIN and the EPOLLOUT part, of which the first may skip the second.
unfoldable pub serve_client : Os → ℕ → EpollEvent → M (Unit {0})
serve_client os fuel event = do
  proceed ← if event.events.epollin then epoll_read os fuel event else pure true
  if proceed && event.events.epollout then epoll_write os fuel event else pure tt

-- The body of the loop over the events.
unfoldable pub handle_event : Os → ℕ → EpollEvent → M (Unit {0})
handle_event os fuel event s =
    if is_bad event.events
    then rm_bad_fd os event.fd s
    else if (event.fd == s.listenfd) && event.events.epollin
    then accept_all os fuel s
    else if (event.fd == s.udpfd) && event.events.epollin
    then udp_receive os s
    else serve_client os fuel event s

unfoldable pub handle_events : Os → ℕ → List EpollEvent → M (Unit {0})
handle_events os fuel [] = pure tt
handle_events os fuel (e ∷ es) = do handle_event os fuel e; handle_events os fuel es

-- One round: wait, clear the buffer, and serve the events.
unfoldable pub serve_round : Os → ℕ → M (Unit {0})
serve_round os fuel s =
    let t : Server = record s { log = epoll_wait ∷ s.log; recvbuffer = replicate buf_size 0 } in
    elim (os.epoll_wait s.log) [
      | failed errno ↦ ok (tt, t)
      | done events ↦ handle_events os fuel events t
    ]

-- A call of closeEpollServer by another thread is seen when keep_running is tested.
unfoldable pub see_close : Os → Server → Server
see_close os s = if os.close_requested s.log then close_epoll_server s else s

-- while (keep_running.load()), watched for `rounds` rounds: `true` if it ends within them.
unfoldable pub service_loop : Os → ℕ → ℕ → M Bool
service_loop os fuel zero s = ok (false, s)
service_loop os fuel (suc rounds) s =
    let t = see_close os s in
    let more : M Bool = (do serve_round os fuel; service_loop os fuel rounds) in
    (if t.keep_running then more else pure true) t

unfoldable pub init_service : Os → ℕ → ℕ → M Bool
init_service os fuel rounds s =
    service_loop os fuel rounds (record s { recvbuffer = replicate buf_size 0 })
