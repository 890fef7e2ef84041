-- ===== src/Draft/EchoServer/Loop.antt =====
-- initService of draft/ProtocalServerUDP and of its copy in draft/20200214UPD, with the copy's
-- constructor and destructor.
use plib.Base.{
  ℕ, zero, suc, List, ◌∷◌, ◌++◌, Bool, false, none, some, Run, ok, undefined, spins, ◌>>=◌,
  if◌then◌else◌, ◌==◌, ◌&&◌, length, drop, get_elem?,
}
use plib.System.{
  Os, Log, done, failed, EpollEvent, Ctl, stream, socket, setsockopt, bind, listen, epoll_create,
  epoll_ctl, epoll_wait, close, setrlimit, minus_one,
}
use plib.FdUtils.{Returned}
use plib.EpollServer.Accept.{accept_events}
use plib.Draft.EchoServer.{Session, do_read, do_write, handle_accpet, setnonblocking}

abbrev pub max_epoll_size : ℕ
max_epoll_size = 10000

abbrev pub listenq : ℕ
listenq = 1024

-- What opening the listening socket leads to: `ready` if it is watched, or else -1 is returned.
pub record Opened : Type 0 where
  pub listenfd : ℕ
  pub ready : Bool
  pub log : Log

unfoldable pub watch_listener : Os → ℕ → Log → Opened
watch_listener os fd log =
    let created = epoll_create max_epoll_size ∷ log in
    let event : EpollEvent = record { events = accept_events; fd = fd } in
    record {
      listenfd = fd;
      ready = os.epoll_ctl created Ctl.add fd event;
      log = epoll_ctl Ctl.add fd event ∷ created;
    }

unfoldable pub listen_on : Os → ℕ → ℕ → Log → Opened
unfolding watch_listener
listen_on os port fd log =
    let bound = bind fd port ∷ log in
    let listening = listen fd listenq ∷ bound in
    if os.bind log fd
    then (if os.listen bound fd
        then watch_listener os fd listening
        else record { listenfd = fd; ready = false; log = listening })
    else record { listenfd = fd; ready = false; log = bound }

-- From the call of socket to the first epoll_ctl. The result of setnonblocking is only printed.
unfoldable pub open_listener : Os → ℕ → Log → Opened
unfolding listen_on
open_listener os port log = elim (os.socket log stream) [
  | failed errno ↦ record { listenfd = minus_one; ready = false; log = socket stream ∷ log }
  | done fd ↦ listen_on os port fd (setnonblocking os fd (setsockopt fd ∷ socket stream ∷ log)).log
]

-- The body of the loop over the events, for one event.
unfoldable pub dispatch : Os → ℕ → EpollEvent → Session → Run Session
dispatch os listenfd event s =
    if (event.fd == listenfd) && event.events.epollin
    then ok (handle_accpet os listenfd s)
    else if event.events.epollin
    then do_read os event.fd s
    else if event.events.epollout
    then do_write os event.fd s
    else ok s

-- The loop over n events. It takes events[i], where i is a variable that was never given a value:
-- `stray` is whatever it holds.
unfoldable pub serve_events : Os → (Log → ℕ) → ℕ → List EpollEvent → ℕ → Session → Run Session
serve_events os stray listenfd events zero s = ok s
serve_events os stray listenfd events (suc n) s = elim (get_elem? events (stray s.log)) [
  | none ↦ undefined
  | some event ↦ (do t ← dispatch os listenfd event s; serve_events os stray listenfd events n t)
]

-- while (true), for some rounds. epoll_wait writes over the start of the array of events.
unfoldable pub serve_loop : Os → (Log → ℕ) → ℕ → ℕ → List EpollEvent → Session → Run Session
serve_loop os stray listenfd zero events s = spins
serve_loop os stray listenfd (suc rounds) events s =
    let waited : Session = record s { log = epoll_wait ∷ s.log } in
    elim (os.epoll_wait s.log) [
      | failed errno ↦ serve_loop os stray listenfd rounds events waited
      | done found ↦
          (let events' = found ++ drop (length found) events in
            do
              t ← serve_events os stray listenfd events' (length found) waited
              serve_loop os stray listenfd rounds events' t)
    ]

-- `events` and `buf` are the arrays as they are before, which nothing initialises.
unfoldable pub init_service : Os → (Log → ℕ) → ℕ → ℕ → List EpollEvent → List ℕ → Log → Run Returned
init_service os stray port rounds events buf log =
    let limited = setrlimit max_epoll_size ∷ log in
    let opened = open_listener os port limited in
    let served : Run Returned = (do
      s ← serve_loop os stray opened.listenfd rounds events (record { buf = buf; log = opened.log })
      ok (record { result = 0; log = close opened.listenfd ∷ s.log })) in
    if os.setrlimit log max_epoll_size
    then (if opened.ready then served else ok (record { result = minus_one; log = opened.log }))
    else ok (record { result = minus_one; log = limited })
