-- ===== src/SelectServer.antt =====
-- ProtocalServerSelect: the server that waits with select.
pub mod Round
pub mod Echo
pub mod Readque
use Prim.Native.Nat.{bit_and, bit_or}
use plib.Base.{
  ℕ, zero, suc, ◌+◌, ◌<◌, List, [], ◌∷◌, ◌++◌, Bool, true, false, ◌&&◌, ◌||◌, not, Run, ok,
  undefined, exits, spins, ◌>>=◌, if◌then◌else◌, ◌==◌, ltb, leb, length, replicate,
}
use plib.System.{
  Os, Log, Ret, done, failed, Kind, stream, dgram, is_negative, is_positive, minus_one, fcntl_getfd,
  fcntl_setfl, socket, setsockopt, bind, listen, select, accept, recvfrom, sendto, read, write,
  close,
}
use plib.FdUtils.{o_nonblock}
use plib.Memory.Block.{store, load}

abbrev pub buf_size : ℕ
buf_size = 4096

abbrev pub default_listen_queue : ℕ
default_listen_queue = 128

-- The descriptors that an fd_set has bits for.
abbrev pub fd_setsize : ℕ
fd_setsize = 1024

-- `errno` is the thread's, which a call that succeeds leaves as it was, as does one that prints.
pub record SelectServer : Type 0 where
  pub listenfd : ℕ
  pub udpfd : ℕ
  pub errno : ℕ
  pub recvbuffer : List ℕ
  pub readque : List ℕ
  pub log : Log

-- The errno after a call.
abbrev pub errno_after : {A : Type 0} → ℕ → Ret A → ℕ
errno_after errno (failed e) = e
errno_after errno (done a) = errno

-- A bit of an fd_set, set or tested.
unfoldable pub fd_isset : List ℕ → ℕ → Run Bool
fd_isset [] fd = if leb fd_setsize fd then undefined else ok false
fd_isset (x ∷ xs) fd =
    let rest = fd_isset xs fd in
    if leb fd_setsize fd then undefined else if x == fd then ok true else rest

unfoldable pub fd_set_all : List ℕ → Run (List ℕ)
fd_set_all [] = ok []
fd_set_all (fd ∷ fds) = do
  rest ← fd_set_all fds
  if leb fd_setsize fd then undefined else ok (fd ∷ rest)

abbrev pub max : ℕ → ℕ → ℕ
max a b = if ltb a b then b else a

unfoldable pub max_fd_from : ℕ → List ℕ → ℕ
max_fd_from m [] = m
max_fd_from m (fd ∷ fds) = max_fd_from (max m fd + 1) fds

-- EINVAL is 22, ENOMEM 12 and EBADF 9; the code compares with &.
unfoldable pub bad_errno : ℕ → Bool
bad_errno errno =
    not (bit_and errno 22 == 0) || (not (bit_and errno 12 == 0) || not (bit_and errno 9 == 0))

abbrev pub greeting : List ℕ
greeting =
    b'r' ∷ b'e' ∷ b'c' ∷ b'e' ∷ b'i' ∷ b'v' ∷ b'e' ∷ b'd' ∷ b' ' ∷ b'v' ∷ b'o' ∷ b't' ∷ b'e' ∷ b':'
    ∷ b' ' ∷ []

abbrev pub got : List ℕ
got = b'g' ∷ b'o' ∷ b't' ∷ []

-- The element of a deque at an index is taken out.
abbrev pub erase : ℕ → List ℕ → List ℕ
erase i [] = []
erase zero (x ∷ xs) = xs
erase (suc i) (x ∷ xs) = x ∷ erase i xs

-- The iterator is an index of readque.
unfoldable pub rm_bad_fd : ℕ → ℕ → SelectServer → SelectServer
rm_bad_fd i fd s = record s { readque = erase i s.readque; log = close fd ∷ s.log }

-- What the body of the loop leaves: the iterator valid, or that of an erased element.
pub data Served : Type 0 where
  kept : SelectServer → Served
  erased : SelectServer → Served

-- A descriptor of readque that is ready: what it sent is sent back after the greeting.
unfoldable pub serve_fd : Os → ℕ → ℕ → SelectServer → Run Served
serve_fd os i fd s =
    let asked : Log = read fd buf_size ∷ s.log in
    elim (os.read s.log fd buf_size) [
      | failed e ↦ ok (erased (rm_bad_fd i fd (record s { errno = e; log = asked })))
      | done bytes ↦ (do
        buffer ← store s.recvbuffer 0 bytes
        content ← load buffer 0 (length bytes)
        let answer = greeting ++ content
        let t : SelectServer = record s { recvbuffer = buffer; log = write fd answer ∷ asked }
        elim (os.write asked fd answer) [
          | failed e ↦ ok (erased (rm_bad_fd i fd (record t { errno = e })))
          | done n ↦ ok (kept t)
        ])
    ]

-- The loop over readque from the i-th element on. After rmBadFd it goes on with the iterator of
-- the erased element, which is undefined.
unfoldable pub serve_readque : Os → List ℕ → ℕ → List ℕ → SelectServer → Run SelectServer
serve_readque os ready i [] s = ok s
serve_readque os ready i (fd ∷ fds) s = do
  is_ready ← fd_isset ready fd
  served ← if is_ready then serve_fd os i fd s else ok (kept s)
  elim served [ kept t ↦ serve_readque os ready (suc i) fds t | erased t ↦ undefined ]

-- The result of a function, with the errno and the log after it.
pub record Tried : Type 0 where
  pub result : ℕ
  pub errno : ℕ
  pub log : Log

-- The errno after the newest call of a log, which has succeeded or not.
abbrev pub errno_if : Os → Bool → ℕ → Log → ℕ
errno_if os succeeded errno log = if succeeded then errno else os.errno log

unfoldable pub setnonblocking : Os → ℕ → ℕ → Log → Tried
setnonblocking os sockfd errno log =
    let found = os.fcntl_getfd log sockfd in
    let flags = bit_or found o_nonblock in
    let asked : Log = fcntl_getfd sockfd ∷ log in
    let changed = os.fcntl_setfl asked sockfd flags in
    let log' : Log = fcntl_setfl sockfd flags ∷ asked in
    record {
      result = if changed then 0 else minus_one;
      errno = errno_if os changed (errno_if os (not (is_negative found)) errno asked) log';
      log = log';
    }

-- One connection is taken.
unfoldable pub accept_one : Os → SelectServer → SelectServer
accept_one os s =
    let asked : Log = accept s.listenfd ∷ s.log in
    elim (os.accept s.log) [
      | failed e ↦ record s { errno = e; log = asked }
      | done fd ↦
          (let flagged : Tried = setnonblocking os fd s.errno asked in
            if is_positive fd
            then record s {
              readque = s.readque ++ fd ∷ [];
              errno = flagged.errno;
              log = flagged.log;
            }
            else record s { log = asked })
    ]

unfoldable pub udp_receive : Os → SelectServer → Run SelectServer
udp_receive os s = elim (os.recvfrom s.log s.udpfd buf_size) [
  | failed e ↦ ok (record s { errno = e; log = recvfrom s.udpfd buf_size ∷ s.log })
  | done bytes ↦ (do
    buffer ← store s.recvbuffer 0 bytes
    let received : Log = recvfrom s.udpfd buf_size ∷ s.log
    ok (record s {
      recvbuffer = buffer;
      errno = errno_after (os.gethostbyaddr received s.errno) (os.sendto received s.udpfd got);
      log = sendto s.udpfd got ∷ received;
    }))
]

unfoldable pub serve_ready : Os → List ℕ → SelectServer → Run SelectServer
serve_ready os ready s = do
  incoming ← fd_isset ready s.listenfd
  let t = if incoming then accept_one os s else s
  datagram ← fd_isset ready t.udpfd
  u ← if datagram then udp_receive os t else ok t
  serve_readque os ready 0 u.readque u

-- One round of while (true): `false` is return -1.
unfoldable pub round : Os → SelectServer → Run (Bool × SelectServer)
round os s = do
  watched ← fd_set_all (s.listenfd ∷ s.udpfd ∷ s.readque)
  let maxfdp1 = max_fd_from (max s.listenfd s.udpfd + 1) s.readque
  let found : Ret (List ℕ) = os.select s.log watched maxfdp1
  let t : SelectServer = record s {
    recvbuffer = replicate buf_size 0;
    errno = errno_after s.errno found;
    log = select watched maxfdp1 ∷ s.log;
  }
  if bad_errno t.errno then ok (false, t) else elim found [
    | failed e ↦ ok (true, t)
    | done [] ↦ ok (true, t)
    | done (fd ∷ fds) ↦ (do u ← serve_ready os (fd ∷ fds) t; ok (true, u))
  ]

-- The loop, watched for some rounds: `true` if it still runs then.
unfoldable pub service_loop : Os → ℕ → SelectServer → Run (Bool × SelectServer)
service_loop os zero s = ok (true, s)
service_loop os (suc rounds) s = do
  (running, t) ← round os s
  if running then service_loop os rounds t else ok (false, t)

-- The part of initService before the loop: `false` is return -1.
unfoldable pub open_socket : Os → Kind → Log → Run ℕ
open_socket os kind log = elim (os.socket log kind) [ failed e ↦ exits 0 | done fd ↦ ok fd ]

unfoldable pub set_nonblock : Os → ℕ → ℕ → ℕ → Log → Tried
set_nonblock os listenfd udpfd errno log =
    let first : Tried = setnonblocking os listenfd errno log in
    if is_negative first.result then first else setnonblocking os udpfd first.errno first.log

-- bind, listen and bind again, up to the first that fails.
unfoldable pub bind_sockets : Os → ℕ → ℕ → ℕ → Log → Bool × Log
bind_sockets os listenfd udpfd port log =
    let bound : Log = bind listenfd port ∷ log in
    let listening : Log = listen listenfd default_listen_queue ∷ bound in
    let all : Log = bind udpfd port ∷ listening in
    if not (os.bind log listenfd)
    then (false, bound)
    else if not (os.listen bound listenfd)
    then (false, listening)
    else (os.bind listening udpfd, all)

unfoldable pub set_up : Os → ℕ → SelectServer → Run (Bool × SelectServer)
set_up os port raw = do
  listenfd ← open_socket os stream raw.log
  let opened : Log = socket stream ∷ raw.log
  udpfd ← open_socket os dgram opened
  let both : Log = socket dgram ∷ opened
  let first : Log = setsockopt listenfd ∷ both
  let errno1 = errno_if os (os.setsockopt both listenfd) raw.errno first
  let second : Log = setsockopt udpfd ∷ first
  let errno2 = errno_if os (os.setsockopt first udpfd) errno1 second
  let flagged : Tried = set_nonblock os listenfd udpfd errno2 second
  let bound : Bool × Log = bind_sockets os listenfd udpfd port flagged.log
  ok (
    bound.0,
    record raw {
      listenfd = listenfd;
      udpfd = udpfd;
      errno = errno_if os bound.0 flagged.errno bound.1;
      readque = [];
      log = bound.1;
    },
  )

unfoldable pub init_service : Os → ℕ → ℕ → SelectServer → Run (Bool × SelectServer)
init_service os port rounds raw = do
  (good, s) ← set_up os port raw
  if good then service_loop os rounds s else ok (false, s)

-- The constructor, which runs the loop: what is left when initService returns.
unfoldable pub construct : Os → ℕ → ℕ → SelectServer → Run SelectServer
construct os port rounds raw = do (running, s) ← init_service os port rounds raw; ok s

-- The destructor.
unfoldable pub destroy : SelectServer → SelectServer
destroy s = record s { log = close s.listenfd ∷ close s.udpfd ∷ s.log }
