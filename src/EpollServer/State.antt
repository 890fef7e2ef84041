-- ===== src/EpollServer/State.antt =====
-- The members of ProtocalServerEpoll, and the monad of its methods. Members that a method only
-- uses as temporaries (nfds, msgsize, writesize, tcp_accept_event, clientaddr, hostp) are local
-- values of the definitions.
use plib.Base.{
  ℕ, ◌≡◌, List, ◌∷◌, Bool, false, none, some, Run, ok, undefined, exits, spins, get_elem?,
}
use plib.System.{Os, Log, Call, Mask, EpollEvent, Ctl, epoll_ctl}
use plib.ElectionLogic.{ElectionLogic}
use plib.SharedQueue.{SharedQueue}
use plib.TcpClient.{ProtocalClientTcp}
use plib.Vote.{ReqeustVoteResp}

abbrev pub max_epoll_size : ℕ
max_epoll_size = 1000

abbrev pub default_listen_queue : ℕ
default_listen_queue = 128

abbrev pub buf_size : ℕ
buf_size = 4096

-- `tcp_clients` is the heap of client objects, which belong to the program's starter too; the
-- pointers in clientmap are indices of it. `log` holds the system calls made so far.
pub record Server : Type 0 where
  pub listenfd : ℕ
  pub udpfd : ℕ
  pub epfd : ℕ
  pub tcp_listen_event : EpollEvent
  pub udp_receive_event : EpollEvent
  pub election_logic : ElectionLogic
  pub recvbuffer : List ℕ
  pub tcp_clients : List ProtocalClientTcp
  pub clientmap : List (ℕ × ℕ)
  pub resp_message_map : List (ℕ × SharedQueue ReqeustVoteResp)
  pub keep_running : Bool
  pub log : Log

abbrev pub M : Type 0 → Type 0
M A = Server → Run (A × Server)

abbrev pub pure : {A : Type 0} → A → M A
pure a s = ok (a, s)

infixl 5 ◌>>=◌ ◌>>◌
abbrev pub ◌>>=◌ : {A B : Type 0} → M A → (A → M B) → M B
◌>>=◌ m f s = elim (m s) [
  | ok (a, t) ↦ f a t
  | undefined ↦ undefined
  | exits code ↦ exits code
  | spins ↦ spins
]

abbrev pub ◌>>◌ : {B : Type 0} → M (Unit {0}) → M B → M B
m >> k = m >>= λ _. k

pub >>=-run :
    {A B : Type 0} (m : M A) (f : A → M B) (s t : Server) (a : A)
    → m s ≡ ok (a, t)
    → (m >>= f) s ≡ f a t
>>=-run m f s t a e = rw (e, ◌>>=◌)

abbrev pub lift : {A : Type 0} → Run A → M A
lift r s = elim r [
  | ok a ↦ ok (a, s)
  | undefined ↦ undefined
  | exits code ↦ exits code
  | spins ↦ spins
]

abbrev pub exit_with : {A : Type 0} → ℕ → M A
exit_with code s = exits code

abbrev pub get : M Server
get s = ok (s, s)

abbrev pub put : Server → M (Unit {0})
put t s = ok (tt, t)

-- A system call is recorded.
abbrev pub record_call : Call → M (Unit {0})
record_call c s = ok (tt, record s { log = c ∷ s.log })

-- epoll_ctl on the server's epfd: whether it succeeds. The constructor sets epfd once, so the call
-- in the log does not name it; the kernel's answer is a function of the log, in which epoll_create
-- and thereby its result stands, so it may fail for an epfd of -1.
abbrev pub ctl : Os → Ctl → ℕ → EpollEvent → M Bool
ctl os op fd event s =
    ok (os.epoll_ctl s.log op fd event, record s { log = epoll_ctl op fd event ∷ s.log })

-- An access through a pointer to a client.
abbrev pub deref : ℕ → M ProtocalClientTcp
deref p s = elim (get_elem? s.tcp_clients p) [ none ↦ undefined | some c ↦ ok (c, s) ]

abbrev pub no_events : Mask
no_events = record {
  epollin = false;
  epollout = false;
  epollerr = false;
  epollhup = false;
  epollet = false;
  others = 0;
}
