-- ===== src/System.antt =====
-- The kernel, the network and the other threads, which the repository does not contain. They are
-- a record of functions from the history of the calls made so far, newest first, to what the next
-- call returns; so a theorem for every `Os` holds for every behaviour of the environment.
-- An int is its 32-bit pattern: -1 is `minus_one`.
use plib.Base.{◌∷◌, ℕ, ◌^◌, ◌-◌, List, Bool, leb, ltb, ◌&&◌, ◌≡◌, ◌⊎◌, inl, inr, refl}

abbrev pub minus_one : ℕ
minus_one = 2 ^ 32 - 1

-- x < 0 and x > 0 for an int.
abbrev pub is_negative : ℕ → Bool
is_negative x = leb (2 ^ 31) x

abbrev pub is_positive : ℕ → Bool
is_positive x = ltb 0 x && ltb x (2 ^ 31)

-- What a system call returns: a result, or -1 with the errno that it sets.
pub data Ret (A : Type 0) : Type 0 where
  done : A → Ret A
  failed : ℕ → Ret A

pub Ret-cases : {A : Type 0} (r : Ret A) → ((e : ℕ) × (r ≡ failed e)) ⊎ ((a : A) × (r ≡ done a))
Ret-cases (failed e) = inl (e, refl)
Ret-cases (done a) = inr (a, refl)

-- The bits of epoll_event::events that the program names, and the others together.
pub record Mask : Type 0 where
  pub epollin : Bool
  pub epollout : Bool
  pub epollerr : Bool
  pub epollhup : Bool
  pub epollet : Bool
  pub others : ℕ

pub record EpollEvent : Type 0 where
  pub events : Mask
  pub fd : ℕ

pub data Ctl : Type 0 where
  add mod_ del : Ctl

pub data Kind : Type 0 where
  stream dgram : Kind

pub data Call : Type 0 where
  socket : Kind → Call
  setsockopt : ℕ → Call
  fcntl_getfd : ℕ → Call
  fcntl_setfl : ℕ → ℕ → Call
  bind : ℕ → ℕ → Call
  listen : ℕ → ℕ → Call
  connect : ℕ → Call
  shutdown : ℕ → Call
  close : ℕ → Call
  epoll_create : ℕ → Call
  epoll_ctl : Ctl → ℕ → EpollEvent → Call
  epoll_wait : Call
  accept : ℕ → Call
  read : ℕ → ℕ → Call
  write : ℕ → List ℕ → Call
  recvfrom : ℕ → ℕ → Call
  sendto : ℕ → List ℕ → Call
  select : List ℕ → ℕ → Call
  mutex_init : Call
  setrlimit : ℕ → Call
  gethostbyname : Call
  sleep : ℕ → Call
  clock : Call
  rand : Call

abbrev pub Log : Type 0
Log = List Call

-- `log` is `old` with calls since it that all satisfy P.
pub data Since (P : Call → Type 0) (old : Log) : Log → Type 0 where
  here : Since P old old
  next : {c : Call} {log : Log} → Since P old log → P c → Since P old (c ∷ log)

pub Since-trans : {P : Call → Type 0} {a b c : Log} → Since P a b → Since P b c → Since P a c
Since-trans h Since.here = h
Since-trans h (Since.next k p) = Since.next (Since-trans h k) p

pub record Os : Type 0 where
  pub socket : Log → Kind → Ret ℕ
  pub fcntl_getfd : Log → ℕ → ℕ
  pub fcntl_setfl : Log → ℕ → ℕ → Bool
  pub bind : Log → ℕ → Bool
  pub listen : Log → ℕ → Bool
  pub connect : Log → ℕ → Bool
  pub epoll_create : Log → ℕ
  pub epoll_ctl : Log → Ctl → ℕ → EpollEvent → Bool
  pub epoll_wait : Log → Ret (List EpollEvent)
  pub accept : Log → Ret ℕ
  pub read : Log → ℕ → ℕ → Ret (List ℕ)
  pub write : Log → ℕ → List ℕ → Ret ℕ
  pub recvfrom : Log → ℕ → ℕ → Ret (List ℕ)
  pub sendto : Log → ℕ → List ℕ → Ret ℕ
  -- The descriptors that are ready, of those watched.
  pub select : Log → List ℕ → ℕ → Ret (List ℕ)
  pub mutex_init : Log → Bool
  pub setsockopt : Log → ℕ → Bool
  -- The errno that the newest call of the log sets if it fails, for the calls above that only say
  -- whether they succeed, and for fcntl_getfd.
  pub errno : Log → ℕ
  -- The errno after a look-up by gethostbyaddr, from the one before it.
  pub gethostbyaddr : Log → ℕ → ℕ
  -- Whether a host name is found.
  pub gethostbyname : Log → Bool
  pub setrlimit : Log → ℕ → Bool
  -- The content of memory that malloc gives, by the offset.
  pub junk : Log → ℕ → ℕ
  -- Whether another thread has by now called closeEpollServer.
  pub close_requested : Log → Bool
