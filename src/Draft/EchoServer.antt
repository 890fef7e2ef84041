-- ===== src/Draft/EchoServer.antt =====
-- draft/ProtocalServerUDP: a server that answers each client with what the client sent.
pub mod Loop
pub mod Echo
pub mod Turns
pub mod Update
pub mod Returns
use Prim.Native.Nat.{bit_or}
use plib.Base.{
  ℕ, List, [], ◌∷◌, Bool, true, false, Run, ok, undefined, ◌>>=◌, if◌then◌else◌, ◌==◌, ◌&&◌,
  replicate,
}
use plib.System.{
  Os, Log, Ret, done, failed, Mask, EpollEvent, Ctl, epoll_ctl, close, read, write, accept,
  fcntl_getfd, fcntl_setfl, minus_one,
}
use plib.FdUtils.{Returned, o_nonblock}
use plib.Memory.Block.{store}
use plib.EpollServer.State.{no_events}

abbrev pub max_line : ℕ
max_line = 10240

abbrev pub max_size : ℕ
max_size = 1024

-- `buf` is the one buffer of initService, which all clients share.
pub record Session : Type 0 where
  pub buf : List ℕ
  pub log : Log

abbrev pub input : Mask
input = record no_events { epollin = true }

abbrev pub output : Mask
output = record no_events { epollout = true }

-- A call of epoll_ctl whose result is not looked at.
abbrev pub control : Ctl → ℕ → Mask → Log → Log
control op fd state log = epoll_ctl op fd (record { events = state; fd = fd }) ∷ log

unfoldable pub delete_event : ℕ → Mask → Log → Log
delete_event fd state log = control Ctl.del fd state log

unfoldable pub modify_event : ℕ → Mask → Log → Log
modify_event fd state log = control Ctl.mod_ fd state log

unfoldable pub add_event : ℕ → Mask → Log → Log
add_event fd state log = control Ctl.add fd state log

-- The bytes of a string up to the zero byte, as strlen and printf read them.
unfoldable pub c_string : List ℕ → Run (List ℕ)
c_string [] = undefined
c_string (b ∷ bs) =
    let rest = c_string bs in if b == 0 then ok [] else (do more ← rest; ok (b ∷ more))

-- The client is closed before it is taken out of the epoll instance, also in do_read.
unfoldable pub after_write : Ret ℕ → ℕ → Log → Log
after_write (failed errno) fd log = delete_event fd output (close fd ∷ log)
after_write (done n) fd log = modify_event fd input log

unfoldable pub do_write : Os → ℕ → Session → Run Session
do_write os fd s = do
  text ← c_string s.buf
  let log' = after_write (os.write s.log fd text) fd (write fd text ∷ s.log)
  cleared ← store s.buf 0 (replicate max_size 0)
  ok (record { buf = cleared; log = log' })

-- What was read is printed as a string.
unfoldable pub do_read : Os → ℕ → Session → Run Session
do_read os fd s =
    let asked = read fd max_size ∷ s.log in
    let dropped = delete_event fd input (close fd ∷ asked) in
    elim (os.read s.log fd max_size) [
      | failed errno ↦ ok (record s { log = dropped })
      | done [] ↦ ok (record s { log = dropped })
      | done (b ∷ bs) ↦ (do
        filled ← store s.buf 0 (b ∷ bs)
        printed ← c_string filled
        ok (record { buf = filled; log = modify_event fd output asked }))
    ]

unfoldable pub handle_accpet : Os → ℕ → Session → Session
handle_accpet os listenfd s =
    let asked = accept listenfd ∷ s.log in
    elim (os.accept s.log) [
      | failed errno ↦ record s { log = asked }
      | done clifd ↦ record s { log = add_event clifd input asked }
    ]

unfoldable pub setnonblocking : Os → ℕ → Log → Returned
setnonblocking os sockfd log =
    let flags = bit_or (os.fcntl_getfd log sockfd) o_nonblock in
    let asked = fcntl_getfd sockfd ∷ log in
    let log' = fcntl_setfl sockfd flags ∷ asked in
    if os.fcntl_setfl asked sockfd flags
    then record { result = 0; log = log' }
    else record { result = minus_one; log = log' }

-- One answer outside the event loop, which nothing in the file calls.
unfoldable pub handle : Os → ℕ → Log → Returned
handle os connfd log =
    let asked = read connfd max_line ∷ log in
    elim (os.read log connfd max_line) [
      | failed errno ↦ record { result = minus_one; log = close connfd ∷ asked }
      | done [] ↦ record { result = minus_one; log = close connfd ∷ asked }
      | done (b ∷ bs) ↦ record { result = 0; log = write connfd (b ∷ bs) ∷ asked }
    ]
