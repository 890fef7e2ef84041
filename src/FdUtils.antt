-- ===== src/FdUtils.antt =====
-- FdUtils.h: file status flags, and the random election timeout.
pub mod Laws
pub mod Time
pub mod Messages
pub mod Format
use Prim.Native.Nat.{bit_or, bit_and}
use plib.Base.{
  ℕ, ◌+◌, ◌*◌, ◌-◌, ◌%◌, ◌^◌, List, ◌∷◌, Bool, if◌then◌else◌, u64, sub64, Run, ok, undefined, ◌>>=◌,
  ◌==◌,
}
use plib.System.{Os, Log, fcntl_getfd, fcntl_setfl, minus_one}

abbrev pub o_nonblock : ℕ
o_nonblock = 0x800

-- ~O_NONBLOCK, as the pattern of an int.
abbrev pub not_o_nonblock : ℕ
not_o_nonblock = 0xffff_f7ff

-- The result of a function that makes system calls, and the log with them.
pub record Returned : Type 0 where
  pub result : ℕ
  pub log : Log

-- The flags come from F_GETFD, the descriptor's flags, and are set by F_SETFL, the file's.
set_flags : Os → (ℕ → ℕ) → ℕ → Log → Returned
set_flags os change fd log =
    let flags = change (os.fcntl_getfd log fd) in
    let asked = fcntl_getfd fd ∷ log in
    let log' = fcntl_setfl fd flags ∷ asked in
    if os.fcntl_setfl asked fd flags
    then record { result = 0; log = log' }
    else record { result = minus_one; log = log' }

unfoldable pub set_fd_nonblock : Os → ℕ → Log → Returned
unfolding set_flags
set_fd_nonblock os = set_flags os (λ flags. bit_or flags o_nonblock)

unfoldable pub rm_fd_nonblock : Os → ℕ → Log → Returned
unfolding set_flags
rm_fd_nonblock os = set_flags os (λ flags. bit_and flags not_o_nonblock)

-- lower + std::rand() % (upper - lower + 1) in uint64_t, where the value of rand() is an argument.
unfoldable pub random_between : ℕ → ℕ → ℕ → Run ℕ
random_between rand lower upper =
    let span = u64 (sub64 upper lower + 1) in
    if span == 0 then undefined else ok (u64 (lower + rand % span))

-- The seconds and nanoseconds of CLOCK_REALTIME as one number.
unfoldable pub current_time_nano : ℕ → ℕ → ℕ
current_time_nano sec nsec = u64 (u64 (u64 (u64 (sec * 1000) * 1000) * 1000) + nsec)

unfoldable pub upd_election_time_nano : ℕ → ℕ → ℕ → Run ℕ
unfolding random_between current_time_nano
upd_election_time_nano rand sec nsec = do
  interval ← random_between rand (1000 * 1000 * 1000) (2000 * 1000 * 1000)
  ok (u64 (current_time_nano sec nsec + interval))
