-- ===== src/FdUtils/Laws.antt =====
-- Bounds of the random values.
use plib.Base.{
  ℕ, ◌+◌, ◌*◌, ◌^◌, ◌≤◌, ◌<◌, ◌≡◌, arith, ap, refl, ◌∷◌, ◌-◌, ok, undefined, ◌%◌, sub64, u64,
}
use plib.FdUtils.{random_between, upd_election_time_nano, set_fd_nonblock, rm_fd_nonblock}
use Prim.Native.Nat.{bit_or, bit_and}
use plib.System.{Os, Log, fcntl_getfd, fcntl_setfl}
use native.Mathlib.Nat.{mod-lt}

-- For a range of 64-bit values that is not empty and not all of them a random value is given, and
-- it lies in the range.
pub random_between_bounds :
    (rand lower upper : ℕ)
    → lower ≤ upper
    → upper < 2 ^ 64
    → upper + 1 < lower + 2 ^ 64
    → (v : ℕ) × (random_between rand lower upper ≡ ok v) × (lower ≤ v) × (v ≤ upper)
unfolding random_between
random_between_bounds rand lower upper h fits room =
    let span = u64 (sub64 upper lower + 1) in
    let size : span ≡ upper + 1 - lower = omega arith in
    let small : rand % span < span = mod-lt rand (omega arith) in
    (u64 (lower + rand % span), ground (arith, size), omega arith, omega arith)

-- Over the whole range the span wraps to zero, and the division by it is undefined.
pub random_between_full : (rand : ℕ) → random_between rand 0 (2 ^ 64 - 1) ≡ undefined
unfolding random_between
random_between_full rand = refl

-- The next election is due one to two seconds after the time of the clock, for a time before
-- 2 ^ 34 seconds whose nanoseconds are below a second.
pub upd_election_time_bounds :
    (rand sec nsec : ℕ)
    → nsec < 10 ^ 9
    → sec < 2 ^ 34
    → (t : ℕ) × (upd_election_time_nano rand sec nsec ≡ ok t)
      × (sec * 10 ^ 9 + nsec + 10 ^ 9 ≤ t)
      × (t ≤ sec * 10 ^ 9 + nsec + 2 * 10 ^ 9)
unfolding upd_election_time_nano
upd_election_time_bounds rand sec nsec h k = (
  sec * 10 ^ 9 + nsec + (10 ^ 9 + rand % (10 ^ 9 + 1)),
  ap ok (omega arith),
  omega arith,
  omega arith,
)

-- The two calls that setting a descriptor non-blocking makes.
pub set_fd_nonblock_log :
    (os : Os) (fd : ℕ) (log : Log)
    → (set_fd_nonblock os fd log).log
      ≡ fcntl_setfl fd (bit_or (os.fcntl_getfd log fd) 0x800) ∷ fcntl_getfd fd ∷ log
unfolding set_fd_nonblock
set_fd_nonblock_log os fd log = ground arith

pub rm_fd_nonblock_log :
    (os : Os) (fd : ℕ) (log : Log)
    → (rm_fd_nonblock os fd log).log
      ≡ fcntl_setfl fd (bit_and (os.fcntl_getfd log fd) 0xffff_f7ff) ∷ fcntl_getfd fd ∷ log
unfolding rm_fd_nonblock
rm_fd_nonblock_log os fd log = ground arith
