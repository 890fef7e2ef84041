-- ===== src/EpollServer/Safety/Rules.antt =====
-- Rules to show that the parts of the event loop keep a property of the server's state.
use plib.Base.{
  ℕ, ◌≡◌, ◌≢◌, refl, List, ◌∷◌, none, Run, ok, exits, undefined, spins, length, Bool, true, false,
  if◌then◌else◌,
}
use plib.System.{Call, close, write, sendto}
use plib.StdMap.{find}
use plib.Vote.{ReqeustVoteResp}
use plib.Vote.Wire.{IsVoteResp, resp_wire}
use plib.EpollServer.State.{Server, M, ◌>>=◌, lift}
use plib.EpollServer.Accept.{got}

-- The state that a run ends in satisfies P, if it ends normally.
abbrev pub Holds : {A : Type 0} → (Server → Type 0) → Run (A × Server) → Type 0
Holds P (ok (a, t)) = P t
Holds P undefined = Unit {0}
Holds P (exits code) = Unit {0}
Holds P spins = Unit {0}

pub Holds-bind :
    {A B : Type 0} (P Q : Server → Type 0) (m : M A) (f : A → M B) (s : Server)
    → Holds P (m s)
    → ((a : A) (t : Server) → P t → Holds Q (f a t))
    → Holds Q ((m >>= f) s)
Holds-bind {A} {B} P Q m f s h k = go (m s) h
  where
    go :
        (r : Run (A × Server))
        → Holds P r
        → Holds Q (elim r [
          | ok (a, t) ↦ f a t
          | undefined ↦ undefined
          | exits code ↦ exits code
          | spins ↦ spins
        ])
    go (ok (a, t)) h = k a t h
    go undefined h = tt
    go (exits c) h = tt
    go spins h = tt

-- The state in between is the one that the first run ends in.
pub Holds-bind_run :
    {A B : Type 0} (Q : Server → Type 0) (m : M A) (f : A → M B) (s : Server)
    → ((a : A) (t : Server) → m s ≡ ok (a, t) → Holds Q (f a t))
    → Holds Q ((m >>= f) s)
Holds-bind_run {A} {B} Q m f s k = go (m s) refl
  where
    go :
        (r : Run (A × Server))
        → m s ≡ r
        → Holds Q (elim r [
          | ok (a, t) ↦ f a t
          | undefined ↦ undefined
          | exits code ↦ exits code
          | spins ↦ spins
        ])
    go (ok (a, t)) e = k a t e
    go undefined e = tt
    go (exits c) e = tt
    go spins e = tt

pub Holds-map :
    {A : Type 0} (P Q : Server → Type 0) (r : Run (A × Server))
    → ((t : Server) → P t → Q t)
    → Holds P r
    → Holds Q r
Holds-map P Q (ok (a, t)) f h = f t h
Holds-map P Q undefined f h = tt
Holds-map P Q (exits code) f h = tt
Holds-map P Q spins f h = tt

pub Holds-if :
    {A : Type 0} (P : Server → Type 0) (c : Bool) (x y : Run (A × Server))
    → Holds P x
    → Holds P y
    → Holds P (if c then x else y)
Holds-if P true x y h k = h
Holds-if P false x y h k = k

-- The same where the branches are still to be run.
pub Holds-if_run :
    {A : Type 0} (P : Server → Type 0) (c : Bool) (m n : M A) (s : Server)
    → Holds P (m s)
    → Holds P (n s)
    → Holds P ((if c then m else n) s)
Holds-if_run P true m n s h k = h
Holds-if_run P false m n s h k = k

-- A fallible value is used for what follows.
pub Holds-lift_bind :
    {A B : Type 0} (P : Server → Type 0) (r : Run A) (f : A → M B) (s : Server)
    → ((a : A) → r ≡ ok a → Holds P (f a s))
    → Holds P ((lift r >>= f) s)
Holds-lift_bind P (ok a) f s h = h a refl
Holds-lift_bind P undefined f s h = tt
Holds-lift_bind P (exits c) f s h = tt
Holds-lift_bind P spins f s h = tt

-- The call does not close a listening socket, the udp socket or a registered client's socket, it
-- sends no datagram but the udp socket's "got", and it writes nothing.
abbrev pub IsSilent : Server → Call → Type 0
IsSilent s (close fd) = (fd ≢ s.listenfd) × (fd ≢ s.udpfd) × (find fd s.clientmap ≡ none)
IsSilent s (write fd bytes) = ⊥
IsSilent s (sendto fd bytes) = (fd ≡ s.udpfd) × (bytes ≡ got)
IsSilent s _ = Unit {0}

-- The same, or it writes the whole message of a response whose fields fit their widths.
abbrev pub IsHarmless : Server → Call → Type 0
IsHarmless s (write fd bytes) = (r : ReqeustVoteResp) × IsVoteResp r × (bytes ≡ resp_wire r)
IsHarmless s c = IsSilent s c

pub silent-IsHarmless : (s : Server) (c : Call) → IsSilent s c → IsHarmless s c
silent-IsHarmless s (write fd bytes) h = absurd h
silent-IsHarmless s _ h = h

-- The property is kept when a call is made that is harmless and writes nothing, and when
-- recvbuffer is written to.
pub record Closed (P : Server → Type 0) : Type 0 where
  pub call : (s : Server) (c : Call) → IsSilent s c → P s → P (record s { log = c ∷ s.log })
  pub buffer :
      (s : Server) (bytes : List ℕ)
      → length bytes ≡ length s.recvbuffer
      → P s
      → P (record s { recvbuffer = bytes })

pub Holds-both :
    {A : Type 0} (P Q : Server → Type 0) (r : Run (A × Server))
    → Holds P r
    → Holds Q r
    → Holds (λ s. P s × Q s) r
Holds-both P Q (ok (a, t)) h k = (h, k)
Holds-both P Q undefined h k = tt
Holds-both P Q (exits code) h k = tt
Holds-both P Q spins h k = tt
