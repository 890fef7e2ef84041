-- ===== src/EpollServer/Total/Rules.antt =====
-- Rules to show that a run does not use up its fuel.
use plib.Base.{Ends, ◌≡◌, refl, Run, ok, exits, undefined, spins, Bool, true, false, if◌then◌else◌}
use plib.EpollServer.State.{Server, M, ◌>>=◌, lift}
use plib.EpollServer.Safety.Rules.{Holds}

pub Ends-bind :
    {A B : Type 0} (P : Server → Type 0) (m : M A) (f : A → M B) (s : Server)
    → Ends (m s)
    → Holds P (m s)
    → ((a : A) (t : Server) → P t → Ends (f a t))
    → Ends ((m >>= f) s)
Ends-bind {A} {B} P m f s = go (m s)
  where
    go :
        (r : Run (A × Server))
        → Ends r
        → Holds P r
        → ((a : A) (t : Server) → P t → Ends (f a t))
        → Ends (elim r as (λ x. Run (B × Server)) [
          | ok (a, t) ↦ f a t
          | undefined ↦ undefined
          | exits code ↦ exits code
          | spins ↦ spins
        ])
    go (ok (a, t)) e h k = k a t h
    go undefined e h k = tt
    go (exits c) e h k = tt
    go spins e h k = absurd e

pub Ends-lift_bind :
    {A B : Type 0} (r : Run A) (f : A → M B) (s : Server)
    → Ends r
    → ((a : A) → r ≡ ok a → Ends (f a s))
    → Ends ((lift r >>= f) s)
Ends-lift_bind (ok a) f s e h = h a refl
Ends-lift_bind undefined f s e h = tt
Ends-lift_bind (exits c) f s e h = tt
Ends-lift_bind spins f s e h = absurd e

pub Ends-if_run :
    {A : Type 0} (c : Bool) (m n : M A) (s : Server)
    → Ends (m s)
    → Ends (n s)
    → Ends ((if c then m else n) s)
Ends-if_run true m n s h k = h
Ends-if_run false m n s h k = k

-- A Holds that says nothing.
pub any_Holds : {A : Type 0} (m : M A) (s : Server) → Holds (λ t. Unit {0}) (m s)
any_Holds {A} m s = go (m s)
  where
    go : (r : Run (A × Server)) → Holds (λ t. Unit {0}) r
    go (ok (a, t)) = tt
    go undefined = tt
    go (Run.exits c) = tt
    go spins = tt
