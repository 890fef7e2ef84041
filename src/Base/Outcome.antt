-- ===== src/Base/Outcome.antt =====
-- How a run of the C++ code ends. `undefined` is undefined behaviour, such as an access outside
-- an object; `exits` is a call of exit(); `spins` means that a loop's fuel ran out.
use Prim.Native.Nat.{ℕ}
use mathlib.Core.Path.{◌≡◌, refl}
use plib.Base.Tests.{if◌then◌else◌}
use mathlib.Core.Bool.{Bool, true, false}

pub data Run {ℓ} (A : Type ℓ) : Type ℓ where
  ok : A → Run A
  undefined : Run A
  exits : ℕ → Run A
  spins : Run A

infixl 5 ◌>>=◌ ◌>>◌
abbrev pub ◌>>=◌ {ℓ κ} : {A : Type ℓ} {B : Type κ} → Run A → (A → Run B) → Run B
ok a >>= f = f a
undefined >>= f = undefined
exits code >>= f = exits code
spins >>= f = spins

abbrev pub ◌>>◌ {ℓ} : {B : Type ℓ} → Run (Unit {0}) → Run B → Run B
m >> k = m >>= λ _. k

pub >>=-ok {ℓ κ} :
    {A : Type ℓ} {B : Type κ} (m : Run A) (f : A → Run B) (a : A) → m ≡ ok a → (m >>= f) ≡ f a
>>=-ok (ok b) f a e = ap_ok e
  where
    ap_ok : ok b ≡ ok a → f b ≡ f a
    ap_ok e = cc
>>=-ok undefined f a e = cc
>>=-ok (exits c) f a e = cc
>>=-ok spins f a e = cc

-- The run does not use up its fuel.
abbrev pub Ends : {A : Type 0} → Run A → Type 0
Ends (ok a) = Unit {0}
Ends undefined = Unit {0}
Ends (exits code) = Unit {0}
Ends spins = ⊥

pub Ends->>= :
    {A B : Type 0} (m : Run A) (f : A → Run B)
    → Ends m
    → ((a : A) → m ≡ ok a → Ends (f a))
    → Ends (m >>= f)
Ends->>= (ok a) f h k = k a refl
Ends->>= undefined f h k = tt
Ends->>= (exits c) f h k = tt
Ends->>= spins f h k = absurd h

pub Ends-if : {A : Type 0} (c : Bool) (x y : Run A) → Ends x → Ends y → Ends (if c then x else y)
Ends-if true x y h k = h
Ends-if false x y h k = k

-- What a run gives satisfies P, if it ends normally.
abbrev pub Always : {A : Type 0} → (A → Type 0) → Run A → Type 0
Always P (ok a) = P a
Always P undefined = Unit {0}
Always P (exits code) = Unit {0}
Always P spins = Unit {0}

pub Always->>= :
    {A B : Type 0} (P : A → Type 0) (Q : B → Type 0) (m : Run A) (f : A → Run B)
    → Always P m
    → ((a : A) → P a → Always Q (f a))
    → Always Q (m >>= f)
Always->>= P Q (ok a) f h k = k a h
Always->>= P Q undefined f h k = tt
Always->>= P Q (exits c) f h k = tt
Always->>= P Q spins f h k = tt

pub Always-map :
    {A : Type 0} (P Q : A → Type 0) (m : Run A) → ((a : A) → P a → Q a) → Always P m → Always Q m
Always-map P Q (ok a) f h = f a h
Always-map P Q undefined f h = tt
Always-map P Q (exits c) f h = tt
Always-map P Q spins f h = tt

pub Always-if :
    {A : Type 0} (P : A → Type 0) (c : Bool) (x y : Run A)
    → Always P x
    → Always P y
    → Always P (if c then x else y)
Always-if P true x y h k = h
Always-if P false x y h k = k

pub Always-any : {A : Type 0} (m : Run A) → Always (λ a. Unit {0}) m
Always-any (ok a) = tt
Always-any undefined = tt
Always-any (exits c) = tt
Always-any spins = tt
