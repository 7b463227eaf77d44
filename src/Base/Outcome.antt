-- ===== src/Base/Outcome.antt =====
-- What a C++ function that may stop the simulator gives: its value, or an abort at a failed
-- `assert`, a `panic`, or a null or out-of-range access.
use mathlib.Core.Option.{Option, none, some}
use mathlib.Core.Bool.{Bool, true, false}
use mathlib.Core.Path.{◌≡◌, refl}
use mathlib.Core.Logic.{◌⊎◌, inl, inr}
use patch_tectreee.Base.Tests.{if◌then◌else◌}

pub data Outcome {ℓ} (A : Type ℓ) : Type ℓ where
  ok : A → Outcome A
  abort : Outcome A

infixl 5 ◌>>=◌ ◌>>◌
abbrev pub ◌>>=◌ {ℓ κ} : {A : Type ℓ} {B : Type κ} → Outcome A → (A → Outcome B) → Outcome B
ok a >>= f = f a
abort >>= f = abort

abbrev pub ◌>>◌ {ℓ} : {B : Type ℓ} → Outcome (Unit {0}) → Outcome B → Outcome B
m >> k = m >>= λ _. k

-- `assert(b)`.
abbrev pub assert : Bool → Outcome (Unit {0})
assert true = ok tt
assert false = abort

-- A pointer that is dereferenced, or an element that has to be in range.
abbrev pub deref {ℓ} : {A : Type ℓ} → Option A → Outcome A
deref none = abort
deref (some a) = ok a

pub assert-if {ℓ} :
    {A : Type ℓ} (b : Bool) (a : A) → (assert b >> ok a) ≡ (if b then ok a else abort)
assert-if true a = refl
assert-if false a = refl

pub Outcome-cases {ℓ} : {A : Type ℓ} (o : Outcome A) → (o ≡ abort) ⊎ ((a : A) × (o ≡ ok a))
Outcome-cases abort = inl refl
Outcome-cases (ok a) = inr (a, refl)
