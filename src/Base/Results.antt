-- ===== src/Base/Results.antt =====
-- Results of code that may raise. `E` names the exceptions of the component at hand.
use mathlib.Core.Path.{◌≡◌, refl}
use mathlib.Core.Logic.{◌⊎◌, inl, inr}
use mathlib.Core.Bool.{Bool, true, false}
use mathlib.Core.Option.{Option, none, some}

pub data Outcome {ℓ κ} (E : Type ℓ) (A : Type κ) : Type (ℓ ⊔ κ) where
  raise : E → Outcome E A
  ok : A → Outcome E A

-- The statements after one that may raise.
abbrev pub and_then {ℓ κ μ} :
    {E : Type ℓ} {A : Type κ} {B : Type μ} → (A → Outcome E B) → Outcome E A → Outcome E B
and_then rest (raise exception) = raise exception
and_then rest (ok result) = rest result

infixl 5 ◌>>=◌
abbrev pub ◌>>=◌ {ℓ κ μ} :
    {E : Type ℓ} {A : Type κ} {B : Type μ} → Outcome E A → (A → Outcome E B) → Outcome E B
first >>= rest = and_then rest first

infixl 5 ◌>>◌
abbrev pub ◌>>◌ {ℓ κ μ} :
    {E : Type ℓ} {A : Type κ} {B : Type μ} → Outcome E A → Outcome E B → Outcome E B
first >> rest = and_then (λ _. rest) first

-- `if not test: raise e`, also an `assert`.
abbrev pub require {ℓ} : {E : Type ℓ} → Bool → E → Outcome E (Unit {0})
require false exception = raise exception
require true exception = ok tt

-- A lookup that raises when nothing is there.
abbrev pub or_raise {ℓ κ} : {E : Type ℓ} {A : Type κ} → Option A → E → Outcome E A
or_raise none e = raise e
or_raise (some a) e = ok a

-- To split on an outcome and keep the equation.
pub Outcome-cases {ℓ κ} :
    {E : Type ℓ} {A : Type κ} (r : Outcome E A) → ((a : A) × (r ≡ ok a)) ⊎ ((e : E) × (r ≡ raise e))
Outcome-cases (ok a) = inl (a, refl)
Outcome-cases (raise e) = inr (e, refl)
