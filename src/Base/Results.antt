-- ===== src/Base/Results.antt =====
-- What a C function comes to: it returns, or it stops the program.
use mathlib.Core.Path.{◌≡◌, refl, ap}
use mathlib.Core.Logic.{◌⊎◌, inl, inr}

-- `abort()` after a message, a failed `assert`, an access outside the memory at hand (undefined in
-- C), or a loop that is not done when its fuel or its script of outside events ends.
pub data Fault : Type 0 where
  aborted assertion wild unfinished : Fault

pub data Outcome {ℓ} (A : Type ℓ) : Type ℓ where
  ok : A → Outcome A
  fault : Fault → Outcome A

pub fault-ok : {A : Type 0} {e : Fault} {x : A} → fault e ≡ ok x → ⊥
fault-ok h = cc

pub ok-inj : {A : Type 0} {x y : A} → ok x ≡ ok y → x ≡ y
ok-inj h = cc

pub ok-value : {A B : Type 0} {x y : A × B} → ok x ≡ ok y → x.0 ≡ y.0
ok-value h = ap (λ t. t.0) (ok-inj h)

pub Outcome-cases :
    {A : Type 0} (o : Outcome A) → ((x : A) × (o ≡ ok x)) ⊎ ((e : Fault) × (o ≡ fault e))
Outcome-cases (ok x) = inl (x, refl)
Outcome-cases (fault e) = inr (e, refl)
