-- ===== src/Common/Results.antt =====
-- Calls that may throw: a value, or what was thrown.
use mathlib.Core.Path.{◌≡◌, refl, ap}
use mathlib.Core.Logic.{◌⊎◌, inl, inr}
use mathlib.Core.Option.{Option, none, some}

pub data Result {ℓ κ} (E : Type ℓ) (A : Type κ) : Type (ℓ ⊔ κ) where
  ok : A → Result E A
  err : E → Result E A

pub ok_injective {ℓ κ} :
    {E : Type ℓ} {A : Type κ} {a b : A} → ◌≡◌ {A = Result E A} (ok a) (ok b) → a ≡ b
ok_injective h = cc

infixl 1 ◌>>=◌
abbrev pub ◌>>=◌ {ℓ κ ν} :
    {E : Type ℓ} {A : Type κ} {B : Type ν} → Result E A → (A → Result E B) → Result E B
◌>>=◌ (ok a) f = f a
◌>>=◌ (err e) f = err e

-- What is there, or a throw.
abbrev pub require {ℓ κ} : {E : Type ℓ} {A : Type κ} → E → Option A → Result E A
require e none = err e
require e (some a) = ok a

pub bind-ok {ℓ κ ν} :
    {E : Type ℓ} {A : Type κ} {B : Type ν} (r : Result E A) (f : A → Result E B) (b : B)
    → ◌≡◌ {A = Result E B} (r >>= f) (ok b)
    → (a : A) × (r ≡ ok a) × (f a ≡ ok b)
bind-ok (ok a) f b h = (a, refl, h)
bind-ok (err e) f b h = absurd (cc)

pub require-ok {ℓ κ} :
    {E : Type ℓ} {A : Type κ} (e : E) (o : Option A) (a : A) → require e o ≡ ok a → o ≡ some a
require-ok e none a h = absurd (cc)
require-ok e (some b) a h = ap some (ok_injective h)

pub Result-cases {ℓ κ} :
    {E : Type ℓ} {A : Type κ} (r : Result E A) → ((a : A) × (r ≡ ok a)) ⊎ ((e : E) × (r ≡ err e))
Result-cases (ok a) = inl (a, refl)
Result-cases (err e) = inr (e, refl)
