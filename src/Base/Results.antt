-- ===== src/Base/Results.antt =====
-- `Result` of the source, with `?` as bind.
use mathlib.Core.Path.{◌≡◌, refl}
use mathlib.Core.Option.{Option, none, some}

pub data Result {ℓ κ} (E : Type ℓ) (A : Type κ) : Type (ℓ ⊔ κ) where
  ok : A → Result E A
  err : E → Result E A

-- The second part of a fallible chain runs on the value of the first.
abbrev pub and_then {ℓ κ ν} :
    {E : Type ℓ} {A : Type κ} {B : Type ν} → Result E A → (A → Result E B) → Result E B
and_then (ok a) f = f a
and_then (err e) f = err e

-- `ok_or`.
abbrev pub ok_or {ℓ κ} : {E : Type ℓ} {A : Type κ} → Option A → E → Result E A
ok_or none e = err e
ok_or (some a) e = ok a

pub ok_inj {ℓ κ} : {E : Type ℓ} {A : Type κ} {a b : A} → ◌≡◌ {A = Result E A} (ok a) (ok b) → a ≡ b
ok_inj h = cc

pub and_then_ok {ℓ κ ν} :
    {E : Type ℓ} {A : Type κ} {B : Type ν} {b : B} (o : Result E A) (f : A → Result E B)
    → and_then o f ≡ ok b
    → (a : A) × (o ≡ ok a) × (f a ≡ ok b)
and_then_ok (ok a) f h = (a, refl, h)
and_then_ok (err e) f h = absurd cc

-- What holds of the second part on every value of the first, and of every error.
pub and_then_intro {ℓ κ ν μ} :
    {E : Type ℓ} {A : Type κ} {B : Type ν} (P : Result E B → Type μ) (r : Result E A)
    {f : A → Result E B}
    → ((a : A) → r ≡ ok a → P (f a))
    → ((e : E) → P (err e))
    → P (and_then r f)
and_then_intro P (ok a) hf he = hf a refl
and_then_intro P (err e) hf he = he e
