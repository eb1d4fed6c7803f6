-- ===== src/Errors.antt =====
-- The Python exceptions that the modelled code raises, as values.
use aca_bot.Prelude.{◌≡◌, refl, arith}

pub data Error : Type 0 where
  value_error type_error key_error integrity_error : Error

pub data Result {ℓ} (A : Type ℓ) : Type ℓ where
  ok : A → Result A
  err : Error → Result A

infixl 5 ◌>>=◌
abbrev pub ◌>>=◌ {ℓ κ} : {A : Type ℓ} {B : Type κ} → Result A → (A → Result B) → Result B
ok a >>= f = f a
err e >>= f = err e

-- What a chain of results that succeeded went through.
pub bind-ok :
    {A B : Type 0} (r : Result A) {f : A → Result B} {b : B}
    → (r >>= f) ≡ ok b
    → (a : A) × (r ≡ ok a) × (f a ≡ ok b)
bind-ok (ok a) h = (a, refl, h)
bind-ok (err e) h = absurd (ground arith)
