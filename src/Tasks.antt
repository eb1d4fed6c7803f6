-- ===== src/Tasks.antt =====
-- Operations that may raise an exception and change a state, for the parts that call others.
use aca_bot.Prelude.{◌≡◌, refl, arith}
use aca_bot.Errors.{Error, Result, ok, err}

-- What may fail and changes the world.
abbrev pub Task : (W A : Type 0) → Type 0
Task W A = W → Result A × W

-- Where a task fails, the chain ends with its error.
abbrev pub after : {W A B : Type 0} → (A → Task W B) → Result A × W → Result B × W
after f (ok a, w) = f a w
after f (err e, w) = (err e, w)

infixl 5 ◌>>=◌
abbrev pub ◌>>=◌ : {W A B : Type 0} → Task W A → (A → Task W B) → Task W B
(t >>= f) w = after f (t w)

infixl 5 ◌>>◌
abbrev pub ◌>>◌ : {W A B : Type 0} → Task W A → Task W B → Task W B
t >> u = t >>= (λ a. u)

abbrev pub lift : {W A : Type 0} → Result A → Task W A
lift r w = (r, w)

-- A `try` block: its result, or the error that was caught, as a value.
abbrev pub attempt : {W A : Type 0} → Task W A → Task W (Result A)
attempt t w = (ok (t w).0, (t w).1)

-- What a chain of tasks that succeeded went through.
pub bind_ok :
    {W A B : Type 0} (t : Task W A) (f : A → Task W B) (w v : W) (b : B)
    → (t >>= f) w ≡ (ok b, v)
    → (a : A) × (u : W) × (t w ≡ (ok a, u)) × (f a u ≡ (ok b, v))
bind_ok t f w v b h = split (t w) refl h
  where
    split :
        (r : Result _ × _)
        → t w ≡ r
        → after f r ≡ (ok b, v)
        → (a : _) × (u : _) × (t w ≡ (ok a, u)) × (f a u ≡ (ok b, v))
    split (ok a, u) e k = (a, u, e, k)
    split (err x, u) e k = absurd (ground arith)

-- What holds after both ends of a chain holds after it.
pub bind-holds :
    {W A B : Type 0} (P : W → Type 0) (t : Task W A) (f : A → Task W B) (w : W)
    → ((a : A) (u : W) → t w ≡ (ok a, u) → P (f a u).1)
    → ((e : Error) (u : W) → t w ≡ (err e, u) → P u)
    → P ((t >>= f) w).1
bind-holds P t f w h k = split (t w) refl
  where
    split : (r : Result _ × _) → t w ≡ r → P (after f r).1
    split (ok a, u) e = h a u e
    split (err x, u) e = k x u e
