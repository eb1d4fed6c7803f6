-- ===== src/Texts.antt =====
-- Membership in lists of texts that were sorted or joined.
use aca_bot.Prelude.{
  String, Bool, true, ◌||◌, List, [], ◌∷◌, ◌++◌, ◌≡◌, refl, arith, inl, inr, Bool-cases, sort,
  place, str_eq, eq_refl, All,
}
use aca_bot.Runs.Records.{contains}

module _ (before : String → String → Bool) where
  pub contains-place :
      (k x : String) (xs : List String)
      → contains (place before x xs) k ≡ (str_eq x k || contains xs k)
  unfolding place contains
  contains-place k x [] = refl
  contains-place k x (y ∷ ys) = elim (Bool-cases (before x y)) [
    | inl e ↦ rw e refl
    | inr e ↦ rw e (rw (contains-place k x ys) (ground arith))
  ]

  pub contains-sort : (k : String) (xs : List String) → contains (sort before xs) k ≡ contains xs k
  unfolding sort contains
  contains-sort k [] = refl
  contains-sort k (x ∷ xs) = rw (contains-place k x (sort before xs), contains-sort k xs) refl

pub contains_self : (x : String) (xs : List String) → contains (x ∷ xs) x ≡ true
unfolding contains
contains_self x xs = rw eq_refl refl

pub contains-append :
    (k : String) (xs ys : List String) → contains (xs ++ ys) k ≡ (contains xs k || contains ys k)
unfolding contains
contains-append k [] ys = refl
contains-append k (x ∷ xs) ys = rw (contains-append k xs ys) (ground arith)

-- What holds of the members of a list holds of all of it.
pub All-contains {ℓ κ} :
    {P : String → Type ℓ} {Q : String → Type κ} (xs : List String)
    → ((i : String) → contains xs i ≡ true → P i → Q i)
    → All P xs
    → All Q xs
unfolding contains
All-contains [] f h = tt
All-contains (x ∷ xs) f h =
    (f x (contains_self x xs) h.0, All-contains xs (λ i e. f i (ground arith)) h.1)
