-- ===== src/Prelude/Assoc.antt =====
-- Python's `dict` with text keys: an association list in insertion order. Assigning to a present
-- key keeps its place, a new key goes to the end, and `pop` takes the key out.
use Prim.Native.String.{String}
use mathlib.Core.Path.{◌≡◌, refl, subst}
use mathlib.Core.List.{List, [], ◌∷◌, map}
use mathlib.Core.Option.{Option, none, some}
use mathlib.Core.Logic.{◌⊎◌, inl, inr}
use native.Mathlib.Omega.{arith}
use text.Mathlib.Text.{◌==◌ as str_eq}
use text.Mathlib.TextEquality.{eq_iff}
use text.Mathlib.TextPositions.{eq_refl}
use aca_bot.Prelude.Lists.{All}
use aca_bot.Prelude.Tests.{if◌then◌else◌, Bool-cases}

abbrev pub Dict {ℓ} : Type ℓ → Type ℓ
Dict V = List (String × V)

module _ {ℓ} {V : Type ℓ} where
  unfoldable pub lookup : String → Dict V → Option V
  lookup k [] = none
  lookup k ((j, v) ∷ m) = if str_eq j k then some v else lookup k m

  unfoldable pub insert : String → V → Dict V → Dict V
  insert k v [] = (k, v) ∷ []
  insert k v ((j, w) ∷ m) = if str_eq j k then (k, v) ∷ m else (j, w) ∷ insert k v m

  -- Every binding of the key goes, so that no invariant on the list is needed to read the result.
  unfoldable pub remove : String → Dict V → Dict V
  remove k [] = []
  remove k ((j, v) ∷ m) = let rest = remove k m in if str_eq j k then rest else (j, v) ∷ rest

  abbrev pub values : Dict V → List V
  values = map (λ e. e.1)

module _ {ℓ} {V : Type ℓ} where
  pub lookup-insert :
      (k j : String) (v : V) (m : Dict V)
      → lookup j (insert k v m) ≡ (if str_eq k j then some v else lookup j m)
  unfolding lookup insert
  lookup-insert k j v [] = refl
  lookup-insert k j v ((other, old) ∷ rest) =
      ground (arith, lookup-insert k j v rest, eq_iff k j, eq_iff other j, eq_iff other k)

  pub lookup-remove :
      (k j : String) (m : Dict V)
      → lookup j (remove k m) ≡ (if str_eq k j then none else lookup j m)
  unfolding lookup remove
  lookup-remove k j [] = ground arith
  lookup-remove k j ((i, w) ∷ m) =
      ground (arith, eq_iff k j, eq_iff i k, eq_iff i j, lookup-remove k j m)

  -- What is found after an insertion is the new value, or was found before.
  pub lookup-insert_inv :
      (k j : String) (v w : V) (m : Dict V)
      → lookup j (insert k v m) ≡ some w
      → (w ≡ v) ⊎ (lookup j m ≡ some w)
  lookup-insert_inv k j v w m h = elim (Bool-cases (str_eq k j)) [
    | inl e ↦ inl (ground (arith, lookup-insert k j v m))
    | inr e ↦ inr (ground (arith, lookup-insert k j v m))
  ]

  pub lookup-empty : (k : String) → lookup {V = V} k [] ≡ none
  unfolding lookup
  lookup-empty k = refl

  pub lookup-insert_self : (k : String) (v : V) (m : Dict V) → lookup k (insert k v m) ≡ some v
  lookup-insert_self k v m = simp (lookup-insert, eq_refl)

  pub lookup-remove_self : (k : String) (m : Dict V) → lookup k (remove k m) ≡ none
  lookup-remove_self k m = simp (lookup-remove, eq_refl)

pub ruleset dict_laws = (lookup-insert, lookup-remove, lookup-empty)

module _ {ℓ} {V : Type ℓ} where
  -- No key stands twice.
  abbrev pub IsDistinct : Dict V → Type ℓ
  IsDistinct [] = Unit
  IsDistinct ((k, v) ∷ m) = (lookup k m ≡ none) × IsDistinct m

  pub insert-IsDistinct :
      (k : String) (v : V) (m : Dict V) → IsDistinct m → IsDistinct (insert k v m)
  unfolding insert lookup
  insert-IsDistinct k v [] d = (refl, tt)
  insert-IsDistinct k v ((j, w) ∷ m) d = elim (Bool-cases (str_eq j k)) [
    | inl e ↦ rw (e, insert) (subst (λ (i : String). lookup i m ≡ none) ((eq_iff j k).0 e) d.0, d.1)
    | inr e ↦
        rw (e, insert)
          (rw lookup-insert (ground (arith, eq_iff k j, eq_iff j k)), insert-IsDistinct k v m d.1)
  ]

  All-lookup_tail :
      (k : String) (w : V) (key : V → String) (m n : Dict V)
      → lookup k n ≡ none
      → All (λ v. lookup (key v) n ≡ some v) (values m)
      → All (λ v. lookup (key v) ((k, w) ∷ n) ≡ some v) (values m)
  unfolding lookup
  All-lookup_tail k w key [] n h a = tt
  All-lookup_tail k w key ((j, v) ∷ m) n h a = (
    elim (Bool-cases (str_eq k (key v))) [
      | inl e ↦ absurd (
          let p : lookup (key v) n ≡ none =
            subst (λ (i : String). lookup i n ≡ none) ((eq_iff k (key v)).0 e) h in
          ground arith)
      | inr e ↦ rw e a.0
    ],
    All-lookup_tail k w key m n h a.1,
  )

  -- Every value is found under its own key.
  pub All-lookup :
      (key : V → String) (m : Dict V)
      → IsDistinct m
      → ((k : String) (v : V) → lookup k m ≡ some v → key v ≡ k)
      → All (λ v. lookup (key v) m ≡ some v) (values m)
  unfolding lookup
  All-lookup key [] d h = tt
  All-lookup key ((k, v) ∷ m) d h =
      let own : key v ≡ k = h k v (rw (eq_refl k) refl) in
      (
        rw (own, eq_refl k) refl,
        All-lookup_tail k v key m m d.0 (
            All-lookup key m d.1 λ j w found. h j w (elim (Bool-cases (str_eq k j)) [
              | inl e ↦ absurd (
                  let p : lookup j m ≡ none =
                    subst (λ (i : String). lookup i m ≡ none) ((eq_iff k j).0 e) d.0 in
                  ground arith)
              | inr e ↦ rw e found
            ])),
      )
