-- ===== src/Ingest/Cover.antt =====
-- The windows of a list of facts.
use native.Mathlib.Nat.{zero-add, suc-add}
use mathlib.Core.List.{append-nil}
use aca_bot.Prelude.{
  ℕ, zero, suc, ◌+◌, ◌-◌, ◌≤◌, true, false, List, [], ◌∷◌, ◌++◌, length, take, drop, ◌⊎◌, String,
  leb, ◌≡◌, refl, sym, ap, ◌∙◌, arith, inl, inr, Bool-cases, if◌then◌else◌, All, length-take-le,
  length-drop, leb→le,
}
use aca_bot.Errors.{ok, bind-ok}
use aca_bot.Ingest.Facts.{ConversationFact}
use aca_bot.Ingest.Windows.{
  FactWindow, fact_ids, windows_from, slice_fact_windows, normalized_window_size, step_size,
}

-- The facts behind the first `n` of every window.
abbrev behind : ℕ → List FactWindow → List ConversationFact
behind n [] = []
behind n (window ∷ windows) = drop n window.facts ++ behind n windows

-- The facts of the windows, without the first `n` of every window but the first.
abbrev pub joined : ℕ → List FactWindow → List ConversationFact
joined n [] = []
joined n (window ∷ windows) = window.facts ++ behind n windows

module _ {ℓ} {A : Type ℓ} where
  take_all : (n : ℕ) (xs : List A) → length xs ≤ n → take n xs ≡ xs
  take_all zero [] h = refl
  take_all zero (x ∷ xs) h = absurd (omega arith)
  take_all (suc n) [] h = refl
  take_all (suc n) (x ∷ xs) h = ap (λ (l : List A). x ∷ l) (take_all n xs (omega arith))

  take-drop : (n : ℕ) (xs : List A) → take n xs ++ drop n xs ≡ xs
  take-drop zero xs = refl
  take-drop (suc n) [] = refl
  take-drop (suc n) (x ∷ xs) = ap (λ (l : List A). x ∷ l) (take-drop n xs)

  drop_nil : (n : ℕ) → drop {A = A} n [] ≡ []
  drop_nil zero = refl
  drop_nil (suc n) = refl

  drop-drop : (m n : ℕ) (xs : List A) → drop m (drop n xs) ≡ drop (n + m) xs
  drop-drop m zero xs = rw zero-add refl
  drop-drop m (suc n) [] = drop_nil m ∙ sym (drop_nil (suc n + m))
  drop-drop m (suc n) (x ∷ xs) = rw suc-add (drop-drop m n xs)

  drop-take-drop : (m n : ℕ) (xs : List A) → m ≤ n → drop m (take n xs) ++ drop n xs ≡ drop m xs
  drop-take-drop zero n xs h = take-drop n xs
  drop-take-drop (suc m) zero xs h = absurd (omega arith)
  drop-take-drop (suc m) (suc n) [] h = refl
  drop-take-drop (suc m) (suc n) (x ∷ xs) h = drop-take-drop m n xs (omega arith)

abbrev Rest : (fuel size step : ℕ) → (rest : List ConversationFact) → List FactWindow → Type 0
Rest fuel size step rest later =
    ((leb (length rest) size ≡ true) × (later ≡ []))
    ⊎ ((leb (length rest) size ≡ false) × (windows_from fuel size step (drop step rest) ≡ ok later))

rest_cases :
    (fuel size step : ℕ) (rest : List ConversationFact) (later : List FactWindow)
    → (if leb (length rest) size then ok [] else windows_from fuel size step (drop step rest))
      ≡ ok later
    → Rest fuel size step rest later
rest_cases fuel size step rest later h = elim (Bool-cases (leb (length rest) size)) [
  | inl e ↦ inl (e, ground arith)
  | inr e ↦ inr (e, ground arith)
]

-- What a round that succeeds puts in front of the later windows.
round :
    (fuel size step : ℕ) (fact : ConversationFact) (facts : List ConversationFact)
    (windows : List FactWindow)
    → windows_from (suc fuel) size step (fact ∷ facts) ≡ ok windows
    → (ids : List String) × (later : List FactWindow) × (windows
        ≡ record { facts = take size (fact ∷ facts); fact_ids = ids } ∷ later)
      × (fact_ids (take size (fact ∷ facts)) ≡ ok ids)
      × Rest fuel size step (fact ∷ facts) later
unfolding windows_from
round fuel size step fact facts windows h =
    let (ids, found, h1) = bind-ok (fact_ids (take size (fact ∷ facts))) h in
    let (later, rest, h2) =
      bind-ok
        (if leb (length (fact ∷ facts)) size
          then ok []
          else windows_from fuel size step (drop step (fact ∷ facts)))
        h1 in
    (ids, later, ground arith, found, rest_cases fuel size step (fact ∷ facts) later rest)

no_facts :
    (fuel size step : ℕ) (windows : List FactWindow)
    → windows_from fuel size step [] ≡ ok windows
    → windows ≡ []
unfolding windows_from
no_facts fuel size step windows h = ground arith

-- Windows that are not too long, not empty, and have the ids of their facts.
abbrev pub IsWindow : (size : ℕ) → FactWindow → Type 0
IsWindow size window =
    (1 ≤ length window.facts)
    × (length window.facts ≤ size)
    × (fact_ids window.facts ≡ ok window.fact_ids)

no_fuel :
    (size step : ℕ) (fact : ConversationFact) (facts : List ConversationFact)
    (windows : List FactWindow)
    → windows_from 0 size step (fact ∷ facts) ≡ ok windows
    → windows ≡ []
unfolding windows_from
no_fuel size step fact facts windows h = ground arith

take_pos :
    (n : ℕ) (fact : ConversationFact) (facts : List ConversationFact)
    → 1 ≤ n
    → 1 ≤ length (take n (fact ∷ facts))
take_pos zero fact facts h = absurd (omega arith)
take_pos (suc n) fact facts h = omega arith

module _ (size step : ℕ) (pos : 1 ≤ step) (le : step ≤ size) where
  behind-windows_from :
      (fuel : ℕ) (facts : List ConversationFact) (windows : List FactWindow)
      → length facts ≤ fuel
      → windows_from fuel size step facts ≡ ok windows
      → behind (size - step) windows ≡ drop (size - step) facts
  behind-windows_from fuel [] windows en h =
      rw (no_facts fuel size step windows h) (sym (drop_nil (size - step)))
  behind-windows_from zero (fact ∷ facts) windows en h = absurd (omega arith)
  behind-windows_from (suc fuel) (fact ∷ facts) windows en h =
      let all = fact ∷ facts in
      let (ids, later, split, found, rest) = round fuel size step fact facts windows h in
      let short : length (drop step all) ≤ fuel = omega (arith, length-drop step all) in
      elim rest [
        | inl (e, last) ↦
            rw (split, last, append-nil, take_all size all (leb→le (length all) size e)) refl
        | inr (e, next) ↦ rw split (
            ap (λ (l : List ConversationFact). drop (size - step) (take size all) ++ l)
              (behind-windows_from fuel (drop step all) later short next
                ∙ drop-drop (size - step) step all
                ∙ ap (λ (k : ℕ). drop k all) whole)
            ∙ drop-take-drop (size - step) size all (omega arith))
      ]
    where
      whole : step + (size - step) ≡ size
      whole = omega arith

  -- All facts, each as often as it came.
  joined-windows_from :
      (fuel : ℕ) (facts : List ConversationFact) (windows : List FactWindow)
      → length facts ≤ fuel
      → windows_from fuel size step facts ≡ ok windows
      → joined (size - step) windows ≡ facts
  joined-windows_from fuel [] windows en h = rw (no_facts fuel size step windows h) refl
  joined-windows_from zero (fact ∷ facts) windows en h = absurd (omega arith)
  joined-windows_from (suc fuel) (fact ∷ facts) windows en h =
      let all = fact ∷ facts in
      let (ids, later, split, found, rest) = round fuel size step fact facts windows h in
      let short : length (drop step all) ≤ fuel = omega (arith, length-drop step all) in
      elim rest [
        | inl (e, last) ↦
            rw (split, last, append-nil, take_all size all (leb→le (length all) size e)) refl
        | inr (e, next) ↦ rw split (
            ap (λ (l : List ConversationFact). take size all ++ l)
              (behind-windows_from fuel (drop step all) later short next
                ∙ drop-drop (size - step) step all
                ∙ ap (λ (k : ℕ). drop k all) (omega arith))
            ∙ take-drop size all)
      ]

  windows_from-IsWindow :
      (fuel : ℕ) (facts : List ConversationFact) (windows : List FactWindow)
      → windows_from fuel size step facts ≡ ok windows
      → All (IsWindow size) windows
  windows_from-IsWindow fuel [] windows h = rw (no_facts fuel size step windows h) tt
  windows_from-IsWindow zero (fact ∷ facts) windows h =
      rw (no_fuel size step fact facts windows h) tt
  windows_from-IsWindow (suc fuel) (fact ∷ facts) windows h =
      let all = fact ∷ facts in
      let (ids, later, split, found, rest) = round fuel size step fact facts windows h in
      let first : IsWindow size (record { facts = take size all; fact_ids = ids }) =
        (take_pos size fact facts (omega arith), length-take-le size all, found) in
      elim rest [
        | inl (e, last) ↦ rw (split, last) (first, tt)
        | inr (e, next) ↦ rw split (first, windows_from-IsWindow fuel (drop step all) later next)
      ]

-- If every fact has an id, each window that is cut from the facts has at least one fact, at most
-- as many as the window size, at least 1, and the ids of its facts; the first window and, of each
-- later one, the facts behind the overlap are together all facts, in order.
pub slice_fact_windows-covers :
    (facts : List ConversationFact) (window_size overlap_size : ℕ) (windows : List FactWindow)
    → slice_fact_windows facts window_size overlap_size ≡ ok windows
    → let size = normalized_window_size window_size in
      let step = step_size window_size overlap_size in
      All (IsWindow size) windows × (joined (size - step) windows ≡ facts)
unfolding slice_fact_windows
slice_fact_windows-covers facts window_size overlap_size windows h =
    let size = normalized_window_size window_size in
    let step = step_size window_size overlap_size in
    (
      windows_from-IsWindow size step (omega arith) (omega arith) (length facts) facts windows h,
      joined-windows_from size step (omega arith) (omega arith) (length facts) facts windows
          (omega arith) h,
    )
