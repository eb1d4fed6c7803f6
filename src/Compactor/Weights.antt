-- ===== src/Compactor/Weights.antt =====
-- The tokens of the kept messages, where no token counter is at hand, against those of the kept turns.
use mathlib.Core.List.{append-nil, append_assoc}
use aca_bot.Prelude.{
  ℕ, zero, suc, ◌+◌, ◌-◌, ◌≤◌, ◌<◌, ◌≡◌, refl, sym, ap, ap₂, subst, true, false, none, some, List,
  [], ◌∷◌, ◌++◌, length, get_elem?, arith, ◌==◌, if◌then◌else◌, Bool-cases, Option-cases, inl, inr,
  ◌∙◌,
}
use aca_bot.Threads.Records.{Message}
use aca_bot.Compactor.Turns.{Turn, Counter, member, messages_at, turn_at, range, estimate}
use aca_bot.Compactor.Compact.{concat, messages_in}
use aca_bot.Compactor.Budget.{member-append}

-- Python's LiteLLM is not installed.
abbrev pub no_counter : Counter
no_counter model messages = none

range-split :
    (xs ys : List ℕ) (k n : ℕ)
    → xs ++ ys ≡ range k n
    → (xs ≡ range k (length xs)) × (ys ≡ range (k + length xs) (n - length xs))
range-split [] ys k n h =
    let same : k + 0 ≡ k = omega arith in
    let all : n - 0 ≡ n = omega arith in (refl, rw (same, all) h)
range-split (x ∷ xs) ys k zero h = absurd (ground arith)
range-split (x ∷ xs) ys k (suc n) h =
    let first : x ≡ k = cc h in
    let rest : xs ++ ys ≡ range (suc k) n = cc h in
    let (front, back) = range-split xs ys (suc k) n rest in
    let start : suc k + length xs ≡ k + suc (length xs) = omega arith in
    let many : n - length xs ≡ suc n - suc (length xs) = omega arith in
    (ap₂ ◌∷◌ first front, rw (sym start, sym many) back)

range-member : (i start n : ℕ) → member i (range start n) ≡ true → (start ≤ i) × (i < start + n)
unfolding member
range-member i start zero h = absurd (ground arith)
range-member i start (suc n) h = elim (Bool-cases (start == i)) [
  | inl e ↦ (ground arith, ground arith)
  | inr e ↦
      let (low, high) = range-member i (suc start) n (rw e at h) in
      (omega (arith, low), omega (arith, high))
]

concat-member :
    (i t : ℕ) (turns : List Turn)
    → member i (turn_at turns t) ≡ true
    → member i (concat turns) ≡ true
unfolding member turn_at
concat-member i t [] h = absurd (ground arith)
concat-member i zero (turn ∷ turns) h = rw (member-append, h) refl
concat-member i (suc t) (turn ∷ turns) h =
    rw member-append (ground (arith, concat-member i t turns h))

apart :
    (turn : Turn) (turns : List Turn) (k n i t : ℕ)
    → concat (turn ∷ turns) ≡ range k n
    → member i turn ≡ true
    → member i (turn_at turns t) ≡ true
    → ⊥
apart turn turns k n i t h a b =
    let (front, back) = range-split turn (concat turns) k n h in
    let low = range-member i k (length turn) (subst (λ l. member i l ≡ true) front a) in
    let high =
      range-member i (k + length turn) (n - length turn)
        (subst (λ l. member i l ≡ true) back (concat-member i t turns b)) in
    omega (arith, low.1, high.0)

-- No index stands in two turns.
pub turn_at-same :
    (turns : List Turn) (k n i j t : ℕ)
    → concat turns ≡ range k n
    → member i (turn_at turns j) ≡ true
    → member i (turn_at turns t) ≡ true
    → j ≡ t
unfolding turn_at
turn_at-same [] k n i j t h a b = absurd (unfold member in ground arith)
turn_at-same (turn ∷ turns) k n i zero zero h a b = refl
turn_at-same (turn ∷ turns) k n i (suc j) (suc t) h a b = ap suc (
    turn_at-same turns (k + length turn) (n - length turn) i j t
      (range-split turn (concat turns) k n h).1 a b)
turn_at-same (turn ∷ turns) k n i zero (suc t) h a b = absurd (apart turn turns k n i t h a b)
turn_at-same (turn ∷ turns) k n i (suc j) zero h a b = absurd (apart turn turns k n i j h b a)

-- The indexes of the first turns.
unfoldable pub upto : List Turn → ℕ → List ℕ
upto turns zero = []
upto turns (suc j) = upto turns j ++ turn_at turns j

upto-cons :
    (turn : Turn) (turns : List Turn) (j : ℕ) → upto (turn ∷ turns) (suc j) ≡ turn ++ upto turns j
unfolding upto turn_at
upto-cons turn turns zero = sym (append-nil turn)
upto-cons turn turns (suc j) =
    ap (λ l. l ++ turn_at turns j) (upto-cons turn turns j)
    ∙ append_assoc turn (upto turns j) (turn_at turns j)

pub upto-all : (turns : List Turn) → upto turns (length turns) ≡ concat turns
unfolding upto
upto-all [] = refl
upto-all (turn ∷ turns) = upto-cons turn turns (length turns) ∙ ap (λ l. turn ++ l) (upto-all turns)

module _ (messages : List Message) where
  unfoldable pub weight : ℕ → ℕ
  weight i = estimate (messages_at messages (i ∷ []))

  -- The weights of the indexes that are in the set.
  unfoldable pub sum_if : (set : List ℕ) → List ℕ → ℕ
  sum_if set [] = 0
  sum_if set (i ∷ is) = let rest = sum_if set is in if member i set then weight i + rest else rest

  estimate-cons :
      (i : ℕ) (is : List ℕ)
      → estimate (messages_at messages (i ∷ is)) ≡ weight i + estimate (messages_at messages is)
  unfolding weight messages_at estimate
  estimate-cons i is = elim (Option-cases (get_elem? messages i)) [
    | inl e ↦ rw (e, messages_at) (omega arith)
    | inr (m, e) ↦ rw (e, messages_at) (omega arith)
  ]

  pub sum_if-append : (set is js : List ℕ) → sum_if set (is ++ js) ≡ sum_if set is + sum_if set js
  unfolding sum_if
  sum_if-append set [] js = omega arith
  sum_if-append set (i ∷ is) js = elim (Bool-cases (member i set)) [
    | inl e ↦ rw (e, sum_if) (omega (arith, sum_if-append set is js))
    | inr e ↦ rw (e, sum_if) (sum_if-append set is js)
  ]

  pub sum_if-within :
      (set is : List ℕ)
      → ((i : ℕ) → member i is ≡ true → member i set ≡ true)
      → sum_if set is ≡ estimate (messages_at messages is)
  unfolding sum_if
  sum_if-within set [] h = unfold messages_at estimate in refl
  sum_if-within set (i ∷ is) h =
      let here : member i set ≡ true = h i (unfold member in ground arith) in
      rw (here, sum_if)
        (ap (λ n. weight i + n) (sum_if-within set is λ j m. h j (unfold member in ground arith))
          ∙ sym (estimate-cons i is))

  pub sum_if-outside :
      (set is : List ℕ) → ((i : ℕ) → member i is ≡ true → member i set ≡ false) → sum_if set is ≡ 0
  unfolding sum_if
  sum_if-outside set [] h = refl
  sum_if-outside set (i ∷ is) h =
      let here : member i set ≡ false = h i (unfold member in ground arith) in
      rw (here, sum_if) (sum_if-outside set is λ j m. h j (unfold member in ground arith))

  pub estimate-messages_in :
      (set : List ℕ) (rest : List Message) (index : ℕ)
      → ((j : ℕ) (m : Message)
          → get_elem? rest j ≡ some m
          → get_elem? messages (index + j) ≡ some m)
      → estimate (messages_in index rest set) ≡ sum_if set (range index (length rest))
  unfolding messages_in sum_if estimate
  estimate-messages_in set [] index at = refl
  estimate-messages_in set (m ∷ rest) index at =
      let more =
        estimate-messages_in set rest (suc index)
          λ j x e. subst (λ n. get_elem? messages n ≡ some x) (omega arith) (at (suc j) x e) in
      let here : get_elem? messages index ≡ some m =
        subst (λ n. get_elem? messages n ≡ some m) (omega arith) (at 0 m refl) in
      let own : weight index ≡ estimate (m ∷ []) =
        unfold weight messages_at in (rw (here, messages_at) refl) in
      elim (Bool-cases (member index set)) [
        | inl e ↦ rw (e, messages_in, sum_if) (omega (arith, own, more))
        | inr e ↦ rw (e, messages_in, sum_if) more
      ]
