-- ===== src/Compactor/Budget.antt =====
-- Which turns a compaction keeps.
use aca_bot.Prelude.{
  ℕ, zero, suc, ◌+◌, ◌-◌, ◌≤◌, ◌<◌, max, String, ◌≡◌, refl, sym, true, false, ◌||◌, List, [], ◌∷◌,
  ◌++◌, length, arith, leb, ◌==◌, Bool-cases, inl, inr,
}
use aca_bot.Threads.Records.{Message}
use aca_bot.Compactor.Turns.{
  Turn, Counter, member, turn_tokens, tokens_upto, add_fitting, or_last, range, forced_turn_indexes,
  kept_turn_indexes,
}

pub member-append : (i : ℕ) (xs ys : List ℕ) → member i (xs ++ ys) ≡ (member i xs || member i ys)
unfolding member
member-append i [] ys = refl
member-append i (x ∷ xs) ys = ground (arith, member-append i xs ys)

pub member-range : (i start n : ℕ) → start ≤ i → i < start + n → member i (range start n) ≡ true
unfolding member
member-range i start zero h k = absurd (omega arith)
member-range i start (suc n) h k = elim (Bool-cases (start == i)) [
  | inl e ↦ rw (e, member) refl
  | inr e ↦ rw (e, member) (member-range i (suc start) n (ground arith) (omega arith))
]

module _ (token_counter : Counter) (model : String) (messages : List Message)
    (turns : List Turn) where
  abbrev tokens : ℕ → ℕ
  tokens = turn_tokens token_counter model messages turns

  abbrev total : ℕ → List ℕ → ℕ
  total = tokens_upto token_counter model messages turns

  abbrev fill : ℕ → ℕ → List ℕ → ℕ → List ℕ
  fill = add_fitting token_counter model messages turns

  total-past : (n j : ℕ) (kept : List ℕ) → n ≤ j → total n (j ∷ kept) ≡ total n kept
  unfolding tokens_upto member
  total-past zero j kept h = refl
  total-past (suc n) j kept h = ground (arith, total-past n j kept)

  total-add :
      (n j : ℕ) (kept : List ℕ)
      → j < n
      → member j kept ≡ false
      → total n (j ∷ kept) ≡ total n kept + tokens j
  unfolding tokens_upto member
  total-add zero j kept h out = absurd (omega arith)
  total-add (suc n) j kept h out = elim (Bool-cases (j == n)) [
    | inl e ↦
        let same : j ≡ n = ground arith in
        let out' : member n kept ≡ false = rw same at out in
        rw same (rw (out', tokens_upto) (ground (arith, total-past n n kept)))
    | inr e ↦ ground (arith, total-add n j kept)
  ]

  -- What the loop makes of the set `kept`.
  record Fills (budget n : ℕ) (kept result : List ℕ) : Type 0 where
    contains : (i : ℕ) → member i kept ≡ true → member i result ≡ true
    grows : total (length turns) kept ≤ total (length turns) result
    bounded : total (length turns) result ≤ max budget (total (length turns) kept)
    maximal :
        (i : ℕ) → i < n → member i result ≡ false → budget < total (length turns) result + tokens i

  next :
      (budget n : ℕ) (kept result : List ℕ)
      → Fills budget n kept result
      → (member n result ≡ false → budget < total (length turns) result + tokens n)
      → (i : ℕ) → i < suc n
      → member i result ≡ false
      → budget < total (length turns) result + tokens i
  next budget n kept result rest here i l o = elim (Bool-cases (n == i)) [
    | inl q ↦ let same : n ≡ i = ground arith in rw (sym same) (here (rw (sym same) at o))
    | inr q ↦ rest.maximal i (ground arith) o
  ]

  taken :
      (budget n : ℕ) (kept : List ℕ) (used : ℕ)
      → used + tokens n ≤ budget
      → total (length turns) (n ∷ kept) ≡ total (length turns) kept + tokens n
      → {result : List ℕ} → Fills budget n (n ∷ kept) result
      → used ≡ total (length turns) kept
      → Fills budget (suc n) kept result
  unfolding member
  taken budget n kept used f more rest u = record {
    contains = λ i m. rest.contains i (ground arith);
    grows = omega (arith, rest.grows);
    bounded = omega (arith, rest.bounded);
    maximal =
        next budget n (n ∷ kept) _ rest
          λ o. absurd (let there = rest.contains n (ground arith) in cc (there, o));
  }

  left :
      (budget n : ℕ) (kept : List ℕ) (used : ℕ)
      → budget < used + tokens n
      → {result : List ℕ} → Fills budget n kept result
      → used ≡ total (length turns) kept
      → Fills budget (suc n) kept result
  left budget n kept used f rest u = record {
    contains = rest.contains;
    grows = rest.grows;
    bounded = rest.bounded;
    maximal = next budget n kept _ rest λ o. omega (arith, rest.grows);
  }

  add_fitting-Fills :
      (budget n : ℕ) (kept : List ℕ) (used : ℕ)
      → n ≤ length turns
      → used ≡ total (length turns) kept
      → Fills budget n kept (fill budget n kept used)
  unfolding add_fitting
  add_fitting-Fills budget zero kept used h u = record {
    contains = λ i m. m;
    grows = omega arith;
    bounded = omega arith;
    maximal = λ i l o. absurd (omega arith);
  }
  add_fitting-Fills budget (suc n) kept used h u = elim (Bool-cases (member n kept)) [
    | inl e ↦
        let rest = add_fitting-Fills budget n kept used (omega arith) u in
        rw (e, add_fitting)
          (record {
            contains = rest.contains;
            grows = rest.grows;
            bounded = rest.bounded;
            maximal =
                next budget n kept _ rest
                  λ o. absurd (let there = rest.contains n e in cc (there, o));
          })
    | inr e ↦ elim (Bool-cases (leb (used + tokens n) budget)) [
      | inl f ↦
          let more = total-add (length turns) n kept (omega arith) e in
          rw (e, f, add_fitting)
            (taken budget n kept used (ground arith) more
              (add_fitting-Fills budget n (n ∷ kept) (used + tokens n) (omega arith)
                (omega (arith, more)))
              u)
      | inr f ↦
          rw (e, f, add_fitting)
            (left budget n kept used (ground arith)
              (add_fitting-Fills budget n kept used (omega arith) u) u)
    ]
  ]

module _ (token_counter : Counter) (preserve_recent_turns : ℕ) (turns : List Turn)
    (messages : List Message) (model : String) (budget : ℕ) where
  abbrev forced : List ℕ
  forced = forced_turn_indexes preserve_recent_turns turns messages

  abbrev kept : List ℕ
  kept = kept_turn_indexes token_counter preserve_recent_turns turns messages model budget

  abbrev used_by : List ℕ → ℕ
  used_by = tokens_upto token_counter model messages turns (length turns)

  recent-forced :
      (i : ℕ)
      → i < length turns
      → length turns ≤ i + max 1 preserve_recent_turns
      → member i forced ≡ true
  unfolding forced_turn_indexes
  recent-forced i l r = rw member-append (
      rw
        (member-range i (length turns - max 1 preserve_recent_turns)
          (length turns - (length turns - max 1 preserve_recent_turns)) (omega arith) (omega arith))
        refl)

  or_last-kept :
      (turns : List Turn) (ks : List ℕ)
      → (0 < length turns → member (length turns - 1) ks ≡ true)
      → or_last turns ks ≡ ks
  unfolding member
  or_last-kept [] [] h = refl
  or_last-kept (turn ∷ turns) [] h = absurd (let m = h (omega arith) in ground arith)
  or_last-kept [] (k ∷ ks) h = refl
  or_last-kept (turn ∷ turns) (k ∷ ks) h = refl

  filled :
      Fills token_counter model messages turns budget (length turns) forced (
        add_fitting token_counter model messages turns budget
          (length turns)
          forced
          (used_by forced))
  filled =
      add_fitting-Fills token_counter model messages turns budget (length turns) forced
        (used_by forced) (omega arith) refl

  kept-Fills : Fills token_counter model messages turns budget (length turns) forced kept
  unfolding kept_turn_indexes
  kept-Fills =
      rw
        (or_last-kept turns _ λ l.
          filled.contains (length turns - 1)
            (recent-forced (length turns - 1) (omega arith) (omega arith)))
        filled

  pub forced-kept : (i : ℕ) → member i forced ≡ true → member i kept ≡ true
  forced-kept i m = kept-Fills.contains i m

  -- The latest `max 1 preserve_recent_turns` turns are kept, whatever the budget.
  pub recent-kept :
      (i : ℕ)
      → i < length turns
      → length turns ≤ i + max 1 preserve_recent_turns
      → member i kept ≡ true
  recent-kept i l r = forced-kept i (recent-forced i l r)

  -- The tokens of the kept turns are within the budget, or no more than those of the turns that have
  -- to be kept.
  pub kept-budget : used_by kept ≤ max budget (used_by forced)
  kept-budget = kept-Fills.bounded

  -- A turn that is not kept does not fit: with its tokens the kept turns are over the budget.
  pub kept-maximal :
      (i : ℕ)
      → i < length turns
      → member i kept ≡ false
      → budget < used_by kept + turn_tokens token_counter model messages turns i
  kept-maximal i l o = kept-Fills.maximal i l o
