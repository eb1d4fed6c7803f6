-- ===== src/Compactor/Survival.antt =====
-- What a compaction keeps of the messages, and what it writes back to the thread.
use aca_bot.Prelude.{
  ℕ, zero, suc, ◌+◌, ◌<◌, ◌==◌, String, ◌≡◌, refl, ap, subst, Bool, true, some, List, [], ◌∷◌, map,
  keep, length, get_elem?, arith, if-holds, Bool-cases, inl, inr, Option-cases,
}
use aca_bot.Threads.Records.{Message}
use aca_bot.Compactor.Turns.{
  Turn, Counter, member, messages_at, any_pinned, pinned_from, turn_at, range, identify_turns,
  identify_pinned_turn_indexes, forced_turn_indexes, fit_turns_to_budget, kept_turn_indexes,
}
use aca_bot.Compactor.Compact.{concat, messages_in}
use aca_bot.Compactor.Budget.{member-append, member-range, forced-kept}
use aca_bot.Compactor.Partition.{identify_turns-concat}

abbrev pub pinned : Message → Bool
pinned message = message.pinned

any_pinned-at :
    (messages : List Message) (i : ℕ) (m : Message) (turn : Turn)
    → get_elem? messages i ≡ some m
    → m.pinned ≡ true
    → member i turn ≡ true
    → any_pinned (messages_at messages turn) ≡ true
unfolding any_pinned messages_at member
any_pinned-at messages i m [] e p h = absurd (ground arith)
any_pinned-at messages i m (j ∷ turn) e p h = elim (Bool-cases (j == i)) [
  | inl q ↦ let same : j ≡ i = ground arith in rw (same, e, messages_at) (rw (p, any_pinned) refl)
  | inr q ↦
      let rest = any_pinned-at messages i m turn e p (rw q at h) in
      elim (Option-cases (get_elem? messages j)) [
        | inl c ↦ rw (c, messages_at) rest
        | inr (x, c) ↦ rw (c, messages_at) (ground arith)
      ]
]

-- A pinned message's turn is among the pinned ones.
pinned_from-turn :
    (messages : List Message) (i : ℕ) (m : Message)
    → get_elem? messages i ≡ some m
    → m.pinned ≡ true
    → (turns : List Turn) (index : ℕ) → member i (concat turns) ≡ true
    → (t : ℕ) × (t < length turns)
      × (member i (turn_at turns t) ≡ true)
      × (member (index + t) (pinned_from index turns messages) ≡ true)
unfolding pinned_from member turn_at
pinned_from-turn messages i m e p [] index h = absurd (ground arith)
pinned_from-turn messages i m e p (turn ∷ turns) index h = elim (Bool-cases (member i turn)) [
  | inl q ↦
      let same : index + 0 ≡ index = omega arith in
      (
        0,
        omega arith,
        q,
        rw (any_pinned-at messages i m turn e p q, same, pinned_from) (ground arith),
      )
  | inr q ↦
      let rest : member i (concat turns) ≡ true = (rw (member-append, q) at h) in
      let (t, l, own, there) = pinned_from-turn messages i m e p turns (suc index) rest in
      let same : index + suc t ≡ suc index + t = omega arith in
      (
        suc t,
        omega arith,
        own,
        rw same (
            if-holds (λ ks. member (suc index + t) ks ≡ true)
              (any_pinned (messages_at messages turn)) (λ _. ground arith) (λ _. there)),
      )
]

-- The kept turns have the indexes of each of them.
pub concat-kept :
    (turns : List Turn) (kept : List ℕ) (i t : ℕ) (js : List ℕ)
    → member t js ≡ true
    → member t kept ≡ true
    → member i (turn_at turns t) ≡ true
    → member i (concat (map (turn_at turns) (keep (λ j. member j kept) js))) ≡ true
unfolding member
concat-kept turns kept i t [] h k own = absurd (ground arith)
concat-kept turns kept i t (j ∷ js) h k own = elim (Bool-cases (member j kept)) [
  | inl c ↦ elim (Bool-cases (j == t)) [
    | inl q ↦ let same : j ≡ t = ground arith in rw c (rw (member-append, same, own) refl)
    | inr q ↦
        rw c (rw member-append (ground (arith, concat-kept turns kept i t js (rw q at h) k own)))
  ]
  | inr c ↦ elim (Bool-cases (j == t)) [
    | inl q ↦ absurd (let same : j ≡ t = ground arith in cc (same, c, k))
    | inr q ↦ rw c (concat-kept turns kept i t js (rw q at h) k own)
  ]
]

pub keep-messages_in :
    (p : Message → Bool) (indexes : List ℕ) (messages : List Message) (index : ℕ)
    → ((j : ℕ) (m : Message)
        → get_elem? messages j ≡ some m
        → p m ≡ true
        → member (index + j) indexes ≡ true)
    → keep p (messages_in index messages indexes) ≡ keep p messages
unfolding messages_in
keep-messages_in p indexes [] index h = refl
keep-messages_in p indexes (m ∷ messages) index h =
    let rest =
      keep-messages_in p indexes messages (suc index)
        λ j x e q. subst (λ n. member n indexes ≡ true) (omega arith) (h (suc j) x e q) in
    elim (Bool-cases (p m)) [
      | inl q ↦
          let there : member index indexes ≡ true =
            subst (λ n. member n indexes ≡ true) (omega arith) (h 0 m refl q) in
          rw (there, messages_in) (rw q (ap (λ l. m ∷ l) rest))
      | inr q ↦
          if-holds (λ l. keep p l ≡ keep p (m ∷ messages)) (member index indexes) (λ _. rw q rest)
            (λ _. rw q rest)
    ]

get_elem?-lt :
    (messages : List Message) (i : ℕ) (m : Message)
    → get_elem? messages i ≡ some m
    → i < length messages
get_elem?-lt [] i m e = absurd (ground arith)
get_elem?-lt (x ∷ messages) zero m e = omega arith
get_elem?-lt (x ∷ messages) (suc i) m e = omega (arith, get_elem?-lt messages i m e)

module _ (token_counter : Counter) (recent : ℕ) (messages : List Message) (model : String)
    (budget : ℕ) where
  abbrev kept_turns : List Turn
  kept_turns =
      fit_turns_to_budget token_counter recent (identify_turns messages) messages model budget

  pub pinned-kept :
      (i : ℕ) (m : Message)
      → get_elem? messages i ≡ some m
      → m.pinned ≡ true
      → member i (concat kept_turns) ≡ true
  unfolding fit_turns_to_budget forced_turn_indexes identify_pinned_turn_indexes
  pinned-kept i m e p =
      let turns = identify_turns messages in
      let l = get_elem?-lt messages i m e in
      let somewhere : member i (concat turns) ≡ true =
        rw identify_turns-concat (member-range i 0 (length messages) (omega arith) (omega arith)) in
      let (t, inside, own, listed) = pinned_from-turn messages i m e p turns 0 somewhere in
      let forced : member t (forced_turn_indexes recent turns messages) ≡ true =
        rw member-append (ground arith) in
      concat-kept turns (kept_turn_indexes token_counter recent turns messages model budget) i t
        (range 0 (length turns)) (member-range t 0 (length turns) (omega arith) (omega arith))
        (forced-kept token_counter recent turns messages model budget t forced) own
