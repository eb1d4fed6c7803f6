-- ===== src/Compactor/Turns.antt =====
-- Turns and tokens: `_identify_turns`, `_fit_turns_to_budget`, `_identify_pinned_turn_indexes` and
-- the token counts of src/acabot/runtime/memory/context_compactor.py. A set of turn indexes is the
-- list of its members; `sorted` reads it by walking over the turns. `token_counter` is LiteLLM's:
-- nothing where it is missing, raises, or does not return an `int`.
use aca_bot.Prelude.{
  ℕ, zero, suc, ◌+◌, ◌-◌, ◌/◌, max, String, Bool, false, ◌||◌, Option, none, some, List, [], ◌∷◌,
  ◌++◌, length, get_elem?, str_eq, leb, ◌==◌, if◌then◌else◌, is_some, map, keep,
}
use aca_bot.Threads.Records.{Message, Content, plain, other}
use aca_bot.Compactor.Text.{size}

abbrev pub Turn : Type 0
Turn = List ℕ

abbrev pub ends {ℓ} : {A : Type ℓ} → List A → List (List A)
ends [] = []
ends (i ∷ current) = (i ∷ current) ∷ []

-- The loop from `index` on, with the turn that is being filled.
unfoldable pub turns_from : (index : ℕ) → (current : Turn) → List Message → List Turn
turns_from index current [] = ends current
turns_from index current (message ∷ messages) =
    let closed = ends current ++ turns_from (suc index) (index ∷ []) messages in
    let extended = turns_from (suc index) (current ++ index ∷ []) messages in
    if str_eq message.role "user" then closed else extended

unfoldable pub identify_turns : List Message → List Turn
unfolding turns_from
identify_turns messages = turns_from 0 [] messages

unfoldable pub member : ℕ → List ℕ → Bool
member i [] = false
member i (j ∷ js) = j == i || member i js

-- `[messages[index] for index in turn]`; an index past the end does not occur.
unfoldable pub messages_at : List Message → Turn → List Message
messages_at messages [] = []
messages_at messages (i ∷ turn) = elim (get_elem? messages i) [
  | none ↦ messages_at messages turn
  | some message ↦ message ∷ messages_at messages turn
]

unfoldable pub any_pinned : List Message → Bool
any_pinned [] = false
any_pinned (message ∷ messages) = message.pinned || any_pinned messages

unfoldable pub pinned_from : ℕ → List Turn → List Message → List ℕ
unfolding any_pinned messages_at
pinned_from index [] messages = []
pinned_from index (turn ∷ turns) messages =
    let rest = pinned_from (suc index) turns messages in
    if any_pinned (messages_at messages turn) then index ∷ rest else rest

unfoldable pub identify_pinned_turn_indexes : List Turn → List Message → List ℕ
unfolding pinned_from
identify_pinned_turn_indexes turns messages = pinned_from 0 turns messages

-- `range(from, from + n)`
abbrev pub range : (start : ℕ) → (n : ℕ) → List ℕ
range start zero = []
range start (suc n) = start ∷ range (suc start) n

abbrev content_tokens : Content → ℕ
content_tokens (plain text) = max 1 (size text / 3)
content_tokens (other shown) = 0

-- What is counted without a `token_counter`.
unfoldable pub estimate : List Message → ℕ
estimate [] = 0
estimate (message ∷ messages) =
    content_tokens message.content
    + (if is_some message.tool_calls then 20 else 0)
    + estimate messages

abbrev pub Counter : Type 0
Counter = String → List Message → Option ℕ

module _ (token_counter : Counter) where
  unfoldable pub count_tokens : (model : String) → List Message → ℕ
  unfolding estimate
  count_tokens model messages = elim (token_counter model messages) [
    | none ↦ estimate messages
    | some counted ↦ counted
  ]

-- `turns[index]`; an index past the end does not occur.
unfoldable pub turn_at : List Turn → ℕ → Turn
turn_at turns index = elim (get_elem? turns index) [ none ↦ [] | some turn ↦ turn ]

module _ (token_counter : Counter) (model : String) (messages : List Message)
    (turns : List Turn) where
  -- `_count_turn_tokens` at `turns[index]`.
  unfoldable pub turn_tokens : (index : ℕ) → ℕ
  unfolding count_tokens messages_at turn_at
  turn_tokens index = count_tokens token_counter model (messages_at messages (turn_at turns index))

  -- The loop over the set in increasing order, up to `n`: the tokens of its turns.
  unfoldable pub tokens_upto : (n : ℕ) → (kept : List ℕ) → ℕ
  unfolding turn_tokens member
  tokens_upto zero kept = 0
  tokens_upto (suc index) kept =
      let before = tokens_upto index kept in
      if member index kept then before + turn_tokens index else before

  -- The loop `for turn_index in range(n - 1, -1, -1)`.
  unfoldable pub add_fitting : (budget : ℕ) → (n : ℕ) → (kept : List ℕ) → (used : ℕ) → List ℕ
  unfolding turn_tokens member
  add_fitting budget zero kept used = kept
  add_fitting budget (suc index) kept used =
      let taken = add_fitting budget index (index ∷ kept) (used + turn_tokens index) in
      let left = add_fitting budget index kept used in
      if member index kept
      then left
      else if leb (used + turn_tokens index) budget
      then taken
      else left

abbrev pub or_last : List Turn → List ℕ → List ℕ
or_last [] [] = []
or_last (turn ∷ turns) [] = length turns ∷ []
or_last turns (i ∷ kept) = i ∷ kept

-- The last turns, and those with a pinned message.
unfoldable pub forced_turn_indexes : (preserve_recent_turns : ℕ) → List Turn → List Message → List ℕ
unfolding identify_pinned_turn_indexes
forced_turn_indexes preserve_recent_turns turns messages =
    let first = length turns - max 1 preserve_recent_turns in
    range first (length turns - first) ++ identify_pinned_turn_indexes turns messages

module _ (token_counter : Counter) (preserve_recent_turns : ℕ) where
  unfoldable pub kept_turn_indexes :
      List Turn → List Message → (model : String) → (budget : ℕ) → List ℕ
  unfolding add_fitting tokens_upto forced_turn_indexes
  kept_turn_indexes turns messages model budget =
      let forced = forced_turn_indexes preserve_recent_turns turns messages in
      let used = tokens_upto token_counter model messages turns (length turns) forced in
      or_last turns
        (add_fitting token_counter model messages turns budget (length turns) forced used)

  unfoldable pub fit_turns_to_budget :
      List Turn → List Message → (model : String) → (budget : ℕ) → List Turn
  unfolding kept_turn_indexes turn_at member
  fit_turns_to_budget turns messages model budget =
      let kept = kept_turn_indexes turns messages model budget in
      map (turn_at turns) (keep (λ i. member i kept) (range 0 (length turns)))
