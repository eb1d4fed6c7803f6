-- ===== src/Ingest/Windows.antt =====
-- The windows of facts: `slice_fact_windows`, `derive_conversation_id_from_delta` and
-- `build_failed_window_id` of src/acabot/runtime/memory/long_term_memory/write_port.py, and the ids
-- of facts from fact_ids.py.
use Prim.Native.String.{◌++◌}
use aca_bot.Prelude.{
  ℕ, zero, suc, ◌-◌, max, String, Option, none, some, List, [], ◌∷◌, length, take, drop, leb,
  str_eq, if◌then◌else◌,
}
use aca_bot.Errors.{Result, ok, err, value_error, ◌>>=◌}
use aca_bot.Compactor.Text.{strip}
use aca_bot.Ingest.Facts.{ConversationFact}

pub record FactWindow : Type 0 where
  pub facts : List ConversationFact
  pub fact_ids : List String

unfoldable pub build_fact_id_from_conversation_fact : ConversationFact → Result String
unfolding strip
build_fact_id_from_conversation_fact fact =
    if str_eq fact.source_kind "channel_event"
    then ok ("e:" ++ strip fact.source_id)
    else if str_eq fact.source_kind "message"
    then ok ("m:" ++ strip fact.source_id)
    else err value_error

unfoldable pub fact_ids : List ConversationFact → Result (List String)
unfolding build_fact_id_from_conversation_fact
fact_ids [] = ok []
fact_ids (fact ∷ facts) = do
  i ← build_fact_id_from_conversation_fact fact
  is ← fact_ids facts
  ok (i ∷ is)

-- The loop over `start`, which stands as the facts from it on.
unfoldable pub windows_from :
    (fuel size step : ℕ) → List ConversationFact → Result (List FactWindow)
unfolding fact_ids
windows_from fuel size step [] = ok []
windows_from zero size step (fact ∷ facts) = ok []
windows_from (suc fuel) size step (fact ∷ facts) =
    let rest = fact ∷ facts in
    let later = windows_from fuel size step (drop step rest) in
    do
      ids ← fact_ids (take size rest)
      windows ← if leb (length rest) size then ok [] else later
      ok (record { facts = take size rest; fact_ids = ids } ∷ windows)

abbrev pub normalized_window_size : ℕ → ℕ
normalized_window_size window_size = max 1 window_size

abbrev pub step_size : (window_size overlap_size : ℕ) → ℕ
step_size window_size overlap_size = max 1 (normalized_window_size window_size - overlap_size)

-- A step is not 0, so that there are at most as many windows as facts.
unfoldable pub slice_fact_windows :
    List ConversationFact → (window_size overlap_size : ℕ) → Result (List FactWindow)
unfolding windows_from
slice_fact_windows facts window_size overlap_size =
    windows_from (length facts) (normalized_window_size window_size)
      (step_size window_size overlap_size) facts

-- The scopes that are not blank.
unfoldable pub conversation_ids : List ConversationFact → List String
unfolding strip
conversation_ids [] = []
conversation_ids (fact ∷ facts) =
    let others = conversation_ids facts in
    let scope = strip fact.channel_scope in if str_eq scope "" then others else scope ∷ others

-- Whether a set of texts has one element, and which.
unfoldable pub only : List String → Option String
only [] = none
only (x ∷ []) = some x
only (x ∷ y ∷ xs) = let rest = only (y ∷ xs) in if str_eq x y then rest else none

unfoldable pub derive_conversation_id_from_delta : List ConversationFact → Result String
unfolding conversation_ids only
derive_conversation_id_from_delta facts = elim (only (conversation_ids facts)) [
  | none ↦ err value_error
  | some conversation_id ↦ ok conversation_id
]

abbrev last_text : String → List String → String
last_text x [] = x
last_text x (y ∷ xs) = last_text y xs

unfoldable pub build_failed_window_id : String → List String → Result String
build_failed_window_id conversation_id [] = err value_error
build_failed_window_id conversation_id (first ∷ others) =
    ok (conversation_id ++ (":" ++ (first ++ (":" ++ last_text first others))))
