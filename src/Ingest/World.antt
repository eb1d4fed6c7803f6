-- ===== src/Ingest/World.antt =====
-- What the write line keeps outside itself, for
-- src/acabot/runtime/memory/long_term_memory/write_port.py: cursors, failed windows and the upserts
-- of entries, and the calls that may fail. The model, the embedding client and the faults of the
-- store are functions of the number of the call.
use aca_bot.Prelude.{
  ℕ, suc, String, Option, none, some, List, [], ◌∷◌, Dict, lookup, insert, sort, str_geb, str_eq,
  if◌then◌else◌, ◌||◌,
}
use aca_bot.Errors.{Error, Result, ok, err, value_error}
use aca_bot.Tasks.{Task}
use aca_bot.Compactor.Text.{strip}
use aca_bot.Runs.Records.{contains}
use aca_bot.Ingest.Facts.{ConversationFact}

pub record ThreadLtmCursor : Type 0 where
  pub thread_id : String
  pub last_event_id : Option ℕ
  pub last_message_id : Option ℕ
  pub updated_at : ℕ

pub record FailedWindowRecord : Type 0 where
  pub window_id : String
  pub conversation_id : String
  pub thread_id : String
  pub fact_ids : List String
  pub error : String
  pub retry_count : ℕ
  pub first_failed_at : ℕ
  pub last_failed_at : ℕ

-- A set of the texts that are not blank.
unfoldable pub text_set : List String → List String
unfolding strip contains
text_set [] = []
text_set (t ∷ ts) =
    let rest = text_set ts in
    let text = strip t in
    if str_eq text "" then rest else if contains rest text then rest else text ∷ rest

unfoldable pub normalize_fact_ids : List String → List String
unfolding text_set sort
normalize_fact_ids ids = sort (λ a b. str_geb b a) (text_set ids)

-- What `__post_init__` makes of the fields.
unfoldable pub stripped : FailedWindowRecord → FailedWindowRecord
unfolding strip normalize_fact_ids
stripped r = record r {
  window_id = strip r.window_id;
  conversation_id = strip r.conversation_id;
  thread_id = strip r.thread_id;
  error = strip r.error;
  fact_ids = normalize_fact_ids r.fact_ids;
}

-- `__post_init__`, which refuses a blank id.
unfoldable pub normalized : FailedWindowRecord → Result FailedWindowRecord
unfolding stripped
normalized r =
    let s = stripped r in
    if str_eq s.window_id "" || str_eq s.conversation_id "" || str_eq s.thread_id ""
    then err value_error
    else ok s

-- The parameters of the write line.
pub record Services (Entry Vector : Type 0) : Type 0 where
  pub extract_window : (call : ℕ) → String → List ConversationFact → ℕ → Result (List Entry)
  pub embed_entries : (call : ℕ) → List Entry → Result (List Vector)
  pub store_fault : (call : ℕ) → Option Error
  pub error_text : Error → String

pub record World (Entry Vector : Type 0) : Type 0 where
  pub calls : ℕ
  pub cursors : Dict ThreadLtmCursor
  pub failed_windows : Dict FailedWindowRecord
  pub upserts : List (List Entry × List Vector)

abbrev pub next_call : {Entry Vector : Type 0} → World Entry Vector → World Entry Vector
next_call w = record w { calls = suc w.calls }

module _ {Entry Vector : Type 0} (s : Services Entry Vector) where
  -- A call of the store, which fails or answers and changes the world.
  unfoldable pub store_call :
      {A : Type 0}
      → (World Entry Vector → A)
      → (World Entry Vector → World Entry Vector)
      → Task (World Entry Vector) A
  store_call answer change w = elim (s.store_fault w.calls) [
    | none ↦ (ok (answer w), change (next_call w))
    | some e ↦ (err e, next_call w)
  ]

  unfoldable pub load_cursor : String → Task (World Entry Vector) (Option ThreadLtmCursor)
  unfolding store_call
  load_cursor thread_id = store_call (λ w. lookup thread_id w.cursors) (λ w. w)

  unfoldable pub save_cursor : ThreadLtmCursor → Task (World Entry Vector) (Unit {0})
  unfolding store_call
  save_cursor cursor =
      store_call (λ w. tt) (λ w. record w { cursors = insert cursor.thread_id cursor w.cursors })

  unfoldable pub load_failed_window : String → Task (World Entry Vector) (Option FailedWindowRecord)
  unfolding store_call
  load_failed_window window_id = store_call (λ w. lookup window_id w.failed_windows) (λ w. w)

  unfoldable pub save_failed_window : FailedWindowRecord → Task (World Entry Vector) (Unit {0})
  unfolding store_call
  save_failed_window r =
      store_call (λ w. tt)
        (λ w. record w { failed_windows = insert r.window_id r w.failed_windows })

  unfoldable pub upsert_entries : List Entry → List Vector → Task (World Entry Vector) (Unit {0})
  unfolding store_call
  upsert_entries entries vectors =
      store_call (λ w. tt) (λ w. record w { upserts = (entries, vectors) ∷ w.upserts })

  abbrev pub extract : String → List ConversationFact → ℕ → Task (World Entry Vector) (List Entry)
  extract conversation_id facts now_ts w =
      (s.extract_window w.calls conversation_id facts now_ts, next_call w)

  abbrev pub embed : List Entry → Task (World Entry Vector) (List Vector)
  embed entries w = (s.embed_entries w.calls entries, next_call w)
