-- ===== src/Pipeline/Outbox.antt =====
-- `Outbox.send_items` of src/acabot/runtime/outbox.py. The preparation of an action, the gateway and
-- the message store are functions of the number of the item.
use aca_bot.Prelude.{
  ℕ, suc, String, Bool, true, false, Option, none, some, List, [], ◌∷◌, ◌++◌, if◌then◌else◌, str_eq,
}
use aca_bot.Errors.{Error, Result, ok, err}

pub data ActionType : Type 0 where
  send_text send_segments send_message_intent control : ActionType

pub record OutboxItem : Type 0 where
  pub action_id : String
  pub action_type : ActionType
  pub thread_content : String
  pub destination_thread_id : String
  pub destination_conversation_id : String

pub record DeliveryResult : Type 0 where
  pub action_id : String
  pub is_ok : Bool
  pub platform_message_id : String
  pub error : Option String

pub record DispatchReport : Type 0 where
  pub results : List DeliveryResult
  pub delivered_items : List OutboxItem
  pub failed_action_ids : List String

abbrev pub empty_report : DispatchReport
empty_report = record { results = []; delivered_items = []; failed_action_ids = [] }

abbrev pub has_failures : DispatchReport → Bool
has_failures report = elim report.failed_action_ids [ [] ↦ false | id ∷ ids ↦ true ]

-- What the gateway answers: nothing, a refusal with its text, or the id of the message.
pub data Ack : Type 0 where
  no_ack : Ack
  negative success : String → Ack

-- What is outside: the text for the thread that the preparation finds, the gateway, the store.
pub record Channel : Type 0 where
  pub prepare : (item : ℕ) → OutboxItem → Result String
  pub send : (item : ℕ) → OutboxItem → Result Ack
  pub persist : (item : ℕ) → OutboxItem → DeliveryResult → Result (Unit {0})
  pub error_text : Error → String

-- `_materialize_item` makes a list of segments of an intent.
abbrev pub materialized : ActionType → ActionType
materialized send_text = send_text
materialized send_segments = send_segments
materialized send_message_intent = send_segments
materialized control = control

abbrev pub should_persist_action : ActionType → Bool
should_persist_action send_text = true
should_persist_action send_segments = true
should_persist_action send_message_intent = false
should_persist_action control = false

-- A failure at the end of the report.
abbrev pub failed : String → String → DispatchReport → DispatchReport
failed action_id error report = record report {
  results =
      report.results
      ++ record {
        action_id = action_id;
        is_ok = false;
        platform_message_id = "";
        error = some error;
      }
        ∷ [];
  failed_action_ids = report.failed_action_ids ++ action_id ∷ [];
}

abbrev pub delivery : String → String → DeliveryResult
delivery action_id platform_message_id = record {
  action_id = action_id;
  is_ok = true;
  platform_message_id = platform_message_id;
  error = none;
}

abbrev pub delivered : OutboxItem → DeliveryResult → DispatchReport → DispatchReport
delivered item result report = record report {
  results = report.results ++ result ∷ [];
  delivered_items = report.delivered_items ++ item ∷ [];
}

module _ (channel : Channel) where
  abbrev saved : String → Result (Unit {0}) → DispatchReport → DispatchReport
  saved action_id (ok done) report = report
  saved action_id (err e) report = failed action_id (channel.error_text e) report

  -- An error while the message is saved is caught with the others.
  unfoldable pub acknowledged :
      (number : ℕ) → OutboxItem → Result Ack → DispatchReport → DispatchReport
  acknowledged number item (err e) report = failed item.action_id (channel.error_text e) report
  acknowledged number item (ok no_ack) report = failed item.action_id "no_ack" report
  acknowledged number item (ok (negative msg)) report =
      failed item.action_id (if str_eq msg "" then "negative_ack" else msg) report
  acknowledged number item (ok (success platform_message_id)) report =
      let result = delivery item.action_id platform_message_id in
      let sent = delivered item result report in
      if should_persist_action item.action_type
      then saved item.action_id (channel.persist number item result) sent
      else sent

  unfoldable pub prepared :
      (number : ℕ) → OutboxItem → Result String → DispatchReport → DispatchReport
  unfolding acknowledged
  prepared number item (err e) report = failed item.action_id (channel.error_text e) report
  prepared number item (ok content) report =
      let ready = record item {
        thread_content = content;
        action_type = materialized item.action_type;
      } in
      acknowledged number ready (channel.send number ready) report

  unfoldable pub send_from : (number : ℕ) → List OutboxItem → DispatchReport → DispatchReport
  unfolding prepared
  send_from number [] report = report
  send_from number (item ∷ items) report =
      send_from (suc number) items (prepared number item (channel.prepare number item) report)

  unfoldable pub send_items : List OutboxItem → DispatchReport
  unfolding send_from
  send_items items = send_from 0 items empty_report
