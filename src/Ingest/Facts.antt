-- ===== src/Ingest/Facts.antt =====
-- src/acabot/runtime/memory/conversation_facts.py: the facts of a thread behind two cursors. The
-- records' metadata are JSON texts, of which `metadata_text` is `str(metadata.get(key) or "")`.
use aca_bot.Prelude.{
  ℕ, String, Bool, ◌||◌, ◌&&◌, Option, none, some, List, [], ◌∷◌, ◌++◌, map, ltb, leb, ◌==◌, str_eq,
  if◌then◌else◌, sort,
}
use aca_bot.Compactor.Text.{strip}
use aca_bot.Facts.Records.{
  Json, ChannelEventRecord, MessageRecord, Sequenced, event_fact, message_fact,
}
use aca_bot.Facts.Table.{Rows, get_thread_after_sequence}

pub record ConversationFact : Type 0 where
  pub thread_id : String
  pub timestamp : ℕ
  pub source_kind : String
  pub source_id : String
  pub role : String
  pub text : String
  pub payload : Json
  pub actor_id : String
  pub actor_display_name : Option String
  pub channel_scope : String
  pub run_id : Option String

pub record ConversationDelta : Type 0 where
  pub facts : List ConversationFact
  pub max_event_id : Option ℕ
  pub max_message_id : Option ℕ

-- The sort key `(timestamp, rank, sequence)` of a fact, and the fact.
pub record OrderedFact : Type 0 where
  pub time : ℕ
  pub rank : ℕ
  pub sequence : ℕ
  pub fact : ConversationFact

abbrev pub fact_of : OrderedFact → ConversationFact
fact_of o = o.fact

abbrev pub in_order : OrderedFact → OrderedFact → Bool
in_order a b =
    ltb a.time b.time
    || a.time == b.time && (ltb a.rank b.rank || a.rank == b.rank && leb a.sequence b.sequence)

-- `after`, or the last number of the rows.
unfoldable pub last_sequence : {R : Type 0} → Option ℕ → Rows R → Option ℕ
last_sequence after [] = after
last_sequence after (row ∷ rows) = last_sequence (some row.sequence_id) rows

module _ (metadata_text : (key : String) → Json → String) where
  unfoldable pub read_actor_display_name : Json → Option String
  unfolding strip
  read_actor_display_name metadata =
      let value = strip (metadata_text "actor_display_name" metadata) in
      if str_eq value "" then none else some value

  unfoldable pub event_to_fact : ChannelEventRecord → ConversationFact
  unfolding read_actor_display_name
  event_to_fact r = record {
    thread_id = r.thread_id;
    timestamp = r.timestamp;
    source_kind = "channel_event";
    source_id = r.event_uid;
    role = "user";
    text = r.content_text;
    payload = r.payload_json;
    actor_id = r.actor_id;
    actor_display_name = read_actor_display_name r.metadata;
    channel_scope = r.channel_scope;
    run_id = r.run_id;
  }

  abbrev scope_or_thread : String → String → String
  scope_or_thread scope thread_id = if str_eq scope "" then thread_id else scope

  unfoldable pub message_to_fact : MessageRecord → ConversationFact
  unfolding read_actor_display_name
  message_to_fact r = record {
    thread_id = r.thread_id;
    timestamp = r.timestamp;
    source_kind = "message";
    source_id = r.message_uid;
    role = r.role;
    text = r.content_text;
    payload = r.content_json;
    actor_id = r.actor_id;
    actor_display_name = read_actor_display_name r.metadata;
    channel_scope = scope_or_thread (metadata_text "channel_scope" r.metadata) r.thread_id;
    run_id = r.run_id;
  }

  abbrev pub ordered_event : Sequenced ChannelEventRecord → OrderedFact
  unfolding event_to_fact
  ordered_event item = record {
    time = item.record_of.timestamp;
    rank = 0;
    sequence = item.sequence_id;
    fact = event_to_fact item.record_of;
  }

  abbrev pub ordered_message : Sequenced MessageRecord → OrderedFact
  unfolding message_to_fact
  ordered_message item = record {
    time = item.record_of.timestamp;
    rank = 1;
    sequence = item.sequence_id;
    fact = message_to_fact item.record_of;
  }

  unfoldable pub ordered_facts : Rows ChannelEventRecord → Rows MessageRecord → List OrderedFact
  ordered_facts events messages = map ordered_event events ++ map ordered_message messages

  unfoldable pub get_thread_delta :
      (thread_id : String)
      → (after_event_id after_message_id : Option ℕ) → Rows ChannelEventRecord
      → Rows MessageRecord
      → ConversationDelta
  unfolding get_thread_after_sequence sort last_sequence ordered_facts
  get_thread_delta thread_id after_event_id after_message_id events messages =
      let event_rows =
        get_thread_after_sequence event_fact thread_id after_event_id none none events in
      let message_rows =
        get_thread_after_sequence message_fact thread_id after_message_id none none messages in
      record {
        facts = map fact_of (sort in_order (ordered_facts event_rows message_rows));
        max_event_id = last_sequence after_event_id event_rows;
        max_message_id = last_sequence after_message_id message_rows;
      }
