-- ===== src/Facts/Records.antt =====
-- Event and message records of src/acabot/runtime/contracts/records.py, and what their stores read
-- of them. A JSON object stands as its text with sorted keys, so that equal objects are equal texts.
use aca_bot.Prelude.{
  ℕ, String, ◌≡◌, refl, Bool, true, false, ◌&&◌, Option, none, some, str_eq, ◌==◌, eq_refl, arith,
}

abbrev pub Json : Type 0
Json = String

pub record ChannelEventRecord : Type 0 where
  pub event_uid : String
  pub thread_id : String
  pub actor_id : String
  pub channel_scope : String
  pub platform : String
  pub event_type : String
  pub message_type : String
  pub content_text : String
  pub payload_json : Json
  pub timestamp : ℕ
  pub run_id : Option String
  pub raw_message_id : String
  pub operator_id : Option String
  pub target_message_id : Option String
  pub metadata : Json
  pub raw_event : Json

pub record MessageRecord : Type 0 where
  pub message_uid : String
  pub thread_id : String
  pub actor_id : String
  pub platform : String
  pub role : String
  pub content_text : String
  pub content_json : Json
  pub timestamp : ℕ
  pub run_id : Option String
  pub platform_message_id : String
  pub metadata : Json

-- A record with its sequence number.
pub record Sequenced (R : Type 0) : Type 0 where
  pub sequence_id : ℕ
  pub record_of : R

abbrev same_option : Option String → Option String → Bool
same_option none none = true
same_option none (some t) = false
same_option (some s) none = false
same_option (some s) (some t) = str_eq s t

-- `==` of the dataclass.
unfoldable pub same_event : ChannelEventRecord → ChannelEventRecord → Bool
same_event a b =
    str_eq a.event_uid b.event_uid
    && str_eq a.thread_id b.thread_id
    && str_eq a.actor_id b.actor_id
    && str_eq a.channel_scope b.channel_scope
    && str_eq a.platform b.platform
    && str_eq a.event_type b.event_type
    && str_eq a.message_type b.message_type
    && str_eq a.content_text b.content_text
    && str_eq a.payload_json b.payload_json
    && a.timestamp == b.timestamp
    && same_option a.run_id b.run_id
    && str_eq a.raw_message_id b.raw_message_id
    && same_option a.operator_id b.operator_id
    && same_option a.target_message_id b.target_message_id
    && str_eq a.metadata b.metadata
    && str_eq a.raw_event b.raw_event

unfoldable pub same_message : MessageRecord → MessageRecord → Bool
same_message a b =
    str_eq a.message_uid b.message_uid
    && str_eq a.thread_id b.thread_id
    && str_eq a.actor_id b.actor_id
    && str_eq a.platform b.platform
    && str_eq a.role b.role
    && str_eq a.content_text b.content_text
    && str_eq a.content_json b.content_json
    && a.timestamp == b.timestamp
    && same_option a.run_id b.run_id
    && str_eq a.platform_message_id b.platform_message_id
    && str_eq a.metadata b.metadata

same_option_refl : (s : Option String) → same_option s s ≡ true
same_option_refl none = refl
same_option_refl (some s) = eq_refl s

same_number_refl : (n : ℕ) → (n == n) ≡ true
same_number_refl n = ground arith

pub same_event_refl : (a : ChannelEventRecord) → same_event a a ≡ true
unfolding same_event
same_event_refl a = simp (eq_refl, same_option_refl, same_number_refl)

pub same_message_refl : (a : MessageRecord) → same_message a a ≡ true
unfolding same_message
same_message_refl a = simp (eq_refl, same_option_refl, same_number_refl)

-- What a store reads of its records.
pub record Fact (R : Type 0) : Type 0 where
  pub uid : R → String
  pub thread : R → String
  pub kind : R → String
  pub time : R → ℕ
  pub same : R → R → Bool
  pub same_refl : (r : R) → same r r ≡ true

abbrev pub event_fact : Fact ChannelEventRecord
event_fact = record {
  uid = λ r. r.event_uid;
  thread = λ r. r.thread_id;
  kind = λ r. r.event_type;
  time = λ r. r.timestamp;
  same = same_event;
  same_refl = same_event_refl;
}

-- Messages have no type that a query filters by.
abbrev pub message_fact : Fact MessageRecord
message_fact = record {
  uid = λ r. r.message_uid;
  thread = λ r. r.thread_id;
  kind = λ r. "";
  time = λ r. r.timestamp;
  same = same_message;
  same_refl = same_message_refl;
}
