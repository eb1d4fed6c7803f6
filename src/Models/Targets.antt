-- ===== src/Models/Targets.antt =====
-- The catalog of src/acabot/runtime/model/model_targets.py. A check is true where the code goes on
-- and false where it raises its ValueError.
use Prim.Native.String.{◌++◌}
use text.Mathlib.Text.{starts_with}
use aca_bot.Prelude.{
  String, Bool, true, false, ◌&&◌, not, Option, none, some, List, [], ◌∷◌, Dict, lookup, insert,
  values, str_eq, is_some, if◌then◌else◌,
}
use aca_bot.Errors.{Result, ok, err, value_error}
use aca_bot.Compactor.Text.{strip}
use aca_bot.Runs.Records.{contains}

-- The source kinds "system", "agent" and "plugin".
pub data SourceKind : Type 0 where
  system_kind agent_kind plugin_kind : SourceKind

abbrev pub is_agent_kind : SourceKind → Bool
is_agent_kind agent_kind = true
is_agent_kind _ = false

abbrev pub is_plugin_kind : SourceKind → Bool
is_plugin_kind plugin_kind = true
is_plugin_kind _ = false

pub record ModelTarget : Type 0 where
  pub target_id : String
  pub task_kind : String
  pub source_kind : SourceKind
  pub owner_id : String
  pub description : String
  pub required : Bool
  pub allow_fallbacks : Bool
  pub required_capabilities : List String
  pub metadata : Dict String

pub record RuntimePluginModelSlot : Type 0 where
  pub slot_id : String
  pub task_kind : String
  pub required : Bool
  pub allow_fallbacks : Bool
  pub required_capabilities : List String
  pub description : String

unfoldable pub supported_model_task_kinds : List String
supported_model_task_kinds =
    "chat" ∷ "embedding" ∷ "rerank" ∷ "speech_to_text" ∷ "text_to_speech" ∷ "image_generation" ∷ []

unfoldable pub supported_model_capabilities : List String
supported_model_capabilities =
    "tool_calling" ∷ "reasoning" ∷ "structured_output" ∷ "image_input" ∷ "image_output"
    ∷ "document_input" ∷ "audio_input" ∷ "audio_output" ∷ "video_input" ∷ "video_output" ∷ []

-- Whether every text of the second list is in the first.
abbrev pub contains_all : List String → List String → Bool
contains_all supported [] = true
contains_all supported (x ∷ xs) = contains supported x && contains_all supported xs

unfoldable pub validate_target : ModelTarget → Bool
unfolding supported_model_task_kinds supported_model_capabilities
validate_target target =
    contains supported_model_task_kinds target.task_kind
    && contains_all supported_model_capabilities target.required_capabilities

unfoldable pub validate_plugin_slot : RuntimePluginModelSlot → Bool
unfolding supported_model_task_kinds supported_model_capabilities
validate_plugin_slot slot =
    contains supported_model_task_kinds slot.task_kind
    && contains_all supported_model_capabilities slot.required_capabilities

-- The dictionary of the targets on top of the items so far.
unfoldable pub index_targets : Dict ModelTarget → List ModelTarget → Result (Dict ModelTarget)
unfolding strip validate_target lookup insert
index_targets items [] = ok items
index_targets items (target ∷ targets) =
    let target_id = strip target.target_id in
    let rest = index_targets (insert target_id target items) targets in
    if str_eq target_id ""
    then err value_error
    else if is_some (lookup target_id items)
    then err value_error
    else if validate_target target
    then rest
    else err value_error

system_target : String → String → String → Bool → ModelTarget
system_target owner_id task_kind description required = record {
  target_id = "system:" ++ owner_id;
  task_kind = task_kind;
  source_kind = system_kind;
  owner_id = owner_id;
  description = description;
  required = required;
  allow_fallbacks = true;
  required_capabilities = [];
  metadata = [];
}

unfoldable pub system_model_targets : List ModelTarget
unfolding system_target
system_model_targets =
    system_target "ltm_extract" "chat" "长期记忆提取模型" true
    ∷ system_target "ltm_query_plan" "chat" "长期记忆检索规划模型" true
    ∷ system_target "ltm_answer" "chat" "长期记忆答案整合模型" false
    ∷ system_target "ltm_embed" "embedding" "长期记忆 embedding 模型" true
    ∷ []

pub record MutableModelTargetCatalog : Type 0 where
  pub system_targets : Dict ModelTarget
  pub agent_targets : Dict ModelTarget
  pub plugin_targets : Dict ModelTarget

-- The first of two answers that is there.
abbrev pub or_else : {A : Type 0} → Option A → Option A → Option A
or_else (some a) other = some a
or_else none other = other

-- `get`, which looks into the system's, the agents' and then the plugins' targets.
unfoldable pub get_target : MutableModelTargetCatalog → String → Option ModelTarget
unfolding strip lookup
get_target catalog target_id =
    let key = strip target_id in
    if str_eq key ""
    then none
    else or_else (lookup key catalog.system_targets)
        (or_else (lookup key catalog.agent_targets) (lookup key catalog.plugin_targets))

unfoldable pub is_agent_target : ModelTarget → Bool
unfolding validate_target
is_agent_target target =
    validate_target target
    && is_agent_kind target.source_kind
    && starts_with target.target_id "agent:"

unfoldable pub all_agent_targets : List ModelTarget → Bool
unfolding is_agent_target
all_agent_targets [] = true
all_agent_targets (target ∷ targets) = is_agent_target target && all_agent_targets targets

-- All targets or, on an error, none of them.
unfoldable pub replace_agent_targets :
    List ModelTarget → MutableModelTargetCatalog → Result (Unit {0}) × MutableModelTargetCatalog
unfolding index_targets
replace_agent_targets targets catalog = elim (index_targets [] targets) [
  | ok indexed ↦
      if all_agent_targets (values indexed)
      then (ok tt, record catalog { agent_targets = indexed })
      else (err value_error, catalog)
  | err e ↦ (err e, catalog)
]

unfoldable pub slot_target : String → RuntimePluginModelSlot → ModelTarget
unfolding strip
slot_target plugin_id slot = record {
  target_id = "plugin:" ++ (plugin_id ++ (":" ++ strip slot.slot_id));
  task_kind = slot.task_kind;
  source_kind = plugin_kind;
  owner_id = plugin_id;
  description = strip slot.description;
  required = slot.required;
  allow_fallbacks = slot.allow_fallbacks;
  required_capabilities = slot.required_capabilities;
  metadata = ("slot_id", strip slot.slot_id) ∷ [];
}

-- Whether the place of a new plugin target is free, or another plugin target's.
abbrev pub is_free : Option ModelTarget → Bool
is_free none = true
is_free (some target) = is_plugin_kind target.source_kind

unfoldable pub add_plugin_target :
    ModelTarget → MutableModelTargetCatalog → MutableModelTargetCatalog
unfolding insert
add_plugin_target target catalog = record catalog {
  plugin_targets = insert target.target_id target catalog.plugin_targets;
}

-- The loop over the slots. The slots before one that fails stay registered.
unfoldable pub register_slots :
    String
    → List RuntimePluginModelSlot
    → MutableModelTargetCatalog
    → Result (List ModelTarget) × MutableModelTargetCatalog
unfolding strip validate_plugin_slot slot_target get_target add_plugin_target
register_slots plugin_id [] catalog = (ok [], catalog)
register_slots plugin_id (slot ∷ slots) catalog =
    let target = slot_target plugin_id slot in
    let (result, after) = register_slots plugin_id slots (add_plugin_target target catalog) in
    if str_eq (strip slot.slot_id) ""
    then (err value_error, catalog)
    else if not (validate_plugin_slot slot)
    then (err value_error, catalog)
    else if is_free (get_target catalog target.target_id)
    then (elim result [ ok created ↦ ok (target ∷ created) | err e ↦ err e ], after)
    else (err value_error, catalog)

unfoldable pub register_plugin_slots :
    String
    → List RuntimePluginModelSlot
    → MutableModelTargetCatalog
    → Result (List ModelTarget) × MutableModelTargetCatalog
unfolding strip register_slots
register_plugin_slots plugin_id slots catalog =
    if str_eq (strip plugin_id) ""
    then (err value_error, catalog)
    else register_slots (strip plugin_id) slots catalog

-- Takes out all keys with the prefix.
unfoldable pub drop_prefix : String → Dict ModelTarget → Dict ModelTarget
drop_prefix prefix [] = []
drop_prefix prefix ((k, target) ∷ m) =
    let rest = drop_prefix prefix m in if starts_with k prefix then rest else (k, target) ∷ rest

unfoldable pub unregister_plugin_targets :
    String → MutableModelTargetCatalog → MutableModelTargetCatalog
unfolding strip drop_prefix
unregister_plugin_targets plugin_id catalog = record catalog {
  plugin_targets = drop_prefix ("plugin:" ++ (strip plugin_id ++ ":")) catalog.plugin_targets;
}
