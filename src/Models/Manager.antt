-- ===== src/Models/Manager.antt =====
-- `FileSystemModelRegistryManager` of src/acabot/runtime/model/model_registry.py: reloads with their
-- cache of five seconds, and changes that are tried on a copy, written and loaded again. The disk is
-- a parameter: what the files give, and a write, which may fail. One reading of the clock serves a
-- whole operation.
use aca_bot.Prelude.{
  ℕ, ◌+◌, String, Bool, false, not, Option, none, some, List, lookup, is_some, if◌then◌else◌, ltb,
  length,
}
use aca_bot.Errors.{Error, Result, ok, err, value_error, key_error}
use aca_bot.Models.Registry.{ModelProvider, ModelPreset, ModelBinding, ModelRegistry}
use aca_bot.Models.Targets.{MutableModelTargetCatalog}
use aca_bot.Models.Checks.{validate}
use aca_bot.Models.Impacts.{
  ModelEntityType, provider_entity, preset_entity, binding_entity, ModelImpactSnapshot,
}
use aca_bot.Models.Requests.{ModelBindingState, resolved, binding_state}

-- What a change does to the files.
pub data FileChange (V : Type 0) : Type 0 where
  write_provider : ModelProvider V → FileChange V
  write_preset : ModelPreset V → FileChange V
  write_binding : ModelBinding → FileChange V
  delete_files : (provider_ids preset_ids binding_ids : List String) → FileChange V

-- The directories of the files.
pub record Disk (V F : Type 0) : Type 0 where
  pub load : F → Result (ModelRegistry V)
  pub write : FileChange V → F → Result (Unit {0}) × F

pub record Manager (V F : Type 0) : Type 0 where
  pub active_registry : ModelRegistry V
  pub cache_registry : Option (ModelRegistry V)
  pub cache_expiry : ℕ
  pub last_error : Option Error
  pub target_catalog : MutableModelTargetCatalog
  pub files : F

pub record ModelReloadSnapshot : Type 0 where
  pub is_ok : Bool
  pub provider_count : ℕ
  pub preset_count : ℕ
  pub binding_count : ℕ
  pub error : Option Error

pub data ModelAction : Type 0 where
  upsert_action delete_action : ModelAction

-- The text of an error, which is empty without one, or that of a refusal.
pub data Message : Type 0 where
  of_error : Option Error → Message
  still_in_use : ModelEntityType → Message

pub record ModelMutationResult : Type 0 where
  pub is_ok : Bool
  pub applied : Bool
  pub action : ModelAction
  pub entity_type : ModelEntityType
  pub entity_id : String
  pub message : Message
  pub state : ModelBindingState
  pub impact : ModelImpactSnapshot
  pub cascaded_provider_ids : List String
  pub cascaded_preset_ids : List String
  pub cascaded_binding_ids : List String

abbrev pub reload_snapshot : {V : Type 0} → Option Error → ModelRegistry V → ModelReloadSnapshot
reload_snapshot error r = record {
  is_ok = not (is_some error);
  provider_count = length r.providers;
  preset_count = length r.presets;
  binding_count = length r.bindings;
  error = error;
}

module _ {V F : Type 0} where
  -- The cache at a time before its expiry.
  unfoldable pub cached : ℕ → Manager V F → Option (ModelRegistry V)
  cached now m = if ltb now m.cache_expiry then m.cache_registry else none

  -- A registry that was loaded, is in the cache and is checked there. It becomes the active one if
  -- it is valid.
  unfoldable pub activate : ModelRegistry V → Manager V F → ModelReloadSnapshot × Manager V F
  unfolding validate
  activate r m =
      let (valid, checked) = validate m.target_catalog r in
      let known = record m { cache_registry = some checked } in
      if valid
      then (
        reload_snapshot none checked,
        record known { active_registry = checked; last_error = none },
      )
      else (
        reload_snapshot (some value_error) m.active_registry,
        record known { last_error = some value_error },
      )

module _ {V F : Type 0} (disk : Disk V F) (now : ℕ) where
  -- `reload_now` when nothing is in the cache, or the cache is too old.
  unfoldable pub load_from_files : Manager V F → ModelReloadSnapshot × Manager V F
  unfolding activate
  load_from_files m = elim (disk.load m.files) [
    | ok r ↦ activate r (record m { cache_expiry = now + 5 })
    | err e ↦ (reload_snapshot (some e) m.active_registry, record m { last_error = some e })
  ]

  unfoldable pub reload_now : Manager V F → ModelReloadSnapshot × Manager V F
  unfolding activate load_from_files
  reload_now m = elim (cached now m) [ some r ↦ activate r m | none ↦ load_from_files m ]

  unfoldable pub reload : Manager V F → ModelReloadSnapshot × Manager V F
  unfolding reload_now
  reload m = elim (cached now m) [ some r ↦ (reload_snapshot none r, m) | none ↦ reload_now m ]

-- What a change reports before it is tried.
pub record Report : Type 0 where
  pub action : ModelAction
  pub entity_type : ModelEntityType
  pub entity_id : String
  pub impact : ModelImpactSnapshot
  pub cascaded_provider_ids : List String
  pub cascaded_preset_ids : List String
  pub cascaded_binding_ids : List String

unfoldable pub mutation_result : Report → Bool → Message → ModelBindingState → ModelMutationResult
mutation_result report applied message state = record {
  is_ok = applied;
  applied = applied;
  action = report.action;
  entity_type = report.entity_type;
  entity_id = report.entity_id;
  message = message;
  state = state;
  impact = report.impact;
  cascaded_provider_ids = report.cascaded_provider_ids;
  cascaded_preset_ids = report.cascaded_preset_ids;
  cascaded_binding_ids = report.cascaded_binding_ids;
}

unfoldable pub state_in :
    {V : Type 0}
    → ModelEntityType
    → String
    → MutableModelTargetCatalog
    → ModelRegistry V
    → Option ModelBindingState
unfolding lookup binding_state
state_in provider_entity entity_id catalog r = some resolved
state_in preset_entity entity_id catalog r = some resolved
state_in binding_entity entity_id catalog r = elim (lookup entity_id r.bindings) [
  | none ↦ none
  | some b ↦ some (binding_state catalog r b)
]

abbrev pub or_resolved : Option ModelBindingState → ModelBindingState
or_resolved none = resolved
or_resolved (some state) = state

-- The `except` branch: the report of the candidate that failed.
unfoldable pub refused :
    {V : Type 0}
    → Report
    → Error
    → ModelRegistry V
    → MutableModelTargetCatalog
    → ModelMutationResult
unfolding mutation_result binding_state lookup
refused report e candidate catalog =
    mutation_result report false (of_error (some e))
      (or_resolved (state_in report.entity_type report.entity_id catalog candidate))

module _ {V F : Type 0} where
  -- The report after the reload. The snapshot of a binding that is not there raises.
  unfoldable pub answered :
      Report → ModelReloadSnapshot × Manager V F → Result ModelMutationResult × Manager V F
  unfolding mutation_result binding_state lookup
  answered report (snapshot, m) =
      elim (state_in report.entity_type report.entity_id m.target_catalog m.active_registry) [
        | none ↦ (err key_error, m)
        | some state ↦
            (ok (mutation_result report snapshot.is_ok (of_error snapshot.error) state), m)
      ]

module _ {V F : Type 0} (disk : Disk V F) (now : ℕ) where
  -- The end of `_apply_candidate` after a write.
  unfoldable pub finish_write :
      Report
      → ModelRegistry V
      → Manager V F
      → Result (Unit {0}) × F
      → Result ModelMutationResult × Manager V F
  unfolding refused answered reload
  finish_write report candidate m (err e, files) =
      (ok (refused report e candidate m.target_catalog), record m { files = files })
  finish_write report candidate m (ok done, files) =
      answered report
        (reload disk now (record m { files = files; cache_registry = none; cache_expiry = 0 }))

  unfoldable pub apply_candidate :
      Report
      → (ModelRegistry V → ModelRegistry V)
      → FileChange V
      → Manager V F
      → Result ModelMutationResult × Manager V F
  unfolding validate refused finish_write
  apply_candidate report mutator change m =
      let (valid, candidate) = validate m.target_catalog (mutator m.active_registry) in
      if valid
      then finish_write report candidate m (disk.write change m.files)
      else (ok (refused report value_error candidate m.target_catalog), m)
