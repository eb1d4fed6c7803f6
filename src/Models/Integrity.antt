-- ===== src/Models/Integrity.antt =====
-- The active registry through reloads, changes, edits of the files and changes of the catalog.
use aca_bot.Prelude.{
  ℕ, ◌+◌, String, Bool, true, false, ◌&&◌, ◌||◌, not, Option, none, some, List, [], ◌∷◌, if-holds,
  if◌then◌else◌,
}
use aca_bot.Errors.{Result, ok, err, key_error}
use aca_bot.Models.Registry.{ModelProvider, ModelPreset, ModelBinding, ModelRegistry}
use aca_bot.Models.Targets.{
  ModelTarget, RuntimePluginModelSlot, replace_agent_targets, register_plugin_slots,
  unregister_plugin_targets,
}
use aca_bot.Models.Checks.{validate}
use aca_bot.Models.Requests.{ModelBindingState}
use aca_bot.Models.Manager.{
  of_error, FileChange, Disk, Manager, Report, ModelReloadSnapshot, ModelMutationResult, cached,
  activate, load_from_files, reload_now, reload, mutation_result, answered, finish_write,
  apply_candidate, state_in, reload_snapshot,
}
use aca_bot.Models.Changes.{
  upsert_provider, upsert_preset, upsert_binding, delete_provider, delete_preset, delete_binding,
  some_ids,
}
use aca_bot.Models.Impacts.{provider_impact, preset_impact}
use aca_bot.Models.Sound.{IsSound, validate-IsSound}

-- What may happen to a manager. The files may also be edited behind its back.
pub data Operation (V F : Type 0) : Type 0 where
  reload_now_op reload_op : (now : ℕ) → Operation V F
  upsert_provider_op : (now : ℕ) → ModelProvider V → Operation V F
  upsert_preset_op : (now : ℕ) → ModelPreset V → Operation V F
  upsert_binding_op : (now : ℕ) → ModelBinding → Operation V F
  delete_provider_op : (now : ℕ) → String → (force : Bool) → Operation V F
  delete_preset_op : (now : ℕ) → String → (force : Bool) → Operation V F
  delete_binding_op : (now : ℕ) → String → Operation V F
  edit_files_op : F → Operation V F
  replace_agent_targets_op : List ModelTarget → Operation V F
  register_plugin_slots_op : String → List RuntimePluginModelSlot → Operation V F
  unregister_plugin_targets_op : String → Operation V F

module _ {V F : Type 0} (disk : Disk V F) where
  unfoldable pub step : Operation V F → Manager V F → Manager V F
  unfolding reload_now reload upsert_provider upsert_preset upsert_binding delete_provider
      delete_preset delete_binding replace_agent_targets register_plugin_slots
      unregister_plugin_targets
  step (reload_now_op now) m = (reload_now disk now m).1
  step (reload_op now) m = (reload disk now m).1
  step (upsert_provider_op now p) m = (upsert_provider disk now p m).1
  step (upsert_preset_op now p) m = (upsert_preset disk now p m).1
  step (upsert_binding_op now b) m = (upsert_binding disk now b m).1
  step (delete_provider_op now i force) m = (delete_provider disk now i force m).1
  step (delete_preset_op now i force) m = (delete_preset disk now i force m).1
  step (delete_binding_op now i) m = (delete_binding disk now i m).1
  step (edit_files_op files) m = record m { files = files }
  step (replace_agent_targets_op targets) m = record m {
    target_catalog = (replace_agent_targets targets m.target_catalog).1;
  }
  step (register_plugin_slots_op plugin_id slots) m = record m {
    target_catalog = (register_plugin_slots plugin_id slots m.target_catalog).1;
  }
  step (unregister_plugin_targets_op plugin_id) m = record m {
    target_catalog = unregister_plugin_targets plugin_id m.target_catalog;
  }

  unfoldable pub run : List (Operation V F) → Manager V F → Manager V F
  unfolding step
  run [] m = m
  run (op ∷ ops) m = run ops (step op m)

abbrev pub Keeps : {V F : Type 0} → Manager V F → Type 0
Keeps m = IsSound m.active_registry

module _ {V F : Type 0} where
  activate-Keeps : (r : ModelRegistry V) (m : Manager V F) → Keeps m → Keeps (activate r m).1
  unfolding activate
  activate-Keeps r m h =
      if-holds (λ (x : ModelReloadSnapshot × Manager V F). Keeps x.1)
        (validate m.target_catalog r).0 (λ v. validate-IsSound m.target_catalog r v) (λ v. h)

  answered-Keeps :
      (report : Report) (x : ModelReloadSnapshot × Manager V F)
      → Keeps x.1
      → Keeps (answered report x).1
  unfolding answered
  answered-Keeps report (snapshot, m) h =
      go (state_in report.entity_type report.entity_id m.target_catalog m.active_registry)
    where
      go :
          (o : Option ModelBindingState)
          → Keeps {F = F}
              (elim o as (λ _. Result ModelMutationResult × Manager V F) [
                | none ↦ (err key_error, m)
                | some state ↦
                    (ok (mutation_result report snapshot.is_ok (of_error snapshot.error) state), m)
              ]).1
      go none = h
      go (some state) = h

module _ {V F : Type 0} (disk : Disk V F) (now : ℕ) where
  load_from_files-Keeps : (m : Manager V F) → Keeps m → Keeps (load_from_files disk now m).1
  unfolding load_from_files
  load_from_files-Keeps m h = go (disk.load m.files)
    where
      go :
          (loaded : Result (ModelRegistry V))
          → Keeps {F = F}
              (elim loaded as (λ _. ModelReloadSnapshot × Manager V F) [
                | ok r ↦ activate r (record m { cache_expiry = now + 5 })
                | err e ↦
                    (reload_snapshot (some e) m.active_registry, record m { last_error = some e })
              ]).1
      go (ok r) = activate-Keeps r (record m { cache_expiry = now + 5 }) h
      go (err e) = h

  reload_now-Keeps : (m : Manager V F) → Keeps m → Keeps (reload_now disk now m).1
  unfolding reload_now
  reload_now-Keeps m h = go (cached now m)
    where
      go :
          (o : Option (ModelRegistry V))
          → Keeps {F = F}
              (elim o as (λ _. ModelReloadSnapshot × Manager V F) [
                | some r ↦ activate r m
                | none ↦ load_from_files disk now m
              ]).1
      go (some r) = activate-Keeps r m h
      go none = load_from_files-Keeps m h

  reload-Keeps : (m : Manager V F) → Keeps m → Keeps (reload disk now m).1
  unfolding reload
  reload-Keeps m h = go (cached now m)
    where
      go :
          (o : Option (ModelRegistry V))
          → Keeps {F = F}
              (elim o as (λ _. ModelReloadSnapshot × Manager V F) [
                | some r ↦ (reload_snapshot none r, m)
                | none ↦ reload_now disk now m
              ]).1
      go (some r) = h
      go none = reload_now-Keeps m h

  finish_write-Keeps :
      (report : Report) (candidate : ModelRegistry V) (m : Manager V F) (x : Result (Unit {0}) × F)
      → Keeps m
      → Keeps (finish_write disk now report candidate m x).1
  unfolding finish_write
  finish_write-Keeps report candidate m (err e, files) h = h
  finish_write-Keeps report candidate m (ok done, files) h =
      let m' = record m { files = files; cache_registry = none; cache_expiry = 0 } in
      answered-Keeps report (reload disk now m') (reload-Keeps m' h)

  apply_candidate-Keeps :
      (report : Report) (mutator : ModelRegistry V → ModelRegistry V) (change : FileChange V)
      (m : Manager V F)
      → Keeps m
      → Keeps (apply_candidate disk now report mutator change m).1
  unfolding apply_candidate
  apply_candidate-Keeps report mutator change m h =
      let (valid, candidate) = validate m.target_catalog (mutator m.active_registry) in
      if-holds (λ (x : Result ModelMutationResult × Manager V F). Keeps x.1) valid
        (λ v. finish_write-Keeps report candidate m (disk.write change m.files) h) (λ v. h)

  refuse-Keeps :
      (refusal : Bool) (result : Result ModelMutationResult) (report : Report)
      (mutator : ModelRegistry V → ModelRegistry V) (change : FileChange V) (m : Manager V F)
      → Keeps m
      → Keeps (if refusal then (result, m) else apply_candidate disk now report mutator change m).1
  refuse-Keeps true result report mutator change m h = h
  refuse-Keeps false result report mutator change m h =
      apply_candidate-Keeps report mutator change m h

module _ {V F : Type 0} (disk : Disk V F) where
  step-Keeps : (op : Operation V F) (m : Manager V F) → Keeps m → Keeps (step disk op m)
  unfolding step upsert_provider upsert_preset upsert_binding delete_provider delete_preset
      delete_binding
  step-Keeps (reload_now_op now) m h = reload_now-Keeps disk now m h
  step-Keeps (reload_op now) m h = reload-Keeps disk now m h
  step-Keeps (upsert_provider_op now p) m h = apply_candidate-Keeps disk now _ _ _ m h
  step-Keeps (upsert_preset_op now p) m h = apply_candidate-Keeps disk now _ _ _ m h
  step-Keeps (upsert_binding_op now b) m h = apply_candidate-Keeps disk now _ _ _ m h
  step-Keeps (delete_provider_op now i force) m h =
      let impact = provider_impact m.active_registry i in
      refuse-Keeps disk now
        ((some_ids impact.preset_ids || some_ids impact.binding_ids) && not force) _ _ _ _ m h
  step-Keeps (delete_preset_op now i force) m h =
      let impact = preset_impact m.active_registry i in
      refuse-Keeps disk now (some_ids impact.binding_ids && not force) _ _ _ _ m h
  step-Keeps (delete_binding_op now i) m h = apply_candidate-Keeps disk now _ _ _ m h
  step-Keeps (edit_files_op files) m h = h
  step-Keeps (replace_agent_targets_op targets) m h = h
  step-Keeps (register_plugin_slots_op plugin_id slots) m h = h
  step-Keeps (unregister_plugin_targets_op plugin_id) m h = h

  -- Whatever is done to a manager, edits of its files and changes of the catalog included, a sound
  -- active registry stays sound: every key is the id, each preset's provider and each binding's
  -- presets are there, and no two bindings have one target.
  pub run-IsSound :
      (ops : List (Operation V F)) (m : Manager V F)
      → IsSound m.active_registry
      → IsSound (run disk ops m).active_registry
  unfolding run
  run-IsSound [] m h = h
  run-IsSound (op ∷ ops) m h = run-IsSound ops (step disk op m) (step-Keeps op m h)
