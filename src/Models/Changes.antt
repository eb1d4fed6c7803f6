-- ===== src/Models/Changes.antt =====
-- The changes that the manager of src/acabot/runtime/model/model_registry.py offers.
use aca_bot.Prelude.{
  ℕ, String, Bool, true, false, ◌&&◌, ◌||◌, not, List, [], ◌∷◌, Dict, lookup, insert, remove,
  is_some, if◌then◌else◌,
}
use aca_bot.Errors.{Result, ok}
use aca_bot.Models.Registry.{ModelProvider, ModelPreset, ModelBinding}
use aca_bot.Models.Checks.{normalized_preset}
use aca_bot.Models.Impacts.{
  ModelEntityType, provider_entity, preset_entity, binding_entity, ModelImpactSnapshot,
  provider_impact, preset_impact, binding_impact, delete_provider_from_registry,
  delete_preset_from_registry,
}
use aca_bot.Models.Requests.{resolved}
use aca_bot.Models.Manager.{
  still_in_use, write_provider, write_preset, write_binding, delete_files, Disk, Manager, Report,
  ModelAction, upsert_action, delete_action, ModelMutationResult, mutation_result, apply_candidate,
}

abbrev pub make_report :
    ModelAction
    → ModelEntityType
    → String
    → ModelImpactSnapshot
    → (provider_ids preset_ids binding_ids : List String) → Report
make_report action entity_type entity_id impact provider_ids preset_ids binding_ids = record {
  action = action;
  entity_type = entity_type;
  entity_id = entity_id;
  impact = impact;
  cascaded_provider_ids = provider_ids;
  cascaded_preset_ids = preset_ids;
  cascaded_binding_ids = binding_ids;
}

-- The id if it is a key.
unfoldable pub present : {A : Type 0} → String → Dict A → List String
unfolding lookup
present k m = if is_some (lookup k m) then k ∷ [] else []

abbrev pub ids_if : Bool → List String → List String
ids_if force ids = if force then ids else []

abbrev pub some_ids : List String → Bool
some_ids [] = false
some_ids (i ∷ ids) = true

-- The result of a deletion that is refused for what is in use.
unfoldable pub in_use : ModelEntityType → String → ModelImpactSnapshot → ModelMutationResult
unfolding mutation_result
in_use entity_type entity_id impact =
    mutation_result (make_report delete_action entity_type entity_id impact [] [] []) false
      (still_in_use entity_type) resolved

module _ {V F : Type 0} (disk : Disk V F) (now : ℕ) where
  unfoldable pub upsert_provider :
      ModelProvider V → Manager V F → Result ModelMutationResult × Manager V F
  unfolding provider_impact insert
  upsert_provider p m =
      let impact = provider_impact m.active_registry p.provider_id in
      apply_candidate disk now
        (make_report upsert_action provider_entity p.provider_id impact [] [] [])
        (λ r. record r { providers = insert p.provider_id p r.providers }) (write_provider p) m

  -- The check has assigned the fields of the preset before it is written.
  unfoldable pub upsert_preset :
      ModelPreset V → Manager V F → Result ModelMutationResult × Manager V F
  unfolding preset_impact insert normalized_preset
  upsert_preset p m =
      let impact = preset_impact m.active_registry p.preset_id in
      apply_candidate disk now (make_report upsert_action preset_entity p.preset_id impact [] [] [])
        (λ r. record r { presets = insert p.preset_id p r.presets })
        (write_preset (normalized_preset p)) m

  unfoldable pub upsert_binding :
      ModelBinding → Manager V F → Result ModelMutationResult × Manager V F
  unfolding binding_impact insert
  upsert_binding b m =
      let impact = binding_impact m.active_registry b.binding_id in
      apply_candidate disk now
        (make_report upsert_action binding_entity b.binding_id impact [] [] [])
        (λ r. record r { bindings = insert b.binding_id b r.bindings }) (write_binding b) m

  unfoldable pub delete_provider :
      String → (force : Bool) → Manager V F → Result ModelMutationResult × Manager V F
  unfolding provider_impact delete_provider_from_registry
  delete_provider provider_id force m =
      let impact = provider_impact m.active_registry provider_id in
      let preset_ids = ids_if force impact.preset_ids in
      let binding_ids = ids_if force impact.binding_ids in
      if (some_ids impact.preset_ids || some_ids impact.binding_ids) && not force
      then (ok (in_use provider_entity provider_id impact), m)
      else apply_candidate disk now
          (make_report delete_action provider_entity provider_id impact
            (present provider_id m.active_registry.providers) preset_ids binding_ids)
          (delete_provider_from_registry provider_id preset_ids binding_ids)
          (delete_files (provider_id ∷ []) preset_ids binding_ids) m

  unfoldable pub delete_preset :
      String → (force : Bool) → Manager V F → Result ModelMutationResult × Manager V F
  unfolding preset_impact delete_preset_from_registry
  delete_preset preset_id force m =
      let impact = preset_impact m.active_registry preset_id in
      let binding_ids = ids_if force impact.binding_ids in
      if some_ids impact.binding_ids && not force
      then (ok (in_use preset_entity preset_id impact), m)
      else apply_candidate disk now
          (make_report delete_action preset_entity preset_id impact []
            (present preset_id m.active_registry.presets) binding_ids)
          (delete_preset_from_registry preset_id binding_ids)
          (delete_files [] (preset_id ∷ []) binding_ids) m

  unfoldable pub delete_binding : String → Manager V F → Result ModelMutationResult × Manager V F
  unfolding binding_impact remove
  delete_binding binding_id m =
      let impact = binding_impact m.active_registry binding_id in
      apply_candidate disk now
        (make_report delete_action binding_entity binding_id impact [] []
          (present binding_id m.active_registry.bindings))
        (λ r. record r { bindings = remove binding_id r.bindings })
        (delete_files [] [] (binding_id ∷ [])) m
