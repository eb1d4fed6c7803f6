-- ===== src/Models/Checks.antt =====
-- The checks of the registry of src/acabot/runtime/model/model_registry.py: true where the code
-- goes on and false where it raises its ValueError.
use text.Mathlib.Text.{starts_with}
use aca_bot.Prelude.{
  String, Bool, true, false, ◌&&◌, ◌||◌, not, Option, none, some, List, [], ◌∷◌, ◌++◌, Dict, lookup,
  str_eq, is_some, if◌then◌else◌, leb, ltb, length,
}
use aca_bot.Compactor.Text.{strip}
use aca_bot.Runs.Records.{contains}
use aca_bot.Models.Auth.{normalize_provider_auth_fields}
use aca_bot.Models.Kinds.{is_supported_kind}
use aca_bot.Models.Registry.{
  ℤ, is_positive, ModelProvider, ModelPreset, ModelBinding, ModelRegistry, config_api_key_env,
  config_api_key, config_base_url, config_api_version,
}
use aca_bot.Models.Targets.{
  ModelTarget, MutableModelTargetCatalog, get_target, contains_all, supported_model_task_kinds,
  supported_model_capabilities,
}

unfoldable pub is_blank : String → Bool
unfolding strip
is_blank text = str_eq (strip text) ""

unfoldable pub normalize_capabilities_from : List String → List String → List String
unfolding strip contains
normalize_capabilities_from normalized [] = normalized
normalize_capabilities_from normalized (x ∷ xs) =
    let item = strip x in
    let kept = normalize_capabilities_from normalized xs in
    let added = normalize_capabilities_from (normalized ++ item ∷ []) xs in
    if str_eq item "" then kept else if contains normalized item then kept else added

unfoldable pub normalize_capabilities : List String → List String
unfolding normalize_capabilities_from
normalize_capabilities xs = normalize_capabilities_from [] xs

abbrev pub positive_or_none : Option ℤ → Bool
positive_or_none none = true
positive_or_none (some n) = is_positive n

abbrev pub allows_count : Option ModelTarget → List String → Bool
allows_count none ids = true
allows_count (some target) ids = target.allow_fallbacks || leb (length ids) 1

-- `_binding_for`
unfoldable pub binding_for : String → Dict ModelBinding → Option ModelBinding
binding_for target_id [] = none
binding_for target_id ((k, b) ∷ m) =
    if str_eq b.target_id target_id then some b else binding_for target_id m

module _ {V : Type 0} where
  -- `_validate_provider`
  unfoldable pub validate_provider : ModelProvider V → Bool
  unfolding is_supported_kind normalize_provider_auth_fields strip
  validate_provider p =
      let (env, key) =
        normalize_provider_auth_fields (config_api_key_env p.config) (config_api_key p.config) in
      let api_version = strip (config_api_version p.config) in
      is_supported_kind p.kind
      && not (is_blank p.provider_id)
      && (not (str_eq env "") || not (str_eq key "") || str_eq p.kind "ollama")
      && (not (str_eq p.kind "openai_compatible") || not (is_blank (config_base_url p.config)))
      && (not (str_eq p.kind "google_gemini")
          || str_eq api_version ""
          || starts_with api_version "v")

  -- The fields that the check of a preset assigns once the kind of task is known.
  unfoldable pub normalized_preset : ModelPreset V → ModelPreset V
  unfolding strip
  normalized_preset p = record p {
    task_kind = strip p.task_kind;
    capabilities = normalize_capabilities p.capabilities;
  }

  unfoldable pub starts_right : Dict (ModelProvider V) → ModelPreset V → Bool
  unfolding lookup strip contains supported_model_task_kinds
  starts_right providers p =
      not (is_blank p.preset_id)
      && is_some (lookup p.provider_id providers)
      && not (is_blank p.model)
      && contains supported_model_task_kinds (strip p.task_kind)

  -- `_validate_preset`, with the preset as the check leaves it.
  unfoldable pub validate_preset : Dict (ModelProvider V) → ModelPreset V → Bool × ModelPreset V
  unfolding normalized_preset contains supported_model_capabilities
  validate_preset providers p =
      let q = normalized_preset p in
      if starts_right providers p
      then (
        contains_all supported_model_capabilities q.capabilities
            && is_positive q.context_window
            && positive_or_none q.max_output_tokens,
        q,
      )
      else (false, p)

  -- Whether a preset can serve a target.
  unfoldable pub serves : ModelTarget → ModelPreset V → Bool
  unfolding contains
  serves target preset =
      str_eq preset.task_kind target.task_kind
      && contains_all preset.capabilities target.required_capabilities

  abbrev pub serves_if_known : Option ModelTarget → ModelPreset V → Bool
  serves_if_known none preset = true
  serves_if_known (some target) preset = serves target preset

  -- The loop over the presets of a binding.
  unfoldable pub validate_preset_ids :
      Dict (ModelPreset V) → Option ModelTarget → List String → Bool
  unfolding lookup
  validate_preset_ids presets target [] = true
  validate_preset_ids presets target (i ∷ ids) =
      elim (lookup i presets) [ none ↦ false | some preset ↦ serves_if_known target preset ]
      && validate_preset_ids presets target ids

  -- `_validate_binding`
  unfoldable pub validate_binding :
      MutableModelTargetCatalog → Dict (ModelPreset V) → ModelBinding → Bool
  unfolding get_target validate_preset_ids
  validate_binding catalog presets b =
      let target = get_target catalog b.target_id in
      not (is_blank b.binding_id)
      && not (is_blank b.target_id)
      && ltb 0 (length b.preset_ids)
      && (is_some target || starts_with b.target_id "plugin:")
      && validate_preset_ids presets target b.preset_ids
      && allows_count target b.preset_ids
      && positive_or_none b.timeout_sec

  unfoldable pub validate_providers : Dict (ModelProvider V) → Bool
  unfolding validate_provider
  validate_providers [] = true
  validate_providers ((k, p) ∷ m) =
      str_eq k p.provider_id && validate_provider p && validate_providers m

  -- The loop over the presets, with the presets as it leaves them.
  unfoldable pub validate_presets :
      Dict (ModelProvider V) → Dict (ModelPreset V) → Bool × Dict (ModelPreset V)
  unfolding validate_preset
  validate_presets providers [] = (true, [])
  validate_presets providers ((k, p) ∷ m) =
      let (valid, q) = validate_preset providers p in
      let (rest, after) = validate_presets providers m in
      if not (str_eq k p.preset_id)
      then (false, (k, p) ∷ m)
      else if valid
      then (rest, (k, q) ∷ after)
      else (false, (k, q) ∷ m)

  unfoldable pub validate_bindings :
      MutableModelTargetCatalog → Dict (ModelPreset V) → List String → Dict ModelBinding → Bool
  unfolding validate_binding contains
  validate_bindings catalog presets target_ids [] = true
  validate_bindings catalog presets target_ids ((k, b) ∷ m) =
      str_eq k b.binding_id
      && validate_binding catalog presets b
      && not (contains target_ids b.target_id)
      && validate_bindings catalog presets (b.target_id ∷ target_ids) m

  -- `validate`, with the registry as it leaves it.
  unfoldable pub validate : MutableModelTargetCatalog → ModelRegistry V → Bool × ModelRegistry V
  unfolding validate_providers validate_presets validate_bindings
  validate catalog r =
      let (valid, presets) = validate_presets r.providers r.presets in
      if validate_providers r.providers
      then (
        valid && validate_bindings catalog presets [] r.bindings,
        record r { presets = presets },
      )
      else (false, r)
