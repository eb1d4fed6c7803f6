-- ===== src/Models/Requests.antt =====
-- The state of a binding and the requests that it stands for, of
-- src/acabot/runtime/model/model_registry.py.
use Prim.Native.String.{◌++◌}
use aca_bot.Prelude.{
  String, Bool, ◌&&◌, ◌||◌, Option, none, some, List, [], ◌∷◌, Dict, lookup, insert, str_eq,
  is_some, if◌then◌else◌, leb, length,
}
use aca_bot.Errors.{Result, ok, err, value_error}
use aca_bot.Compactor.Text.{strip}
use aca_bot.Runs.Records.{contains}
use aca_bot.Models.Auth.{normalize_provider_auth_fields}
use aca_bot.Models.Prefix.{has_slash}
use aca_bot.Models.Kinds.{provider_kind_registry}
use aca_bot.Models.Registry.{
  ℤ, ProviderConfig, open_ai_config, anthropic_config, google_gemini_config, ModelProvider,
  ModelPreset, ModelBinding, ModelRegistry, config_api_key_env, config_api_key,
}
use aca_bot.Models.Targets.{ModelTarget, MutableModelTargetCatalog, get_target}
use aca_bot.Models.Checks.{normalize_capabilities, serves, binding_for}

pub data ModelBindingState : Type 0 where
  resolved unresolved_target invalid_binding : ModelBindingState

-- A request without its fallbacks. The parameters of the provider are its configuration with the
-- two fields for the key taken out, that is blank.
pub record RuntimeModelRequest (V : Type 0) : Type 0 where
  pub provider_kind : String
  pub model : String
  pub context_window : ℤ
  pub supports_tools : Bool
  pub supports_vision : Bool
  pub task_kind : String
  pub capabilities : List String
  pub provider_id : String
  pub preset_id : String
  pub binding_id : String
  pub api_key_env : String
  pub api_key : String
  pub provider_params : ProviderConfig V
  pub model_params : Dict V
  pub timeout : Option ℤ

abbrev pub without_key : {V : Type 0} → ProviderConfig V → ProviderConfig V
without_key (open_ai_config c) = open_ai_config (record c { api_key_env = ""; api_key = "" })
without_key (anthropic_config c) = anthropic_config (record c { api_key_env = ""; api_key = "" })
without_key (google_gemini_config c) =
    google_gemini_config (record c { api_key_env = ""; api_key = "" })

unfoldable pub resolved_model_name : String → String → String
unfolding strip has_slash provider_kind_registry lookup
resolved_model_name provider_kind model =
    let normalized = strip model in
    if str_eq normalized "" || has_slash normalized
    then normalized
    else elim (lookup provider_kind provider_kind_registry) [
      | some meta ↦ meta.litellm_prefix ++ normalized
      | none ↦ normalized
    ]

-- `setdefault`
unfoldable pub set_default : {V : Type 0} → String → V → Dict V → Dict V
unfolding lookup insert
set_default k v m = if is_some (lookup k m) then m else insert k v m

abbrev pub binding_name : Option ModelBinding → String
binding_name none = ""
binding_name (some b) = b.binding_id

abbrev pub binding_timeout : Option ModelBinding → Option ℤ
binding_timeout none = none
binding_timeout (some b) = b.timeout_sec

module _ {V : Type 0} where
  -- The loop of a snapshot over the presets of a binding.
  unfoldable pub preset_ids_state : ModelRegistry V → ModelTarget → List String → ModelBindingState
  unfolding lookup contains
  preset_ids_state r target [] = resolved
  preset_ids_state r target (i ∷ ids) = elim (lookup i r.presets) [
    | none ↦ invalid_binding
    | some preset ↦
        if serves target preset && is_some (lookup preset.provider_id r.providers)
        then preset_ids_state r target ids
        else invalid_binding
  ]

  -- The state in `_binding_snapshot_for_registry`.
  unfoldable pub binding_state :
      MutableModelTargetCatalog → ModelRegistry V → ModelBinding → ModelBindingState
  unfolding get_target preset_ids_state
  binding_state catalog r b = elim (get_target catalog b.target_id) [
    | none ↦ unresolved_target
    | some target ↦
        if leb (length b.preset_ids) 0
        then invalid_binding
        else if target.allow_fallbacks || leb (length b.preset_ids) 1
        then preset_ids_state r target b.preset_ids
        else invalid_binding
  ]

module _ {V : Type 0} (number : ℤ → V) where
  abbrev pub with_max_tokens : Option ℤ → Dict V → Dict V
  with_max_tokens none params = params
  with_max_tokens (some n) params = set_default "max_tokens" (number n) params

  unfoldable pub make_request :
      Option ModelBinding → ModelPreset V → ModelProvider V → RuntimeModelRequest V
  unfolding normalize_provider_auth_fields contains resolved_model_name
  make_request b preset provider =
      let (env, key) =
        normalize_provider_auth_fields (config_api_key_env provider.config)
          (config_api_key provider.config) in
      let capabilities = normalize_capabilities preset.capabilities in
      record {
        provider_kind = provider.kind;
        model = resolved_model_name provider.kind preset.model;
        context_window = preset.context_window;
        supports_tools = contains capabilities "tool_calling";
        supports_vision = contains capabilities "image_input";
        task_kind = preset.task_kind;
        capabilities = capabilities;
        provider_id = provider.provider_id;
        preset_id = preset.preset_id;
        binding_id = binding_name b;
        api_key_env = env;
        api_key = key;
        provider_params = without_key provider.config;
        model_params = with_max_tokens preset.max_output_tokens preset.model_params;
        timeout = binding_timeout b;
      }

  unfoldable pub request_from_preset_id :
      ModelRegistry V → Option ModelBinding → String → Option (RuntimeModelRequest V)
  unfolding lookup make_request
  request_from_preset_id r b preset_id = elim (lookup preset_id r.presets) [
    | none ↦ none
    | some preset ↦ elim (lookup preset.provider_id r.providers) [
      | none ↦ none
      | some provider ↦ some (make_request b preset provider)
    ]
  ]

  -- The requests of the presets that there are.
  unfoldable pub resolved_requests :
      ModelRegistry V → ModelBinding → List String → List (RuntimeModelRequest V)
  unfolding request_from_preset_id
  resolved_requests r b [] = []
  resolved_requests r b (i ∷ ids) =
      let rest = resolved_requests r b ids in
      elim (request_from_preset_id r (some b) i) [ none ↦ rest | some request ↦ request ∷ rest ]

  -- The first request and its `fallback_requests`, which have none of their own.
  unfoldable pub request_from_binding :
      ModelRegistry V → ModelBinding → Result (RuntimeModelRequest V × List (RuntimeModelRequest V))
  unfolding resolved_requests
  request_from_binding r b = elim (resolved_requests r b b.preset_ids) [
    | [] ↦ err value_error
    | first ∷ rest ↦ ok (first, rest)
  ]

  unfoldable pub resolve_binding :
      MutableModelTargetCatalog
      → ModelRegistry V
      → ModelBinding
      → Result (Option (RuntimeModelRequest V × List (RuntimeModelRequest V)))
  unfolding binding_state request_from_binding
  resolve_binding catalog r b = elim (binding_state catalog r b) [
    | resolved ↦ elim (request_from_binding r b) [
      | ok requests ↦ ok (some requests)
      | err e ↦ err e
    ]
    | _ ↦ ok none
  ]

  unfoldable pub resolve_target_request :
      MutableModelTargetCatalog
      → ModelRegistry V
      → String
      → Result (Option (RuntimeModelRequest V × List (RuntimeModelRequest V)))
  unfolding binding_for resolve_binding
  resolve_target_request catalog r target_id = elim (binding_for target_id r.bindings) [
    | none ↦ ok none
    | some b ↦ resolve_binding catalog r b
  ]
