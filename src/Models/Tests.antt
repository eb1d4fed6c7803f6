-- ===== src/Models/Tests.antt =====
-- A registry with two presets, whose binding serves a system target, and its files.
use aca_bot.Prelude.{
  String, true, false, none, some, List, [], ◌∷◌, insert, remove, lookup, ◌≡◌, refl, str_geb,
}
use aca_bot.Errors.{ok}
use aca_bot.Models.Registry.{
  pos, open_ai_config, ModelProvider, ModelPreset, ModelBinding, ModelRegistry,
}
use aca_bot.Models.Targets.{ModelTarget, MutableModelTargetCatalog, system_kind, get_target}
use aca_bot.Models.Checks.{
  validate, is_blank, starts_right, normalize_capabilities, serves, binding_for,
}
use aca_bot.Models.Impacts.{
  provider_entity, provider_impact, delete_provider_from_registry, remove_all,
}
use aca_bot.Models.Requests.{resolve_target_request}
use aca_bot.Models.Manager.{
  FileChange, write_provider, write_preset, write_binding, delete_files, Disk, Manager, reload,
  upsert_action, apply_candidate, state_in, cached,
}
use aca_bot.Models.Changes.{delete_binding, make_report}
use aca_bot.Models.Sound.{IsSound, validate-IsSound}
use aca_bot.Models.Integrity.{
  Operation, upsert_provider_op, upsert_preset_op, upsert_binding_op, delete_provider_op, run,
  run-IsSound,
}
use aca_bot.Models.Cascade.{delete_provider_from_registry-IsSound}
use aca_bot.Models.Resolved.{IsChain, validate-resolve_target_request}
use aca_bot.Models.Answered.{IsAnswered, apply_candidate-IsAnswered}
use aca_bot.Models.Raised.{IsRaised, delete_binding-IsRaised}

abbrev provider : ModelProvider String
provider = record {
  provider_id = "p";
  kind = "deepseek";
  config = open_ai_config (record {
    base_url = "";
    api_key_env = "KEY";
    api_key = "";
    defaults = record { default_headers = []; default_query = []; default_body = [] };
  });
  name = "p";
}

abbrev preset : String → ModelPreset String
preset preset_id = record {
  preset_id = preset_id;
  provider_id = "p";
  model = "m";
  task_kind = " chat";
  context_window = pos 8;
  capabilities = "reasoning" ∷ [];
  max_output_tokens = none;
  model_params = [];
}

abbrev binding : ModelBinding
binding = record {
  binding_id = "b";
  target_id = "system:ltm_extract";
  preset_ids = "x" ∷ "y" ∷ [];
  timeout_sec = some (pos 3);
}

abbrev registry : ModelRegistry String
registry = record {
  providers = ("p", provider) ∷ [];
  presets = ("x", preset "x") ∷ ("y", preset "y") ∷ [];
  bindings = ("b", binding) ∷ [];
}

abbrev target : ModelTarget
target = record {
  target_id = "system:ltm_extract";
  task_kind = "chat";
  source_kind = system_kind;
  owner_id = "ltm_extract";
  description = "长期记忆提取模型";
  required = true;
  allow_fallbacks = true;
  required_capabilities = [];
  metadata = [];
}

abbrev catalog : MutableModelTargetCatalog
catalog = record {
  system_targets = ("system:ltm_extract", target) ∷ [];
  agent_targets = [];
  plugin_targets = [];
}

registry_valid : (validate catalog registry).0 ≡ true
unfolding validate is_blank starts_right normalize_capabilities serves
registry_valid = refl

-- The files are a registry, and every write works.
changed : FileChange String → ModelRegistry String → ModelRegistry String
changed (write_provider p) r = record r { providers = insert p.provider_id p r.providers }
changed (write_preset p) r = record r { presets = insert p.preset_id p r.presets }
changed (write_binding b) r = record r { bindings = insert b.binding_id b r.bindings }
changed (delete_files providers presets bindings) r = record {
  providers = remove_all providers r.providers;
  presets = remove_all presets r.presets;
  bindings = remove_all bindings r.bindings;
}

abbrev disk : Disk String (ModelRegistry String)
disk = record { load = λ r. ok r; write = λ change r. (ok tt, changed change r) }

abbrev empty : ModelRegistry String
empty = record { providers = []; presets = []; bindings = [] }

abbrev manager : ModelRegistry String → Manager String (ModelRegistry String)
manager r = record {
  active_registry = r;
  cache_registry = none;
  cache_expiry = 0;
  last_error = none;
  target_catalog = catalog;
  files = r;
}

abbrev ops : List (Operation String (ModelRegistry String))
ops =
    upsert_provider_op 1 provider
    ∷ upsert_preset_op 2 (preset "x")
    ∷ upsert_preset_op 3 (preset "y")
    ∷ upsert_binding_op 4 binding
    ∷ delete_provider_op 5 "p" false
    ∷ []

run-IsSound_example : IsSound (run disk ops (manager empty)).active_registry
run-IsSound_example =
    run-IsSound disk ops (manager empty)
      (record { provider_keys = tt; sound_presets = tt; sound_bindings = tt; unique_targets = tt })

-- The changes are made, and the provider in use stays.
built : (run disk ops (manager empty)).active_registry ≡ (validate catalog registry).1
unfolding run changed apply_candidate state_in cached str_geb is_blank starts_right
    normalize_capabilities serves
built = refl

validate-resolve_target_request_example :
    IsChain
      (λ n. "n")
      catalog
      ("x" ∷ "y" ∷ [])
      (resolve_target_request (λ n. "n") catalog (validate catalog registry).1 "system:ltm_extract")
unfolding validate binding_for get_target is_blank starts_right normalize_capabilities serves
validate-resolve_target_request_example =
    validate-resolve_target_request (λ n. "n") catalog registry "system:ltm_extract" binding target
      refl refl refl

delete_provider_from_registry-IsSound_example : IsSound (
    delete_provider_from_registry "p"
      (provider_impact (validate catalog registry).1 "p").preset_ids
      (provider_impact (validate catalog registry).1 "p").binding_ids
      (validate catalog registry).1)
delete_provider_from_registry-IsSound_example =
    delete_provider_from_registry-IsSound (validate catalog registry).1 "p"
      (validate-IsSound catalog registry registry_valid)

-- Nothing is left.
cascaded :
    delete_provider_from_registry "p"
      (provider_impact (validate catalog registry).1 "p").preset_ids
      (provider_impact (validate catalog registry).1 "p").binding_ids
      (validate catalog registry).1
    ≡ empty
unfolding delete_provider_from_registry provider_impact validate str_geb is_blank starts_right
    normalize_capabilities serves
cascaded = refl

apply_candidate-IsAnswered_example : IsAnswered disk (write_provider provider) (manager registry) (
    apply_candidate disk 7
      (make_report upsert_action provider_entity "p" (provider_impact registry "p") [] [] [])
      (λ r. record r { providers = insert "p" provider r.providers })
      (write_provider provider)
      (manager registry))
apply_candidate-IsAnswered_example =
    apply_candidate-IsAnswered disk 7 (write_provider provider) (manager registry)
      (make_report upsert_action provider_entity "p" (provider_impact registry "p") [] [] [])
      (λ r. record r { providers = insert "p" provider r.providers })

abbrev without_binding : ModelRegistry String
without_binding = record registry { bindings = [] }

delete_binding-IsRaised_example :
    IsRaised (validate catalog without_binding).1 (delete_binding disk 7 "b" (manager registry))
unfolding validate lookup remove remove_all changed is_blank starts_right normalize_capabilities
    serves
delete_binding-IsRaised_example =
    delete_binding-IsRaised disk 7 "b" (manager registry) without_binding without_binding refl refl
      refl refl refl

abbrev dangling : ModelRegistry String
dangling = record registry { providers = [] }

abbrev edited : Manager String (ModelRegistry String)
edited = record (manager empty) { files = dangling }

-- A reload that fails leaves what it loaded in the cache, so that the next one says it worked.
reload_twice :
    ((reload disk 1 edited).0.is_ok ≡ false)
    × ((reload disk 2 (reload disk 1 edited).1).0.is_ok ≡ true)
    × ((reload disk 2 (reload disk 1 edited).1).1.active_registry ≡ empty)
unfolding reload cached starts_right is_blank
reload_twice = (refl, refl, refl)
