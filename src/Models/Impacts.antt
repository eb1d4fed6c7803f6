-- ===== src/Models/Impacts.antt =====
-- What depends on a provider, a preset or a binding, and what a deletion takes out of a registry,
-- of src/acabot/runtime/model/model_registry.py.
use aca_bot.Prelude.{
  String, none, some, List, [], ◌∷◌, ◌++◌, Bool, Dict, lookup, remove, sort, str_geb, str_eq,
  if◌then◌else◌,
}
use aca_bot.Runs.Records.{contains}
use aca_bot.Models.Prefix.{after_prefix}
use aca_bot.Models.Registry.{ModelPreset, ModelBinding, ModelRegistry}

pub data ModelEntityType : Type 0 where
  provider_entity preset_entity binding_entity : ModelEntityType

pub record ModelImpactSnapshot : Type 0 where
  pub entity_type : ModelEntityType
  pub entity_id : String
  pub preset_ids : List String
  pub binding_ids : List String
  pub agent_ids : List String
  pub system_targets : List String

abbrev pub by_text : String → String → Bool
by_text a b = str_geb b a

-- `set`, of which the code only takes the sorted list.
unfoldable pub text_set : List String → List String
unfolding contains
text_set [] = []
text_set (t ∷ ts) = let rest = text_set ts in if contains rest t then rest else t ∷ rest

abbrev empty_impact : ModelEntityType → String → ModelImpactSnapshot
empty_impact entity_type entity_id = record {
  entity_type = entity_type;
  entity_id = entity_id;
  preset_ids = [];
  binding_ids = [];
  agent_ids = [];
  system_targets = [];
}

-- The target's id after the prefix, if it has the prefix.
unfoldable pub suffixes : String → String → List String
unfolding after_prefix
suffixes prefix target_id = elim (after_prefix prefix target_id) [
  | some suffix ↦ suffix ∷ []
  | none ↦ []
]

-- The bindings that name the preset, in the order of the dictionary.
unfoldable pub binding_uses : String → Dict ModelBinding → List ModelBinding
unfolding contains
binding_uses preset_id [] = []
binding_uses preset_id ((k, b) ∷ m) =
    if contains b.preset_ids preset_id
    then b ∷ binding_uses preset_id m
    else binding_uses preset_id m

unfoldable pub ids_of : List ModelBinding → List String
ids_of [] = []
ids_of (b ∷ bs) = b.binding_id ∷ ids_of bs

unfoldable pub suffixes_of : String → List ModelBinding → List String
suffixes_of prefix [] = []
suffixes_of prefix (b ∷ bs) = suffixes prefix b.target_id ++ suffixes_of prefix bs

unfoldable pub preset_impact : {V : Type 0} → ModelRegistry V → String → ModelImpactSnapshot
unfolding binding_uses ids_of suffixes_of sort
preset_impact r preset_id =
    let uses = binding_uses preset_id r.bindings in
    record (empty_impact preset_entity preset_id) {
      binding_ids = sort by_text (ids_of uses);
      agent_ids = sort by_text (suffixes_of "agent:" uses);
      system_targets = sort by_text (suffixes_of "system:" uses);
    }

-- The keys of the presets of a provider.
unfoldable pub preset_uses : {V : Type 0} → String → Dict (ModelPreset V) → List String
preset_uses provider_id [] = []
preset_uses provider_id ((k, p) ∷ m) =
    let rest = preset_uses provider_id m in
    if str_eq p.provider_id provider_id then k ∷ rest else rest

-- One list of the impacts of several presets.
unfoldable pub nested :
    {V : Type 0} → ModelRegistry V → (ModelImpactSnapshot → List String) → List String → List String
unfolding preset_impact
nested r field [] = []
nested r field (i ∷ ids) = field (preset_impact r i) ++ nested r field ids

unfoldable pub provider_impact : {V : Type 0} → ModelRegistry V → String → ModelImpactSnapshot
unfolding preset_uses nested text_set sort
provider_impact r provider_id =
    let preset_ids = preset_uses provider_id r.presets in
    let sorted_set : (ModelImpactSnapshot → List String) → List String =
      λ field. sort by_text (text_set (nested r field preset_ids)) in
    record (empty_impact provider_entity provider_id) {
      preset_ids = sort by_text preset_ids;
      binding_ids = sorted_set (λ impact. impact.binding_ids);
      agent_ids = sorted_set (λ impact. impact.agent_ids);
      system_targets = sorted_set (λ impact. impact.system_targets);
    }

unfoldable pub binding_impact : {V : Type 0} → ModelRegistry V → String → ModelImpactSnapshot
unfolding lookup
binding_impact r binding_id = elim (lookup binding_id r.bindings) [
  | none ↦ empty_impact binding_entity binding_id
  | some b ↦ record (empty_impact binding_entity binding_id) {
    agent_ids = suffixes "agent:" b.target_id;
    system_targets = suffixes "system:" b.target_id;
  }
]

-- `pop` of several keys.
unfoldable pub remove_all : {A : Type 0} → List String → Dict A → Dict A
unfolding remove
remove_all [] m = m
remove_all (k ∷ ks) m = remove_all ks (remove k m)

unfoldable pub delete_provider_from_registry :
    {V : Type 0}
    → String
    → (preset_ids binding_ids : List String) → ModelRegistry V
    → ModelRegistry V
unfolding remove remove_all
delete_provider_from_registry provider_id preset_ids binding_ids r = record {
  providers = remove provider_id r.providers;
  presets = remove_all preset_ids r.presets;
  bindings = remove_all binding_ids r.bindings;
}

unfoldable pub delete_preset_from_registry :
    {V : Type 0} → String → (binding_ids : List String) → ModelRegistry V → ModelRegistry V
unfolding remove remove_all
delete_preset_from_registry preset_id binding_ids r = record r {
  presets = remove preset_id r.presets;
  bindings = remove_all binding_ids r.bindings;
}
