-- ===== src/Models/Sound.antt =====
-- What a registry keeps for its readers, whatever the catalog of targets becomes.
use aca_bot.Prelude.{
  ◌<◌, String, ◌≡◌, Bool, true, false, ◌&&◌, not, Option, List, [], ◌∷◌, Dict, lookup, str_eq,
  eq_iff, is_some, length, All, arith, Bool-cases, and_left, and_right, eq_refl, if-holds, inl, inr,
  ltb→lt,
}
use aca_bot.Runs.Records.{contains}
use aca_bot.Models.Registry.{ModelProvider, ModelPreset, ModelBinding, ModelRegistry}
use aca_bot.Models.Targets.{
  ModelTarget, MutableModelTargetCatalog, get_target, supported_model_task_kinds,
}
use aca_bot.Compactor.Text.{strip}
use aca_bot.Models.Checks.{
  is_blank, normalized_preset, starts_right, validate_preset, validate_preset_ids, validate_binding,
  validate_providers, validate_presets, validate_bindings, validate,
}

-- No two bindings have one target.
abbrev pub IsUnique : Dict ModelBinding → Type 0
IsUnique [] = Unit
IsUnique ((k, b) ∷ m) =
    All (λ (e : String × ModelBinding). str_eq b.target_id e.1.target_id ≡ false) m × IsUnique m

module _ {V : Type 0} where
  -- The key is the preset's id, and its provider is there.
  abbrev pub IsPresetSound : Dict (ModelProvider V) → String × ModelPreset V → Type 0
  IsPresetSound providers (k, p) =
      (k ≡ p.preset_id) × (is_some (lookup p.provider_id providers) ≡ true)

  -- The key is the binding's id, and it names one preset at least, all of which are there.
  abbrev pub IsBindingSound : Dict (ModelPreset V) → String × ModelBinding → Type 0
  IsBindingSound presets (k, b) =
      (k ≡ b.binding_id)
      × (0 < length b.preset_ids)
      × All (λ i. is_some (lookup i presets) ≡ true) b.preset_ids

  pub record IsSound (r : ModelRegistry V) : Type 0 where
    pub provider_keys : All (λ (e : String × ModelProvider V). e.0 ≡ e.1.provider_id) r.providers
    pub sound_presets : All (IsPresetSound r.providers) r.presets
    pub sound_bindings : All (IsBindingSound r.presets) r.bindings
    pub unique_targets : IsUnique r.bindings

  validate_providers-keys :
      (m : Dict (ModelProvider V))
      → validate_providers m ≡ true
      → All (λ (e : String × ModelProvider V). e.0 ≡ e.1.provider_id) m
  unfolding validate_providers
  validate_providers-keys [] h = tt
  validate_providers-keys ((k, p) ∷ m) h = (
    (eq_iff k p.provider_id).0 (and_left _ _ (and_left _ _ h)),
    validate_providers-keys m (and_right _ _ h),
  )

  starts_right-known :
      (providers : Dict (ModelProvider V)) (p : ModelPreset V)
      → starts_right providers p ≡ true
      → is_some (lookup p.provider_id providers) ≡ true
  unfolding starts_right
  starts_right-known providers p h =
      let known = is_some (lookup p.provider_id providers) in
      let task_kind = contains supported_model_task_kinds (strip p.task_kind) in
      and_right (not (is_blank p.preset_id)) known (
        and_left (not (is_blank p.preset_id) && known) (not (is_blank p.model))
          (and_left (not (is_blank p.preset_id) && known && not (is_blank p.model)) task_kind h))

  -- The check keeps the ids of a preset.
  validate_preset-IsPresetSound :
      (providers : Dict (ModelProvider V)) (k : String) (p : ModelPreset V)
      → (validate_preset providers p).0 ≡ true
      → str_eq k p.preset_id ≡ true
      → IsPresetSound providers (k, (validate_preset providers p).1)
  unfolding validate_preset normalized_preset
  validate_preset-IsPresetSound providers k p h e =
      if-holds (λ (r : Bool × ModelPreset V). r.0 ≡ true → IsPresetSound providers (k, r.1))
        (starts_right providers p)
        (λ s v. ((eq_iff k p.preset_id).0 e, starts_right-known providers p s))
        (λ s v. absurd (ground arith)) h

  validate_presets_sound :
      (providers : Dict (ModelProvider V)) (m : Dict (ModelPreset V))
      → (validate_presets providers m).0 ≡ true
      → All (IsPresetSound providers) (validate_presets providers m).1
  unfolding validate_presets
  validate_presets_sound providers [] h = tt
  validate_presets_sound providers ((k, p) ∷ m) h = elim (Bool-cases (str_eq k p.preset_id)) [
    | inl e ↦ elim (Bool-cases (validate_preset providers p).0) [
      | inl v ↦
          rw (e, v)
            (
              validate_preset-IsPresetSound providers k p v e,
              validate_presets_sound providers m (ground arith),
            )
      | inr v ↦ absurd (ground arith)
    ]
    | inr e ↦ absurd (ground arith)
  ]

  pub validate_preset_ids-known :
      (presets : Dict (ModelPreset V)) (target : Option ModelTarget) (ids : List String)
      → validate_preset_ids presets target ids ≡ true
      → All (λ i. is_some (lookup i presets) ≡ true) ids
  unfolding validate_preset_ids
  validate_preset_ids-known presets target [] h = tt
  validate_preset_ids-known presets target (i ∷ ids) h =
      (ground arith, validate_preset_ids-known presets target ids (ground arith))

  validate_binding-IsBindingSound :
      (catalog : MutableModelTargetCatalog) (presets : Dict (ModelPreset V)) (k : String)
      (b : ModelBinding)
      → validate_binding catalog presets b ≡ true
      → str_eq k b.binding_id ≡ true
      → IsBindingSound presets (k, b)
  unfolding validate_binding
  validate_binding-IsBindingSound catalog presets k b h e = (
    (eq_iff k b.binding_id).0 e,
    ltb→lt 0 (length b.preset_ids) (ground arith),
    validate_preset_ids-known presets (get_target catalog b.target_id) b.preset_ids (ground arith),
  )

  validate_bindings_sound :
      (catalog : MutableModelTargetCatalog) (presets : Dict (ModelPreset V)) (seen : List String)
      (m : Dict ModelBinding)
      → validate_bindings catalog presets seen m ≡ true
      → All (IsBindingSound presets) m
  unfolding validate_bindings
  validate_bindings_sound catalog presets seen [] h = tt
  validate_bindings_sound catalog presets seen ((k, b) ∷ m) h = (
    validate_binding-IsBindingSound catalog presets k b (ground arith) (ground arith),
    validate_bindings_sound catalog presets (b.target_id ∷ seen) m (ground arith),
  )

  -- A target that was seen is not seen again.
  validate_bindings-seen :
      (catalog : MutableModelTargetCatalog) (presets : Dict (ModelPreset V)) (seen : List String)
      (t : String) (m : Dict ModelBinding)
      → contains seen t ≡ true
      → validate_bindings catalog presets seen m ≡ true
      → All (λ (e : String × ModelBinding). str_eq t e.1.target_id ≡ false) m
  unfolding validate_bindings contains
  validate_bindings-seen catalog presets seen t [] s h = tt
  validate_bindings-seen catalog presets seen t ((k, b) ∷ m) s h = (
    ground (arith, eq_iff t b.target_id),
    validate_bindings-seen catalog presets (b.target_id ∷ seen) t m (ground arith) (ground arith),
  )

  validate_bindings-IsUnique :
      (catalog : MutableModelTargetCatalog) (presets : Dict (ModelPreset V)) (seen : List String)
      (m : Dict ModelBinding)
      → validate_bindings catalog presets seen m ≡ true
      → IsUnique m
  unfolding validate_bindings contains
  validate_bindings-IsUnique catalog presets seen [] h = tt
  validate_bindings-IsUnique catalog presets seen ((k, b) ∷ m) h = (
    validate_bindings-seen catalog presets (b.target_id ∷ seen) b.target_id m
        (ground (arith, eq_refl b.target_id)) (ground arith),
    validate_bindings-IsUnique catalog presets (b.target_id ∷ seen) m (ground arith),
  )

  -- A registry that passes the check is sound as the check leaves it.
  pub validate-IsSound :
      (catalog : MutableModelTargetCatalog) (r : ModelRegistry V)
      → (validate catalog r).0 ≡ true
      → IsSound (validate catalog r).1
  unfolding validate
  validate-IsSound catalog r h = elim (Bool-cases (validate_providers r.providers)) [
    | inl p ↦
        let presets = (validate_presets r.providers r.presets).1 in
        let b : validate_bindings catalog presets [] r.bindings ≡ true = ground arith in
        rw p (record {
          provider_keys = validate_providers-keys r.providers p;
          sound_presets = validate_presets_sound r.providers r.presets (ground arith);
          sound_bindings = validate_bindings_sound catalog presets [] r.bindings b;
          unique_targets = validate_bindings-IsUnique catalog presets [] r.bindings b;
        })
    | inr p ↦ absurd (ground arith)
  ]
