-- ===== src/Models/Cascade.antt =====
-- A deletion with everything that depends on what is deleted.
use aca_bot.Prelude.{
  String, ◌≡◌, sym, ◌∙◌, subst, true, false, List, [], ◌∷◌, remove, lookup-remove, str_eq, eq_iff,
  All, arith, Bool-cases, inl, inr, sort,
}
use aca_bot.Runs.Records.{contains}
use aca_bot.Texts.{contains-sort, All-contains}
use aca_bot.Models.Registry.{ModelProvider, ModelPreset, ModelBinding, ModelRegistry}
use aca_bot.Models.Impacts.{
  by_text, text_set, binding_uses, ids_of, preset_impact, preset_uses, nested, provider_impact,
  remove_all, delete_provider_from_registry, delete_preset_from_registry,
}
use aca_bot.Models.Reported.{
  All-remove, All-map, All-both, All-remove_all, lookup-remove_all, IsUnique-remove_all, IsReported,
  All-IsReported, contains-text_set, contains-preset_impact, IsUsed, preset_uses-IsUsed,
  nested-bindings,
}
use aca_bot.Models.Sound.{IsPresetSound, IsBindingSound, IsSound}

module _ {V : Type 0} where
  -- The presets that are left have their providers.
  left_presets :
      (id : String) (ids : List String) (r : ModelRegistry V)
      → ((k : String) → contains (preset_uses id r.presets) k ≡ true → contains ids k ≡ true)
      → IsSound r
      → All (IsPresetSound (remove id r.providers)) (remove_all ids r.presets)
  unfolding IsUsed
  left_presets id ids r covered s =
      let P : String × ModelPreset V → Type 0 =
        λ e. IsPresetSound r.providers e × IsUsed id (preset_uses id r.presets) e in
      All-map (λ e. P e × (contains ids e.0 ≡ false)) (IsPresetSound (remove id r.providers))
        (remove_all ids r.presets)
        (λ e p. (
          p.0.0.0,
          elim (Bool-cases (str_eq id e.1.provider_id)) [
            | inl q ↦ absurd (
                let u : contains ids e.0 ≡ true =
                  covered e.0 (
                    p.0.1 (ground (arith, eq_iff id e.1.provider_id, eq_iff e.1.provider_id id))) in
                ground arith)
            | inr q ↦ rw (lookup-remove id e.1.provider_id r.providers, q) p.0.0.1
          ],
        ))
        (All-remove_all P ids r.presets (
          All-both (IsPresetSound r.providers) (IsUsed id (preset_uses id r.presets)) r.presets
            s.sound_presets (preset_uses-IsUsed id r.presets)))

  -- The bindings that are left have their presets.
  left_bindings :
      (ids bindings : List String) (r : ModelRegistry V)
      → ((i k : String)
          → contains ids i ≡ true
          → contains (ids_of (binding_uses i r.bindings)) k ≡ true
          → contains bindings k ≡ true)
      → IsSound r
      → All (IsBindingSound (remove_all ids r.presets)) (remove_all bindings r.bindings)
  unfolding IsReported
  left_bindings ids bindings r covered s =
      let P : String × ModelBinding → Type 0 = λ e.
        IsBindingSound r.presets e × ((i : String) → IsReported i (binding_uses i r.bindings) e) in
      All-map (λ e. P e × (contains bindings e.0 ≡ false))
        (IsBindingSound (remove_all ids r.presets)) (remove_all bindings r.bindings)
        (λ e p. (
          p.0.0.0,
          p.0.0.1,
          All-contains e.1.preset_ids
              (λ i named here. elim (Bool-cases (contains ids i)) [
                | inl q ↦ absurd (
                    let u : contains bindings e.1.binding_id ≡ true =
                      covered i e.1.binding_id q (p.0.1 i named) in
                    let v : contains bindings e.1.binding_id ≡ false =
                      subst (λ (k : String). contains bindings k ≡ false) p.0.0.0 p.1 in
                    ground arith)
                | inr q ↦ rw (lookup-remove_all i ids r.presets q) here
              ])
              p.0.0.2,
        ))
        (All-remove_all P bindings r.bindings (
          All-both (IsBindingSound r.presets)
            (λ e. (i : String) → IsReported i (binding_uses i r.bindings) e) r.bindings
            s.sound_bindings (All-IsReported r.bindings)))

  -- Taking a provider out of a sound registry, with the presets and the bindings that the impact
  -- reports, leaves a sound registry.
  pub delete_provider_from_registry-IsSound :
      (r : ModelRegistry V) (id : String)
      → IsSound r
      → IsSound (
          delete_provider_from_registry id
            (provider_impact r id).preset_ids
            (provider_impact r id).binding_ids
            r)
  unfolding delete_provider_from_registry provider_impact
  delete_provider_from_registry-IsSound r id s =
      let uses = preset_uses id r.presets in
      let ids = sort by_text uses in
      let reported = nested r (λ impact. impact.binding_ids) uses in
      let bindings = sort by_text (text_set reported) in
      record {
        provider_keys =
            All-map _ _ (remove id r.providers) (λ e p. p.0)
              (All-remove (λ (e : String × ModelProvider V). e.0 ≡ e.1.provider_id) id r.providers
                s.provider_keys);
        sound_presets = left_presets id ids r (λ k h. contains-sort by_text k uses ∙ h) s;
        sound_bindings =
            left_bindings ids bindings r
              (λ i k h n.
                contains-sort by_text k (text_set reported)
                ∙ (contains-text_set k reported
                    ∙ nested-bindings r uses i k (sym (contains-sort by_text i uses) ∙ h)
                        (contains-preset_impact r i k ∙ n)))
              s;
        unique_targets = IsUnique-remove_all bindings r.bindings s.unique_targets;
      }

  -- Taking a preset out of a sound registry, with the bindings that the impact reports, leaves a
  -- sound registry.
  pub delete_preset_from_registry-IsSound :
      (r : ModelRegistry V) (id : String)
      → IsSound r
      → IsSound (delete_preset_from_registry id (preset_impact r id).binding_ids r)
  unfolding delete_preset_from_registry remove_all contains
  delete_preset_from_registry-IsSound r id s =
      let bindings = (preset_impact r id).binding_ids in
      record {
        provider_keys = s.provider_keys;
        sound_presets =
            All-map _ _ (remove id r.presets) (λ e p. p.0)
              (All-remove (IsPresetSound r.providers) id r.presets s.sound_presets);
        sound_bindings =
            left_bindings (id ∷ []) bindings r
              (λ i k h n.
                subst (λ (x : String). contains (preset_impact r x).binding_ids k ≡ true)
                  (sym (only id i h)) (contains-preset_impact r i k ∙ n))
              s;
        unique_targets = IsUnique-remove_all bindings r.bindings s.unique_targets;
      }
    where
      only : (j i : String) → contains (j ∷ []) i ≡ true → j ≡ i
      only j i h = (eq_iff j i).0 (ground arith)
