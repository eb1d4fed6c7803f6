-- ===== src/Models/Raised.antt =====
-- The deletion of a binding, up to its answer.
use aca_bot.Prelude.{
  ℕ, ◌+◌, String, ◌≡◌, refl, sym, ap, ap₂, ◌∙◌, subst, Bool, true, none, some, [], ◌∷◌, lookup,
  if-holds, remove,
}
use aca_bot.Errors.{Result, ok, err, key_error}
use aca_bot.Models.Registry.{ModelRegistry}
use aca_bot.Models.Targets.{MutableModelTargetCatalog}
use aca_bot.Models.Checks.{validate, validate_providers}
use aca_bot.Models.Impacts.{ModelEntityType, binding_impact, binding_entity}
use aca_bot.Models.Manager.{
  FileChange, delete_files, Disk, Manager, Report, ModelReloadSnapshot, ModelMutationResult,
  reload_snapshot, activate, load_from_files, answered, finish_write, apply_candidate, state_in,
  delete_action,
}
use aca_bot.Models.Changes.{delete_binding, make_report, present}
use aca_bot.Models.Answered.{written, reload-written}

-- The answer is an error, and the registry that was loaded is active.
pub IsRaised : {V F : Type 0} → ModelRegistry V → Result ModelMutationResult × Manager V F → Type 0
IsRaised active (result, after) = (result ≡ err key_error) × (after.active_registry ≡ active)

module _ {V F : Type 0} (disk : Disk V F) (now : ℕ) where
  activate-valid :
      (loaded : ModelRegistry V) (m : Manager V F)
      → (validate m.target_catalog loaded).0 ≡ true
      → activate loaded m ≡ (
        reload_snapshot none (validate m.target_catalog loaded).1,
        record m {
          active_registry = (validate m.target_catalog loaded).1;
          cache_registry = some (validate m.target_catalog loaded).1;
          last_error = none;
        },
      )
  unfolding activate
  activate-valid loaded m v = rw (v, activate) refl

  load_from_files-loaded :
      (loaded : ModelRegistry V) (m : Manager V F)
      → disk.load m.files ≡ ok loaded
      → load_from_files disk now m ≡ activate loaded (record m { cache_expiry = now + 5 })
  unfolding load_from_files
  load_from_files-loaded loaded m l = rw (l, load_from_files) refl

  validate-bindings_same :
      (catalog : MutableModelTargetCatalog) (r : ModelRegistry V)
      → (validate catalog r).1.bindings ≡ r.bindings
  unfolding validate
  validate-bindings_same catalog r =
      if-holds (λ (x : Bool × ModelRegistry V). x.1.bindings ≡ r.bindings)
        (validate_providers r.providers) (λ p. refl) (λ p. refl)

  answered-missing :
      (report : Report) (snapshot : ModelReloadSnapshot) (m : Manager V F)
      → state_in report.entity_type report.entity_id m.target_catalog m.active_registry ≡ none
      → answered report (snapshot, m) ≡ (err key_error, m)
  unfolding answered
  answered-missing report snapshot m e = rw (e, answered) refl

  state_in-missing :
      (i : String) (catalog : MutableModelTargetCatalog) (r : ModelRegistry V)
      → lookup i r.bindings ≡ none
      → state_in binding_entity i catalog r ≡ none
  unfolding state_in
  state_in-missing i catalog r e = rw (e, state_in) refl

  apply_candidate-written :
      (report : Report) (mutator : ModelRegistry V → ModelRegistry V) (change : FileChange V)
      (m : Manager V F) (files : F)
      → (validate m.target_catalog (mutator m.active_registry)).0 ≡ true
      → disk.write change m.files ≡ (ok tt, files)
      → apply_candidate disk now report mutator change m
        ≡ answered report (load_from_files disk now (written disk change m files))
  unfolding apply_candidate finish_write written
  apply_candidate-written report mutator change m files v w =
      rw (v, w, apply_candidate, finish_write)
        (ap (answered report) (reload-written disk now change m files))

  answered-IsRaised :
      (report : Report) (loaded : ModelRegistry V) (m : Manager V F) (i : String)
      → report.entity_type ≡ binding_entity
      → report.entity_id ≡ i
      → disk.load m.files ≡ ok loaded
      → (validate m.target_catalog loaded).0 ≡ true
      → lookup i loaded.bindings ≡ none
      → IsRaised (validate m.target_catalog loaded).1 (answered report (load_from_files disk now m))
  unfolding IsRaised
  answered-IsRaised report loaded m i t k l v e =
      let checked = (validate m.target_catalog loaded).1 in
      let after : Manager V F = record m {
        active_registry = checked;
        cache_registry = some checked;
        cache_expiry = now + 5;
        last_error = none;
      } in
      let gone : lookup i checked.bindings ≡ none =
        ap (lookup i) (validate-bindings_same m.target_catalog loaded) ∙ e in
      let state : state_in report.entity_type report.entity_id m.target_catalog checked ≡ none =
        ap₂ (λ (a : ModelEntityType) (b : String). state_in a b m.target_catalog checked) t k
        ∙ state_in-missing i m.target_catalog checked gone in
      let answer : answered report (load_from_files disk now m) ≡ (err key_error, after) =
        ap (answered report) (
          load_from_files-loaded loaded m l
          ∙ activate-valid loaded (record m { cache_expiry = now + 5 }) v)
        ∙ answered-missing report (reload_snapshot none checked) after state in
      subst (IsRaised checked) (sym answer) (refl, refl)

  -- A deletion of a binding that works, with files that pass the check and no longer have the
  -- binding, makes them the active registry and then raises a KeyError.
  pub delete_binding-IsRaised :
      (i : String) (m : Manager V F) (files : F) (loaded : ModelRegistry V)
      → (validate m.target_catalog
          (record m.active_registry { bindings = remove i m.active_registry.bindings })).0
        ≡ true
      → disk.write (delete_files [] [] (i ∷ [])) m.files ≡ (ok tt, files)
      → disk.load files ≡ ok loaded
      → (validate m.target_catalog loaded).0 ≡ true
      → lookup i loaded.bindings ≡ none
      → IsRaised (validate m.target_catalog loaded).1 (delete_binding disk now i m)
  unfolding delete_binding written
  delete_binding-IsRaised i m files loaded c w l v e =
      let report =
        make_report delete_action binding_entity i (binding_impact m.active_registry i) [] []
          (present i m.active_registry.bindings) in
      let change : FileChange V = delete_files [] [] (i ∷ []) in
      let mutator : ModelRegistry V → ModelRegistry V =
        λ r. record r { bindings = remove i r.bindings } in
      subst (IsRaised (validate m.target_catalog loaded).1)
        (sym (apply_candidate-written report mutator change m files c w))
        (answered-IsRaised report loaded (written disk change m files) i refl refl l v e)
