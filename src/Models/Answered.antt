-- ===== src/Models/Answered.antt =====
-- What the answer to a change says of the active registry and of the files.
use aca_bot.Prelude.{
  ℕ, ◌+◌, ◌≡◌, refl, sym, subst, true, false, Option, none, some, ltb, if-holds, arith,
}
use aca_bot.Errors.{Result, ok, err, key_error}
use aca_bot.Models.Registry.{ModelRegistry}
use aca_bot.Models.Checks.{validate}
use aca_bot.Models.Requests.{ModelBindingState}
use aca_bot.Models.Manager.{
  of_error, FileChange, Disk, Manager, Report, ModelReloadSnapshot, ModelMutationResult, cached,
  reload_snapshot, activate, load_from_files, reload_now, reload, mutation_result, refused,
  answered, finish_write, apply_candidate, state_in,
}

module _ {V F : Type 0} (disk : Disk V F) (change : FileChange V) (m : Manager V F) where
  -- The change was written, the files give a registry that passes the check, and it is active.
  IsApplied : Manager V F → Type 0
  IsApplied after =
      (files : F) × (loaded : ModelRegistry V) × (disk.write change m.files ≡ (ok tt, files))
      × (disk.load files ≡ ok loaded)
      × ((validate m.target_catalog loaded).0 ≡ true)
      × (after.active_registry ≡ (validate m.target_catalog loaded).1)

  -- An answer that says `applied` is right, one that denies it leaves the active registry, and the
  -- only error is KeyError after a write.
  pub IsAnswered : Result ModelMutationResult × Manager V F → Type 0
  IsAnswered (ok result, after) =
      (result.applied ≡ true → IsApplied after)
      × (result.applied ≡ false → after.active_registry ≡ m.active_registry)
  IsAnswered (err e, after) =
      (e ≡ key_error) × ((files : F) × (disk.write change m.files ≡ (ok tt, files)))

  -- The same of a reload.
  IsReloaded : ModelReloadSnapshot × Manager V F → Type 0
  IsReloaded (snapshot, after) =
      (snapshot.is_ok ≡ true → IsApplied after)
      × (snapshot.is_ok ≡ false → after.active_registry ≡ m.active_registry)

  unfoldable pub written : F → Manager V F
  written files = record m { files = files; cache_registry = none; cache_expiry = 0 }

module _ {V F : Type 0} (disk : Disk V F) (now : ℕ) (change : FileChange V) (m : Manager V F) where
  activate-IsReloaded :
      (files : F) (loaded : ModelRegistry V) (expiry : ℕ)
      → disk.write change m.files ≡ (ok tt, files)
      → disk.load files ≡ ok loaded
      → IsReloaded disk change m
          (activate loaded (record (written disk change m files) { cache_expiry = expiry }))
  unfolding activate IsReloaded IsApplied written
  activate-IsReloaded files loaded expiry w l =
      if-holds (IsReloaded disk change m) (validate m.target_catalog loaded).0
        (λ v. (λ h. (files, loaded, w, l, v, refl), λ h. absurd (ground arith)))
        (λ v. (λ h. absurd (ground arith), λ h. refl))

  load_from_files-IsReloaded :
      (files : F)
      → disk.write change m.files ≡ (ok tt, files)
      → IsReloaded disk change m (load_from_files disk now (written disk change m files))
  unfolding load_from_files IsReloaded IsApplied written
  load_from_files-IsReloaded files w = go (disk.load files) refl
    where
      go :
          (loaded : Result (ModelRegistry V))
          → disk.load files ≡ loaded
          → IsReloaded disk change m (elim loaded as (λ _. ModelReloadSnapshot × Manager V F) [
            | ok r ↦ activate r (record (written disk change m files) { cache_expiry = now + 5 })
            | err e ↦ (
              reload_snapshot (some e) m.active_registry,
              record (written disk change m files) { last_error = some e },
            )
          ])
      go (ok r) l = activate-IsReloaded files r (now + 5) w l
      go (err e) l = (λ h. absurd (ground arith), λ h. refl)

  cached-written : (files : F) → cached now (written disk change m files) ≡ none
  unfolding cached written
  cached-written files =
      if-holds (λ (o : Option (ModelRegistry V)). o ≡ none) (ltb now 0) (λ e. refl) (λ e. refl)

  -- A write empties the cache, so that the reload reads the files.
  pub reload-written :
      (files : F)
      → reload disk now (written disk change m files)
        ≡ load_from_files disk now (written disk change m files)
  unfolding reload reload_now
  reload-written files =
      rw (cached-written files, reload) (rw (cached-written files, reload_now) refl)

  answered-IsAnswered :
      (report : Report) (files : F) (x : ModelReloadSnapshot × Manager V F)
      → disk.write change m.files ≡ (ok tt, files)
      → IsReloaded disk change m x
      → IsAnswered disk change m (answered report x)
  unfolding answered IsReloaded IsAnswered mutation_result
  answered-IsAnswered report files (snapshot, after) w h =
      go (state_in report.entity_type report.entity_id after.target_catalog after.active_registry)
    where
      go :
          (o : Option ModelBindingState)
          → IsAnswered disk change m (elim o as (λ _. Result ModelMutationResult × Manager V F) [
            | none ↦ (err key_error, after)
            | some state ↦
                (ok (mutation_result report snapshot.is_ok (of_error snapshot.error) state), after)
          ])
      go none = (refl, (files, w))
      go (some state) = h

  finish_write-IsAnswered :
      (report : Report) (candidate : ModelRegistry V) (x : Result (Unit {0}) × F)
      → disk.write change m.files ≡ x
      → IsAnswered disk change m (finish_write disk now report candidate m x)
  unfolding finish_write IsAnswered refused mutation_result written
  finish_write-IsAnswered report candidate (err e, files) w =
      (λ h. absurd (ground arith), λ h. refl)
  finish_write-IsAnswered report candidate (ok done, files) w =
      answered-IsAnswered report files (reload disk now (written disk change m files)) w (
        subst (IsReloaded disk change m) (sym (reload-written files))
          (load_from_files-IsReloaded files w))

  -- A change that is reported as applied was written, and the registry that the files give passes
  -- the check and is active; one that is reported as not applied leaves the active registry; and the
  -- only error is a KeyError, after a write.
  pub apply_candidate-IsAnswered :
      (report : Report) (mutator : ModelRegistry V → ModelRegistry V)
      → IsAnswered disk change m (apply_candidate disk now report mutator change m)
  unfolding apply_candidate IsAnswered refused mutation_result
  apply_candidate-IsAnswered report mutator =
      let checked = validate m.target_catalog (mutator m.active_registry) in
      if-holds (IsAnswered disk change m) checked.0
        (λ v. finish_write-IsAnswered report checked.1 (disk.write change m.files) refl)
        (λ v. (λ h. absurd (ground arith), λ h. refl))
