-- ===== src/Models/Resolved.antt =====
-- The requests of the bindings of a registry that passes the check.
use aca_bot.Prelude.{
  ◌<◌, ltb→lt, String, ◌≡◌, refl, sym, ap, ap₂, subst, Bool, true, false, Option, some, List, [],
  ◌∷◌, map, Dict, lookup, str_eq, eq_iff, is_some, leb, length, All, arith, Option-cases, if-holds,
  inl, inr,
}
use aca_bot.Errors.{Result, ok, err, value_error}
use aca_bot.Models.Registry.{ℤ, ModelPreset, ModelBinding, ModelRegistry}
use aca_bot.Models.Targets.{ModelTarget, MutableModelTargetCatalog, get_target}
use aca_bot.Models.Checks.{
  serves, validate_preset_ids, allows_count, validate_binding, validate_providers,
  validate_bindings, validate, binding_for,
}
use aca_bot.Models.Requests.{
  RuntimeModelRequest, resolved, preset_ids_state, binding_state, make_request,
  request_from_preset_id, resolved_requests, request_from_binding, resolve_binding,
  resolve_target_request,
}
use aca_bot.Models.Sound.{IsPresetSound, IsSound, validate-IsSound}

lookup-All :
    {A : Type 0} (P : String × A → Type 0) (m : Dict A) (k : String) (v : A)
    → All P m
    → lookup k m ≡ some v
    → P (k, v)
unfolding lookup
lookup-All P [] k v h e = absurd (ground arith)
lookup-All {A} P ((j, w) ∷ m) k v h e =
    if-holds (λ (o : Option A). o ≡ some v → P (k, v)) (str_eq j k)
      (λ q f. subst P (ap₂ (λ (i : String) (x : A). (i, x)) ((eq_iff j k).0 q) (ground arith)) h.0)
      (λ q f. lookup-All P m k v h.1 f) e

binding_for-All :
    (P : ModelBinding → Type 0) (t : String) (m : Dict ModelBinding) (b : ModelBinding)
    → All (λ (e : String × ModelBinding). P e.1) m
    → binding_for t m ≡ some b
    → P b
unfolding binding_for
binding_for-All P t [] b h e = absurd (ground arith)
binding_for-All P t ((k, c) ∷ m) b h e =
    if-holds (λ (o : Option ModelBinding). o ≡ some b → P b) (str_eq c.target_id t)
      (λ q f. subst P (ground arith) h.0) (λ q f. binding_for-All P t m b h.1 f) e

module _ {V : Type 0} where
  validate_bindings-each :
      (catalog : MutableModelTargetCatalog) (presets : Dict (ModelPreset V)) (seen : List String)
      (m : Dict ModelBinding)
      → validate_bindings catalog presets seen m ≡ true
      → All (λ (e : String × ModelBinding). validate_binding catalog presets e.1 ≡ true) m
  unfolding validate_bindings
  validate_bindings-each catalog presets seen [] h = tt
  validate_bindings-each catalog presets seen ((k, b) ∷ m) h =
      (ground arith, validate_bindings-each catalog presets (b.target_id ∷ seen) m (ground arith))

  preset_ids_state-resolved :
      (r : ModelRegistry V) (target : ModelTarget) (ids : List String)
      → IsSound r
      → validate_preset_ids r.presets (some target) ids ≡ true
      → preset_ids_state r target ids ≡ resolved
  unfolding preset_ids_state validate_preset_ids
  preset_ids_state-resolved r target [] s h = refl
  preset_ids_state-resolved r target (i ∷ ids) s h = elim (Option-cases (lookup i r.presets)) [
    | inl e ↦ absurd (ground arith)
    | inr (p, e) ↦
        let known : is_some (lookup p.provider_id r.providers) ≡ true =
          (lookup-All (IsPresetSound r.providers) r.presets i p s.sound_presets e).1 in
        let served : serves target p ≡ true = ground arith in
        rw (e, served, known, preset_ids_state)
          ((preset_ids_state-resolved r target ids s (ground arith)))
  ]

  validate_binding-resolved :
      (catalog : MutableModelTargetCatalog) (r : ModelRegistry V) (b : ModelBinding)
      (target : ModelTarget)
      → IsSound r
      → get_target catalog b.target_id ≡ some target
      → validate_binding catalog r.presets b ≡ true
      → binding_state catalog r b ≡ resolved
  unfolding binding_state validate_binding
  validate_binding-resolved catalog r b target s e h =
      let ids : validate_preset_ids r.presets (some target) b.preset_ids ≡ true =
        subst (λ (o : Option ModelTarget). validate_preset_ids r.presets o b.preset_ids ≡ true) e
          (ground arith) in
      let count : allows_count (some target) b.preset_ids ≡ true =
        subst (λ (o : Option ModelTarget). allows_count o b.preset_ids ≡ true) e (ground arith) in
      let named : leb (length b.preset_ids) 0 ≡ false = ground arith in
      rw (e, named, count, binding_state) ((preset_ids_state-resolved r target b.preset_ids s ids))

  validate-bindings :
      (catalog : MutableModelTargetCatalog) (r : ModelRegistry V)
      → (validate catalog r).0 ≡ true
      → validate_bindings catalog (validate catalog r).1.presets [] (validate catalog r).1.bindings
        ≡ true
  unfolding validate
  validate-bindings catalog r =
      if-holds
        (λ (x : Bool × ModelRegistry V).
          x.0 ≡ true → validate_bindings catalog x.1.presets [] x.1.bindings ≡ true)
        (validate_providers r.providers) (λ p v. ground arith) (λ p v. absurd (ground arith))

  validate_binding-named :
      (catalog : MutableModelTargetCatalog) (presets : Dict (ModelPreset V)) (b : ModelBinding)
      → validate_binding catalog presets b ≡ true
      → 0 < length b.preset_ids
  unfolding validate_binding
  validate_binding-named catalog presets b h = ltb→lt 0 (length b.preset_ids) (ground arith)

  -- The loop over the presets of a binding that is resolved.
  binding_state-ids :
      (catalog : MutableModelTargetCatalog) (r : ModelRegistry V) (b : ModelBinding)
      (target : ModelTarget)
      → IsSound r
      → get_target catalog b.target_id ≡ some target
      → validate_binding catalog r.presets b ≡ true
      → preset_ids_state r target b.preset_ids ≡ resolved
  unfolding validate_binding
  binding_state-ids catalog r b target s e h = preset_ids_state-resolved r target b.preset_ids s (
      subst (λ (o : Option ModelTarget). validate_preset_ids r.presets o b.preset_ids ≡ true) e
        (ground arith))

module _ {V : Type 0} (number : ℤ → V) (r : ModelRegistry V) (s : IsSound r) where
  abbrev preset_id_of : RuntimeModelRequest V → String
  preset_id_of request = request.preset_id

  -- A preset whose provider is there has a request with its id.
  resolved_requests-ids :
      (target : ModelTarget) (b : ModelBinding) (ids : List String)
      → preset_ids_state r target ids ≡ resolved
      → map preset_id_of (resolved_requests number r b ids) ≡ ids
  unfolding resolved_requests preset_ids_state request_from_preset_id make_request
  resolved_requests-ids target b [] h = refl
  resolved_requests-ids target b (i ∷ ids) h = elim (Option-cases (lookup i r.presets)) [
    | inl e ↦ absurd (ground arith)
    | inr (p, e) ↦
        let sound : IsPresetSound r.providers (i, p) =
          lookup-All (IsPresetSound r.providers) r.presets i p s.sound_presets e in
        elim (Option-cases (lookup p.provider_id r.providers)) [
          | inl q ↦ absurd (ground arith)
          | inr (provider, q) ↦
              rw (e, q, resolved_requests, request_from_preset_id)
                ((ap₂ (λ (x : String) (xs : List String). x ∷ xs) (sym sound.0)
                  (resolved_requests-ids target b ids (ground arith))))
        ]
  ]

module _ {V : Type 0} (number : ℤ → V) (catalog : MutableModelTargetCatalog) where
  abbrev Chain : Type 0
  Chain = RuntimeModelRequest V × List (RuntimeModelRequest V)

  -- The answer is a chain of one request for each of the presets, in their order.
  pub IsChain : List String → Result (Option Chain) → Type 0
  IsChain ids answer =
      (first : RuntimeModelRequest V) × (rest : List (RuntimeModelRequest V)) × (answer
        ≡ ok (some (first, rest)))
      × (map (λ (request : RuntimeModelRequest V). request.preset_id) (first ∷ rest) ≡ ids)

  request_from_binding-chain :
      (r : ModelRegistry V) (b : ModelBinding)
      → 0 < length b.preset_ids
      → map
          (λ (request : RuntimeModelRequest V). request.preset_id)
          (resolved_requests number r b b.preset_ids)
        ≡ b.preset_ids
      → (first : RuntimeModelRequest V) × (rest : List (RuntimeModelRequest V))
        × (request_from_binding number r b ≡ ok (first, rest))
        × (map (λ (request : RuntimeModelRequest V). request.preset_id) (first ∷ rest)
            ≡ b.preset_ids)
  unfolding request_from_binding
  request_from_binding-chain r b n h = go (resolved_requests number r b b.preset_ids) h
    where
      go :
          (l : List (RuntimeModelRequest V))
          → map (λ (request : RuntimeModelRequest V). request.preset_id) l ≡ b.preset_ids
          → (first : RuntimeModelRequest V) × (rest : List (RuntimeModelRequest V)) × ((elim l
                as (λ _. Result Chain) [ [] ↦ err value_error | x ∷ xs ↦ ok (x, xs) ])
              ≡ ok (first, rest))
            × (map (λ (request : RuntimeModelRequest V). request.preset_id) (first ∷ rest)
                ≡ b.preset_ids)
      go [] e =
          absurd (
            let q : 0 ≡ length b.preset_ids = ap (λ (xs : List String). length xs) e in omega arith)
      go (first ∷ rest) e = (first, rest, refl, e)

  resolve_binding-resolved :
      (r : ModelRegistry V) (b : ModelBinding) (chain : Chain)
      → binding_state catalog r b ≡ resolved
      → request_from_binding number r b ≡ ok chain
      → resolve_binding number catalog r b ≡ ok (some chain)
  unfolding resolve_binding
  resolve_binding-resolved r b chain state q = rw (state, q, resolve_binding) refl

  resolve_target_request-binding :
      (r : ModelRegistry V) (target_id : String) (b : ModelBinding)
      → binding_for target_id r.bindings ≡ some b
      → resolve_target_request number catalog r target_id ≡ resolve_binding number catalog r b
  unfolding resolve_target_request
  resolve_target_request-binding r target_id b e = rw (e, resolve_target_request) refl

  resolve_binding-IsChain :
      (r : ModelRegistry V) (b : ModelBinding) (target : ModelTarget)
      → IsSound r
      → get_target catalog b.target_id ≡ some target
      → validate_binding catalog r.presets b ≡ true
      → IsChain b.preset_ids (resolve_binding number catalog r b)
  unfolding IsChain
  resolve_binding-IsChain r b target s e h =
      let state = validate_binding-resolved catalog r b target s e h in
      let (first, rest, q, ids) =
        request_from_binding-chain r b (validate_binding-named catalog r.presets b h) (
          resolved_requests-ids number r s target b b.preset_ids
            (binding_state-ids catalog r b target s e h)) in
      (first, rest, resolve_binding-resolved r b (first, rest) state q, ids)

  -- In a registry that passes the check the binding of a registered target resolves: to a request
  -- for its first preset, with a fallback for each of the others, in their order.
  pub validate-resolve_target_request :
      (r : ModelRegistry V) (target_id : String) (b : ModelBinding) (target : ModelTarget)
      → (validate catalog r).0 ≡ true
      → binding_for target_id (validate catalog r).1.bindings ≡ some b
      → get_target catalog b.target_id ≡ some target
      → IsChain b.preset_ids
          (resolve_target_request number catalog (validate catalog r).1 target_id)
  validate-resolve_target_request r target_id b target v found e =
      let checked = (validate catalog r).1 in
      subst (IsChain b.preset_ids) (sym (resolve_target_request-binding checked target_id b found))
        (resolve_binding-IsChain checked b target (validate-IsSound catalog r v) e (
          binding_for-All (λ c. validate_binding catalog checked.presets c ≡ true) target_id
            checked.bindings b
            (validate_bindings-each catalog checked.presets [] checked.bindings
              (validate-bindings catalog r v))
            found))
