-- ===== src/Models/Reported.antt =====
-- What a deletion leaves, and which uses the impacts report.
use aca_bot.Prelude.{
  String, ◌≡◌, refl, sym, ◌∙◌, subst, true, false, List, [], ◌∷◌, Dict, lookup, remove,
  lookup-remove, str_eq, eq_iff, All, arith, Bool-cases, if-holds, inl, inr,
}
use aca_bot.Runs.Records.{contains}
use aca_bot.Texts.{contains-sort, contains_self, contains-append}
use aca_bot.Models.Registry.{ModelPreset, ModelBinding, ModelRegistry}
use aca_bot.Models.Impacts.{
  by_text, text_set, binding_uses, ids_of, preset_impact, preset_uses, nested, remove_all,
}
use aca_bot.Models.Sound.{IsUnique}

module _ {A : Type 0} where
  pub All-remove :
      (P : String × A → Type 0) (k : String) (m : Dict A)
      → All P m
      → All (λ e. P e × (str_eq k e.0 ≡ false)) (remove k m)
  unfolding remove
  All-remove P k [] h = tt
  All-remove P k ((j, v) ∷ m) h = elim (Bool-cases (str_eq j k)) [
    | inl e ↦ rw e (All-remove P k m h.1)
    | inr e ↦ rw e ((h.0, ground (arith, eq_iff j k, eq_iff k j)), All-remove P k m h.1)
  ]

  pub All-map :
      (P Q : String × A → Type 0) (m : Dict A) → ((e : String × A) → P e → Q e) → All P m → All Q m
  All-map P Q [] f h = tt
  All-map P Q (e ∷ m) f h = (f e h.0, All-map P Q m f h.1)

  pub All-both :
      (P Q : String × A → Type 0) (m : Dict A) → All P m → All Q m → All (λ e. P e × Q e) m
  All-both P Q [] h k = tt
  All-both P Q (e ∷ m) h k = ((h.0, k.0), All-both P Q m h.1 k.1)

  pub All-swap :
      (P : String → String × A → Type 0) (m : Dict A)
      → ((i : String) → All (P i) m)
      → All (λ e. (i : String) → P i e) m
  All-swap P [] h = tt
  All-swap P (e ∷ m) h = (λ i. (h i).0, All-swap P m (λ i. (h i).1))

  -- What is left has none of the keys.
  pub All-remove_all :
      (P : String × A → Type 0) (ks : List String) (m : Dict A)
      → All P m
      → All (λ e. P e × (contains ks e.0 ≡ false)) (remove_all ks m)
  unfolding remove_all contains
  All-remove_all P [] m h = All-map P _ m (λ e p. (p, refl)) h
  All-remove_all P (k ∷ ks) m h =
      All-map (λ e. (P e × (str_eq k e.0 ≡ false)) × (contains ks e.0 ≡ false))
        (λ e. P e × (contains (k ∷ ks) e.0 ≡ false)) (remove_all ks (remove k m))
        (λ e p. (p.0.0, ground arith))
        (All-remove_all (λ e. P e × (str_eq k e.0 ≡ false)) ks (remove k m) (All-remove P k m h))

  pub lookup-remove_all :
      (j : String) (ks : List String) (m : Dict A)
      → contains ks j ≡ false
      → lookup j (remove_all ks m) ≡ lookup j m
  unfolding remove_all contains
  lookup-remove_all j [] m h = refl
  lookup-remove_all j (k ∷ ks) m h =
      let e : str_eq k j ≡ false = ground arith in
      lookup-remove_all j ks (remove k m) (ground arith) ∙ (lookup-remove k j m ∙ rw e refl)

IsUnique-remove : (k : String) (m : Dict ModelBinding) → IsUnique m → IsUnique (remove k m)
unfolding remove
IsUnique-remove k [] h = tt
IsUnique-remove k ((j, b) ∷ m) h = elim (Bool-cases (str_eq j k)) [
  | inl e ↦ rw e (IsUnique-remove k m h.1)
  | inr e ↦
      let P : String × ModelBinding → Type 0 = λ x. str_eq b.target_id x.1.target_id ≡ false in
      rw e (
        All-map (λ x. P x × (str_eq k x.0 ≡ false)) P (remove k m) (λ x p. p.0)
            (All-remove P k m h.0),
        IsUnique-remove k m h.1,
      )
]

pub IsUnique-remove_all :
    (ks : List String) (m : Dict ModelBinding) → IsUnique m → IsUnique (remove_all ks m)
unfolding remove_all
IsUnique-remove_all [] m h = h
IsUnique-remove_all (k ∷ ks) m h = IsUnique-remove_all ks (remove k m) (IsUnique-remove k m h)

-- The use of a preset by a binding is reported.
unfoldable pub IsReported : String → List ModelBinding → String × ModelBinding → Type 0
IsReported i uses (k, b) =
    contains b.preset_ids i ≡ true → contains (ids_of uses) b.binding_id ≡ true

binding_uses-IsReported :
    (i : String) (m : Dict ModelBinding) → All (IsReported i (binding_uses i m)) m
unfolding binding_uses ids_of IsReported contains
binding_uses-IsReported i [] = tt
binding_uses-IsReported i ((k, b) ∷ m) =
    let uses = binding_uses i m in
    if-holds (λ (l : List ModelBinding). All (IsReported i l) ((k, b) ∷ m))
      (contains b.preset_ids i)
      (λ e. (
        λ h. contains_self b.binding_id (ids_of uses),
        All-map (IsReported i uses) (IsReported i (b ∷ uses)) m
            (λ x p h. let q : contains (ids_of uses) x.1.binding_id ≡ true = p h in ground arith)
            (binding_uses-IsReported i m),
      ))
      (λ e. (λ h. absurd (ground arith), binding_uses-IsReported i m))

pub All-IsReported :
    (m : Dict ModelBinding) → All (λ e. (i : String) → IsReported i (binding_uses i m) e) m
All-IsReported m =
    All-swap (λ i. IsReported i (binding_uses i m)) m (λ i. binding_uses-IsReported i m)

pub contains-text_set : (k : String) (ts : List String) → contains (text_set ts) k ≡ contains ts k
unfolding text_set contains
contains-text_set k [] = refl
contains-text_set k (t ∷ ts) = elim (Bool-cases (contains (text_set ts) t)) [
  | inl e ↦ rw e (ground (arith, contains-text_set k ts, eq_iff t k, contains-text_set t ts))
  | inr e ↦ rw (e, contains-text_set k ts) refl
]

module _ {V : Type 0} where
  pub contains-preset_impact :
      (r : ModelRegistry V) (i k : String)
      → contains (preset_impact r i).binding_ids k ≡ contains (ids_of (binding_uses i r.bindings)) k
  unfolding preset_impact
  contains-preset_impact r i k = contains-sort by_text k (ids_of (binding_uses i r.bindings))

  -- The use of a provider by a preset is reported.
  unfoldable pub IsUsed : String → List String → String × ModelPreset V → Type 0
  IsUsed id uses (k, p) = str_eq p.provider_id id ≡ true → contains uses k ≡ true

  pub preset_uses-IsUsed :
      (id : String) (m : Dict (ModelPreset V)) → All (IsUsed id (preset_uses id m)) m
  unfolding preset_uses contains IsUsed
  preset_uses-IsUsed id [] = tt
  preset_uses-IsUsed id ((k, p) ∷ m) =
      let uses = preset_uses id m in
      if-holds (λ (l : List String). All (IsUsed id l) ((k, p) ∷ m)) (str_eq p.provider_id id)
        (λ e. (
          λ h. contains_self k uses,
          All-map (IsUsed id uses) (IsUsed id (k ∷ uses)) m
              (λ x f h. let q : contains uses x.0 ≡ true = f h in ground arith)
              (preset_uses-IsUsed id m),
        ))
        (λ e. (λ h. absurd (ground arith), preset_uses-IsUsed id m))

  -- The bindings of one of the presets are among those of all of them.
  pub nested-bindings :
      (r : ModelRegistry V) (ids : List String) (i k : String)
      → contains ids i ≡ true
      → contains (preset_impact r i).binding_ids k ≡ true
      → contains (nested r (λ impact. impact.binding_ids) ids) k ≡ true
  unfolding nested contains
  nested-bindings r [] i k h n = absurd (ground arith)
  nested-bindings r (j ∷ ids) i k h n = elim (Bool-cases (str_eq j i)) [
    | inl e ↦
        contains-append k (preset_impact r j).binding_ids
          (nested r (λ impact. impact.binding_ids) ids)
        ∙ rw
            (subst (λ (x : String). contains (preset_impact r x).binding_ids k ≡ true)
              (sym ((eq_iff j i).0 e)) n)
            refl
    | inr e ↦
        let q : contains (nested r (λ impact. impact.binding_ids) ids) k ≡ true =
          nested-bindings r ids i k (ground arith) n in
        contains-append k (preset_impact r j).binding_ids
          (nested r (λ impact. impact.binding_ids) ids)
        ∙ rw q (ground arith)
  ]
