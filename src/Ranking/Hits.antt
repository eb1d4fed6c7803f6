-- ===== src/Ranking/Hits.antt =====
-- What the three loops of a merge leave in the accumulator of an id.
use aca_bot.Prelude.{
  String, ◌≡◌, refl, ap, true, Option, none, some, List, [], ◌∷◌, ◌++◌, if◌then◌else◌, Dict, lookup,
  str_eq, eq_iff, eq_refl, arith, lookup-insert, Bool-cases, inl, inr, IsDistinct,
  insert-IsDistinct, is_some, ◌∙◌,
}
use aca_bot.Runs.Records.{contains}
use aca_bot.Ranking.Merge.{
  MemoryEntry, HitAccumulator, new_accumulator, hit_semantic, hit_lexical, hit_symbolic, or_new,
  accumulate, merged_hits, add_source,
}

-- The first entry of the id.
unfoldable pub first : String → List MemoryEntry → Option MemoryEntry
first k [] = none
first k (entry ∷ entries) = if str_eq entry.entry_id k then some entry else first k entries

contains-last :
    (source : String) (sources : List String) → contains (sources ++ source ∷ []) source ≡ true
unfolding contains
contains-last source [] = rw (eq_refl source) refl
contains-last source (s ∷ sources) = ground (arith, contains-last source sources)

contains-add :
    (source : String) (sources : List String) → contains (add_source source sources) source ≡ true
contains-add source sources = elim (Bool-cases (contains sources source)) [
  | inl e ↦ rw e e
  | inr e ↦ rw e (contains-last source sources)
]

-- A loop's body changes nothing the second time, and keeps the entry.
record IsHit (hit : HitAccumulator → HitAccumulator) : Type 0 where
  again : (a : HitAccumulator) → hit (hit a) ≡ hit a
  same_entry : (a : HitAccumulator) → (hit a).entry ≡ a.entry

hit_semantic-IsHit : IsHit hit_semantic
unfolding hit_semantic
hit_semantic-IsHit = record {
  again = λ a. rw (contains-add "semantic" a.hit_sources) refl;
  same_entry = λ a. refl;
}

hit_lexical-IsHit : IsHit hit_lexical
unfolding hit_lexical
hit_lexical-IsHit = record {
  again = λ a. rw (contains-add "lexical" a.hit_sources) refl;
  same_entry = λ a. refl;
}

hit_symbolic-IsHit : IsHit hit_symbolic
unfolding hit_symbolic
hit_symbolic-IsHit = record {
  again = λ a. rw (contains-add "symbolic" a.hit_sources) refl;
  same_entry = λ a. refl;
}

-- What a loop makes of the accumulator of an id, with the first entry that it meets.
abbrev pub met :
    (HitAccumulator → HitAccumulator)
    → Option HitAccumulator
    → Option MemoryEntry
    → Option HitAccumulator
met hit found none = found
met hit found (some entry) = some (hit (or_new entry found))

module _ (hit : HitAccumulator → HitAccumulator) (h : IsHit hit) where
  met-again :
      (a : HitAccumulator) (e : Option MemoryEntry) → met hit (some (hit a)) e ≡ some (hit a)
  met-again a none = refl
  met-again a (some e) = ap some (h.again a)

  lookup-accumulate :
      (k : String) (entries : List MemoryEntry) (merged : Dict HitAccumulator)
      → lookup k (accumulate hit entries merged) ≡ met hit (lookup k merged) (first k entries)
  unfolding accumulate first
  lookup-accumulate k [] merged = refl
  lookup-accumulate k (entry ∷ entries) merged =
      lookup-accumulate k entries _ ∙ (elim (Bool-cases (str_eq entry.entry_id k)) [
        | inl e ↦
            let same : entry.entry_id ≡ k = (eq_iff entry.entry_id k).0 e in
            rw (lookup-insert, e)
              (met-again (or_new entry (lookup entry.entry_id merged)) (first k entries)
                ∙ rw same refl)
        | inr e ↦ rw (lookup-insert, e) refl
      ])

  accumulate-IsDistinct :
      (entries : List MemoryEntry) (merged : Dict HitAccumulator)
      → IsDistinct merged
      → IsDistinct (accumulate hit entries merged)
  unfolding accumulate
  accumulate-IsDistinct [] merged d = d
  accumulate-IsDistinct (entry ∷ entries) merged d =
      accumulate-IsDistinct entries _ (insert-IsDistinct entry.entry_id _ merged d)

module _ (semantic lexical symbolic : List MemoryEntry) where
  abbrev all : List MemoryEntry
  all = semantic ++ lexical ++ symbolic

  pub lookup-merged_hits :
      (k : String)
      → lookup k (merged_hits semantic lexical symbolic)
        ≡ met hit_symbolic
            (met hit_lexical (met hit_semantic none (first k semantic)) (first k lexical))
            (first k symbolic)
  unfolding merged_hits lookup
  lookup-merged_hits k =
      rw
        (
          lookup-accumulate hit_symbolic hit_symbolic-IsHit,
          lookup-accumulate hit_lexical hit_lexical-IsHit,
          lookup-accumulate hit_semantic hit_semantic-IsHit,
        )
        refl

  pub merged_hits-IsDistinct : IsDistinct (merged_hits semantic lexical symbolic)
  unfolding merged_hits
  merged_hits-IsDistinct = accumulate-IsDistinct hit_symbolic hit_symbolic-IsHit symbolic _ (
      accumulate-IsDistinct hit_lexical hit_lexical-IsHit lexical _
        (accumulate-IsDistinct hit_semantic hit_semantic-IsHit semantic [] tt))

abbrev pub either : Option MemoryEntry → Option MemoryEntry → Option MemoryEntry
either none y = y
either (some x) y = some x

pub first-append :
    (k : String) (xs ys : List MemoryEntry) → first k (xs ++ ys) ≡ either (first k xs) (first k ys)
unfolding first
first-append k [] ys = refl
first-append k (x ∷ xs) ys = elim (Bool-cases (str_eq x.entry_id k)) [
  | inl e ↦ rw e refl
  | inr e ↦ rw e (first-append k xs ys)
]

pub entry_id-first :
    (k : String) (xs : List MemoryEntry) (e : MemoryEntry) → first k xs ≡ some e → e.entry_id ≡ k
unfolding first
entry_id-first k [] e h = absurd (ground arith)
entry_id-first k (x ∷ xs) e h = ground (arith, eq_iff x.entry_id k, entry_id-first k xs e)

-- What the accumulator of an id says of the first entries of the id in the three lists.
unfoldable pub Tells : (semantic lexical symbolic : Option MemoryEntry) → HitAccumulator → Type 0
Tells x y z a =
    (a.semantic_hit ≡ is_some x)
    × (a.lexical_hit ≡ is_some y)
    × (a.symbolic_hit ≡ is_some z)
    × (either x (either y z) ≡ some a.entry)

pub tells :
    (x y z : Option MemoryEntry) (a : HitAccumulator)
    → met hit_symbolic (met hit_lexical (met hit_semantic none x) y) z ≡ some a
    → Tells x y z a
unfolding Tells hit_symbolic hit_lexical hit_semantic new_accumulator
tells none none none a h = absurd (ground arith)
tells none none (some z) a h = ground arith
tells none (some y) none a h = ground arith
tells none (some y) (some z) a h = ground arith
tells (some x) none none a h = ground arith
tells (some x) none (some z) a h = ground arith
tells (some x) (some y) none a h = ground arith
tells (some x) (some y) (some z) a h = ground arith
