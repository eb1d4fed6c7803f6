-- ===== src/Ranking/Exact.antt =====
-- The list that the merge returns, and its order.
use aca_bot.Prelude.{
  String, ◌≡◌, refl, sym, ap, Bool, true, false, ◌&&◌, not, some, List, [], ◌∷◌, ◌++◌, map, leb,
  if◌then◌else◌, Dict, lookup, values, sort, arith, All, All-sort, All-lookup, is_some, ◌∙◌,
  IsSorted, sort-IsSorted,
}
use aca_bot.Ranking.Merge.{
  MemoryEntry, HitAccumulator, LtmSearchHit, score_hit_channels, merged_hits, search_hit,
  best_first, merge_ranked_entry_hits,
}
use aca_bot.Ranking.Hits.{
  first, Tells, tells, first-append, entry_id-first, lookup-merged_hits, merged_hits-IsDistinct,
  either,
}

module _ (semantic lexical symbolic : List MemoryEntry) where
  -- The flags say which channels found an entry of the id, and the entry is the first one found.
  pub record IsExact (hit : LtmSearchHit) : Type 0 where
    pub semantic_exact : hit.semantic_hit ≡ is_some (first hit.entry.entry_id semantic)
    pub lexical_exact : hit.lexical_hit ≡ is_some (first hit.entry.entry_id lexical)
    pub symbolic_exact : hit.symbolic_hit ≡ is_some (first hit.entry.entry_id symbolic)
    pub entry_exact : first hit.entry.entry_id (semantic ++ (lexical ++ symbolic)) ≡ some hit.entry

  abbrev merged : Dict HitAccumulator
  merged = merged_hits semantic lexical symbolic

  told :
      (k : String) (a : HitAccumulator)
      → lookup k merged ≡ some a
      → Tells (first k semantic) (first k lexical) (first k symbolic) a
  told k a h =
      tells (first k semantic) (first k lexical) (first k symbolic) a
        (sym (lookup-merged_hits semantic lexical symbolic k) ∙ h)

  first-all :
      (k : String) (a : HitAccumulator)
      → lookup k merged ≡ some a
      → first k (semantic ++ (lexical ++ symbolic)) ≡ some a.entry
  unfolding Tells
  first-all k a h =
      first-append k semantic (lexical ++ symbolic)
      ∙ ap (either (first k semantic)) (first-append k lexical symbolic)
      ∙ (told k a h).3

  IsExact-All :
      (accumulators : List HitAccumulator)
      → All (λ (a : HitAccumulator). lookup a.entry.entry_id merged ≡ some a) accumulators
      → All IsExact (map search_hit accumulators)
  unfolding search_hit score_hit_channels Tells
  IsExact-All [] h = tt
  IsExact-All (a ∷ accumulators) h =
      let (s, l, y, e) = told a.entry.entry_id a h.0 in
      (
        record {
          semantic_exact = s;
          lexical_exact = l;
          symbolic_exact = y;
          entry_exact = first-all a.entry.entry_id a h.0;
        },
        IsExact-All accumulators h.1,
      )

  -- Every hit of the result is exact.
  pub merge_ranked_entry_hits-IsExact :
      All IsExact (merge_ranked_entry_hits semantic lexical symbolic)
  unfolding merge_ranked_entry_hits
  merge_ranked_entry_hits-IsExact = All-sort best_first IsExact (map search_hit (values merged)) (
      IsExact-All (values merged) (
        All-lookup (λ (a : HitAccumulator). a.entry.entry_id) merged
          (merged_hits-IsDistinct semantic lexical symbolic)
          λ k a h. entry_id-first k (semantic ++ (lexical ++ symbolic)) a.entry (first-all k a h)))

-- A symbolic hit stands before one that is not, among equals a semantic hit, then a lexical one, and
-- then the one that was updated last.
abbrev pub channels_first : LtmSearchHit → LtmSearchHit → Bool
channels_first a b =
    if a.symbolic_hit && not b.symbolic_hit
    then true
    else if not a.symbolic_hit && b.symbolic_hit
    then false
    else if a.semantic_hit && not b.semantic_hit
    then true
    else if not a.semantic_hit && b.semantic_hit
    then false
    else if a.lexical_hit && not b.lexical_hit
    then true
    else if not a.lexical_hit && b.lexical_hit
    then false
    else leb b.entry.updated_at a.entry.updated_at

-- The score is the one of the flags.
IsScored : LtmSearchHit → Type 0
IsScored h =
    h.rerank_score ≡ (score_hit_channels h.symbolic_hit h.semantic_hit h.lexical_hit).rerank_score

best_first-channels_first :
    (a b : LtmSearchHit) → IsScored a → IsScored b → best_first a b ≡ channels_first a b
unfolding IsScored score_hit_channels
best_first-channels_first a b h k = ground arith

best_first-total : (a b : LtmSearchHit) → best_first a b ≡ false → best_first b a ≡ true
best_first-total a b h = ground arith

best_first_trans :
    (a b c : LtmSearchHit) → best_first a b ≡ true → best_first b c ≡ true → best_first a c ≡ true
best_first_trans a b c h k = ground arith

IsScored-All : (accumulators : List HitAccumulator) → All IsScored (map search_hit accumulators)
unfolding IsScored search_hit score_hit_channels
IsScored-All [] = tt
IsScored-All (a ∷ accumulators) = (refl, IsScored-All accumulators)

channels-All :
    (a : LtmSearchHit) (hits : List LtmSearchHit)
    → IsScored a
    → All IsScored hits
    → All (λ b. best_first a b ≡ true) hits
    → All (λ b. channels_first a b ≡ true) hits
channels-All a [] s t h = tt
channels-All a (b ∷ hits) s t h =
    (sym (best_first-channels_first a b s t.0) ∙ h.0, channels-All a hits s t.1 h.1)

channels-IsSorted :
    (hits : List LtmSearchHit)
    → All IsScored hits
    → IsSorted best_first hits
    → IsSorted channels_first hits
channels-IsSorted [] s h = tt
channels-IsSorted (a ∷ hits) s h = (channels-All a hits s.0 s.1 h.0, channels-IsSorted hits s.1 h.1)

-- The sums of the weights put the hits in the order of the channels: symbolic before semantic before
-- lexical hits, and the last updated first among those of the same channels.
pub merge_ranked_entry_hits-IsSorted :
    (semantic lexical symbolic : List MemoryEntry)
    → IsSorted channels_first (merge_ranked_entry_hits semantic lexical symbolic)
unfolding merge_ranked_entry_hits
merge_ranked_entry_hits-IsSorted semantic lexical symbolic =
    let hits = map search_hit (values (merged_hits semantic lexical symbolic)) in
    channels-IsSorted (sort best_first hits)
      (All-sort best_first IsScored hits
        (IsScored-All (values (merged_hits semantic lexical symbolic))))
      (sort-IsSorted best_first best_first-total best_first_trans hits)
