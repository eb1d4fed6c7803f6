-- ===== src/Ranking/Merge.antt =====
-- `score_hit_channels` and `merge_ranked_entry_hits` of
-- src/acabot/runtime/memory/long_term_memory/ranking.py, with the types of contracts.py beside it.
use aca_bot.Prelude.{
  ℕ, ◌+◌, String, Bool, true, false, ◌||◌, ◌&&◌, Option, none, some, List, [], ◌∷◌, ◌++◌, map, ltb,
  leb, ◌==◌, if◌then◌else◌, Dict, lookup, insert, values, sort,
}
use aca_bot.Runs.Records.{contains}

pub record MemoryEntry : Type 0 where
  pub entry_id : String
  pub conversation_id : String
  pub created_at : ℕ
  pub updated_at : ℕ
  pub extractor_version : String
  pub topic : String
  pub lossless_restatement : String
  pub keywords : List String
  pub time_point : Option String
  pub time_interval_start : Option String
  pub time_interval_end : Option String
  pub location : Option String
  pub persons : List String
  pub entities : List String
  pub provenance : List String

pub record HitChannelScore : Type 0 where
  pub rerank_score : ℕ
  pub symbolic_hit : Bool
  pub semantic_hit : Bool
  pub lexical_hit : Bool

pub record HitAccumulator : Type 0 where
  pub entry : MemoryEntry
  pub symbolic_hit : Bool
  pub semantic_hit : Bool
  pub lexical_hit : Bool
  pub hit_sources : List String

-- `metadata` holds the three flags.
pub record LtmSearchHit : Type 0 where
  pub entry : MemoryEntry
  pub rerank_score : ℕ
  pub hit_sources : List String
  pub symbolic_hit : Bool
  pub semantic_hit : Bool
  pub lexical_hit : Bool

unfoldable pub score_hit_channels : (symbolic_hit semantic_hit lexical_hit : Bool) → HitChannelScore
score_hit_channels symbolic_hit semantic_hit lexical_hit = record {
  rerank_score =
      (if symbolic_hit then 100 else 0)
      + (if semantic_hit then 40 else 0)
      + (if lexical_hit then 10 else 0);
  symbolic_hit = symbolic_hit;
  semantic_hit = semantic_hit;
  lexical_hit = lexical_hit;
}

unfoldable pub new_accumulator : MemoryEntry → HitAccumulator
new_accumulator entry = record {
  entry = entry;
  symbolic_hit = false;
  semantic_hit = false;
  lexical_hit = false;
  hit_sources = [];
}

abbrev pub add_source : String → List String → List String
add_source source sources = if contains sources source then sources else sources ++ source ∷ []

-- The bodies of the three loops.
unfoldable pub hit_semantic : HitAccumulator → HitAccumulator
unfolding contains
hit_semantic a = record a { semantic_hit = true; hit_sources = add_source "semantic" a.hit_sources }

unfoldable pub hit_lexical : HitAccumulator → HitAccumulator
unfolding contains
hit_lexical a = record a { lexical_hit = true; hit_sources = add_source "lexical" a.hit_sources }

unfoldable pub hit_symbolic : HitAccumulator → HitAccumulator
unfolding contains
hit_symbolic a = record a { symbolic_hit = true; hit_sources = add_source "symbolic" a.hit_sources }

-- `merged.setdefault(entry.entry_id, _HitAccumulator(entry=entry))`
abbrev pub or_new : MemoryEntry → Option HitAccumulator → HitAccumulator
or_new entry none = new_accumulator entry
or_new entry (some a) = a

-- One of the three loops.
unfoldable pub accumulate :
    (HitAccumulator → HitAccumulator) → List MemoryEntry → Dict HitAccumulator → Dict HitAccumulator
unfolding lookup insert new_accumulator
accumulate hit [] merged = merged
accumulate hit (entry ∷ entries) merged =
    accumulate hit entries
      (insert entry.entry_id (hit (or_new entry (lookup entry.entry_id merged))) merged)

unfoldable pub merged_hits : (semantic lexical symbolic : List MemoryEntry) → Dict HitAccumulator
unfolding accumulate hit_semantic hit_lexical hit_symbolic
merged_hits semantic lexical symbolic =
    accumulate hit_symbolic symbolic
      (accumulate hit_lexical lexical (accumulate hit_semantic semantic []))

unfoldable pub search_hit : HitAccumulator → LtmSearchHit
unfolding score_hit_channels
search_hit a =
    let score = score_hit_channels a.symbolic_hit a.semantic_hit a.lexical_hit in
    record {
      entry = a.entry;
      rerank_score = score.rerank_score;
      hit_sources = a.hit_sources;
      symbolic_hit = score.symbolic_hit;
      semantic_hit = score.semantic_hit;
      lexical_hit = score.lexical_hit;
    }

-- By `(rerank_score, updated_at)`, greatest first.
abbrev pub best_first : LtmSearchHit → LtmSearchHit → Bool
best_first a b =
    ltb b.rerank_score a.rerank_score
    || (a.rerank_score == b.rerank_score && leb b.entry.updated_at a.entry.updated_at)

unfoldable pub merge_ranked_entry_hits :
    (semantic lexical symbolic : List MemoryEntry) → List LtmSearchHit
unfolding sort merged_hits search_hit
merge_ranked_entry_hits semantic lexical symbolic =
    sort best_first (map search_hit (values (merged_hits semantic lexical symbolic)))
