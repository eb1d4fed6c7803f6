-- ===== src/Edits/Matching.antt =====
-- The search for the old text, exact or by normalised texts: `normalize_for_fuzzy_match`,
-- `find_text_match` and `count_text_occurrences` of src/acabot/runtime/computer/editing.py.
use aca_bot.Prelude.{
  ℕ, String, Bool, true, false, none, some, List, [], ◌∷◌, map, if◌then◌else◌, str_eq,
}
use aca_bot.Compactor.Text.{rstrip, size}
use aca_bot.Edits.Search.{find, count, replace}
use aca_bot.Edits.Lines.{split_lines, join_lines}

pub record TextMatchResult : Type 0 where
  pub found : Bool
  pub index : ℕ
  pub match_length : ℕ
  pub used_fuzzy_match : Bool
  pub content_for_replacement : String

-- `for old in olds: text = text.replace(old, new)`
unfoldable pub replace_each : (olds : List String) (new text : String) → String
replace_each [] new text = text
replace_each (old ∷ olds) new text = replace_each olds new (replace old new text)

abbrev pub single_quotes : List String
single_quotes = "‘" ∷ "’" ∷ "‚" ∷ "‛" ∷ []

abbrev pub double_quotes : List String
double_quotes = "“" ∷ "”" ∷ "„" ∷ "‟" ∷ []

abbrev pub dashes : List String
dashes = "‐" ∷ "‑" ∷ "‒" ∷ "–" ∷ "—" ∷ "―" ∷ "−" ∷ []

abbrev pub spaces : List String
spaces =
    "\u{a0}" ∷ "\u{2002}" ∷ "\u{2003}" ∷ "\u{2004}" ∷ "\u{2005}" ∷ "\u{2006}" ∷ "\u{2007}"
    ∷ "\u{2008}" ∷ "\u{2009}" ∷ "\u{200a}" ∷ "\u{202f}" ∷ "\u{205f}" ∷ "\u{3000}" ∷ []

-- The index -1 of a search without a result is written 0: `found` says which.
abbrev not_found : String → TextMatchResult
not_found content = record {
  found = false;
  index = 0;
  match_length = 0;
  used_fuzzy_match = false;
  content_for_replacement = content;
}

abbrev found_at : ℕ → String → Bool → String → TextMatchResult
found_at i part fuzzy content = record {
  found = true;
  index = i;
  match_length = size part;
  used_fuzzy_match = fuzzy;
  content_for_replacement = content;
}

-- `unicodedata.normalize("NFKC", text)` is an argument.
module _ (nfkc : String → String) where
  unfoldable pub normalize_for_fuzzy_match : String → String
  unfolding replace_each
  normalize_for_fuzzy_match text = replace_each spaces " " (
      replace_each dashes "-" (
        replace_each double_quotes "\""
          (replace_each single_quotes "'" (join_lines (map rstrip (split_lines (nfkc text)))))))

  unfoldable pub fuzzy_match : (content fuzzy_content fuzzy_old_text : String) → TextMatchResult
  fuzzy_match content fuzzy_content fuzzy_old_text =
      if str_eq fuzzy_old_text ""
      then not_found content
      else elim (find fuzzy_old_text fuzzy_content) [
        | none ↦ not_found content
        | some i ↦ found_at i fuzzy_old_text true fuzzy_content
      ]

  unfoldable pub find_text_match : (content old_text : String) → TextMatchResult
  unfolding fuzzy_match
  find_text_match content old_text = elim (find old_text content) [
    | some i ↦ found_at i old_text false content
    | none ↦
        fuzzy_match content (normalize_for_fuzzy_match content) (normalize_for_fuzzy_match old_text)
  ]

  unfoldable pub count_text_occurrences : (content old_text : String) → ℕ
  count_text_occurrences content old_text =
      let fuzzy_content = normalize_for_fuzzy_match content in
      let fuzzy_old_text = normalize_for_fuzzy_match old_text in
      if str_eq fuzzy_old_text "" then 0 else count fuzzy_old_text fuzzy_content
