-- ===== src/Edits/Prepare.antt =====
-- `prepare_text_edit` of src/acabot/runtime/computer/editing.py. `unicodedata.normalize` and
-- `difflib.ndiff` are arguments.
use Prim.Native.String.{◌++◌}
use aca_bot.Prelude.{ℕ, ◌+◌, String, List, ltb, str_eq, not, if◌then◌else◌}
use aca_bot.Compactor.Text.{first_chars}
use aca_bot.Edits.Search.{drop_chars}
use aca_bot.Edits.Endings.{detect_line_ending, normalize_to_lf, restore_line_endings, strip_bom}
use aca_bot.Edits.Matching.{TextMatchResult, find_text_match, count_text_occurrences}
use aca_bot.Edits.Diff.{generate_diff_string}

pub record PreparedTextEdit : Type 0 where
  pub content : String
  pub diff : String
  pub first_changed_line : ℕ

-- The edit, or which `ValueError` was raised.
pub data EditOutcome : Type 0 where
  prepared : PreparedTextEdit → EditOutcome
  could_not_find no_changes_made : EditOutcome
  found_occurrences : ℕ → EditOutcome

-- `base[:index] + new + base[index + length:]`
unfoldable pub splice : (base : String) (index match_length : ℕ) (new : String) → String
splice base index match_length new =
    first_chars index base ++ (new ++ drop_chars (index + match_length) base)

module _ (nfkc : String → String) (ndiff : List String → List String → List String) where
  abbrev pub new_edit : (bom line_ending base updated : String) → PreparedTextEdit
  new_edit bom line_ending base updated =
      let (diff, first_changed_line) = generate_diff_string ndiff base updated in
      record {
        content = bom ++ restore_line_endings updated line_ending;
        diff = diff;
        first_changed_line = first_changed_line;
      }

  unfoldable pub finish_edit : (bom line_ending base updated : String) → EditOutcome
  finish_edit bom line_ending base updated =
      if str_eq base updated
      then no_changes_made
      else prepared (new_edit bom line_ending base updated)

  unfoldable pub edit_match :
      (bom line_ending new : String) → TextMatchResult → (occurrences : ℕ) → EditOutcome
  unfolding finish_edit splice
  edit_match bom line_ending new found_match occurrences =
      if not found
      then could_not_find
      else if ltb 1 occurrences
      then found_occurrences occurrences
      else finish_edit bom line_ending content_for_replacement
          (splice content_for_replacement index match_length new)
    where
      open found_match use {found, content_for_replacement, index, match_length}

  unfoldable pub prepare_text_edit : (content old_text new_text : String) → EditOutcome
  unfolding edit_match
  prepare_text_edit content old_text new_text =
      let (bom, text_without_bom) = strip_bom content in
      let line_ending = detect_line_ending text_without_bom in
      let normalized_content = normalize_to_lf text_without_bom in
      let normalized_old_text = normalize_to_lf old_text in
      edit_match bom line_ending (normalize_to_lf new_text)
        (find_text_match nfkc normalized_content normalized_old_text)
        (count_text_occurrences nfkc normalized_content normalized_old_text)
