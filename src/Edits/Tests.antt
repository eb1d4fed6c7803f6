-- ===== src/Edits/Tests.antt =====
-- Edits of small files.
use Prim.Native.String.{◌++◌}
use aca_bot.Prelude.{◌≤◌, String, List, map, ◌≡◌, refl, inr, arith, eq_iff}
use mathlib.Core.List.{◌++◌ as append}
use aca_bot.Compactor.Text.{first_chars, rstrip, is_space}
use aca_bot.Edits.Search.{
  find, begins, strip_prefix, replace, replace_from, count, count_from, drop_chars,
}
use aca_bot.Edits.Lines.{split_lines, join_lines}
use aca_bot.Edits.Endings.{strip_bom, restore_line_endings, normalize_to_lf, detect_line_ending}
use aca_bot.Edits.Matching.{
  count_text_occurrences, normalize_for_fuzzy_match, replace_each, find_text_match, fuzzy_match,
}
use aca_bot.Edits.Diff.{
  generate_diff_string, diff_lines, diff_line, diff_start, decimal, decimal_from, rjust,
}
use aca_bot.Edits.Prepare.{
  PreparedTextEdit, prepared, prepare_text_edit, edit_match, finish_edit, splice, found_occurrences,
}
use aca_bot.Edits.Newlines.{normalize_to_lf-restore_line_endings}
use aca_bot.Edits.Outcome.{prepare_text_edit-exact}
use aca_bot.Edits.Accepted.{IsAccepted, prepare_text_edit-IsAccepted}
use aca_bot.Edits.Changes.{Mark, removed, added, mark_line}

abbrev same_text : String → String
same_text s = s

abbrev marks : List String → List String → List Mark
marks olds news = append (map removed olds) (map added news)

abbrev all_changed : List String → List String → List String
unfolding mark_line
all_changed olds news = map mark_line (marks olds news)

normalize_to_lf-restore_line_endings_example :
    normalize_to_lf (restore_line_endings "a\nb" "\r\n") ≡ "a\nb"
normalize_to_lf-restore_line_endings_example =
    normalize_to_lf-restore_line_endings "a\nb" "\r\n" (refl, (refl, (refl, tt))) (inr refl)

abbrev file : String
file = "\u{feff}one\r\ntwo\r\n"

-- After the edit.
abbrev edited : PreparedTextEdit
edited = record {
  content = "\u{feff}one\r\n2\r\n";
  diff = "-1 one\n-2 two\n-3 \n+1 one\n+2 2\n+3 ";
  first_changed_line = 1;
}

outcome : prepare_text_edit same_text all_changed file "two" "2" ≡ prepared edited
unfolding prepare_text_edit edit_match finish_edit generate_diff_string diff_lines diff_line
    diff_start decimal decimal_from rjust splice find_text_match first_chars drop_chars find
    strip_bom restore_line_endings normalize_to_lf detect_line_ending count_text_occurrences
    normalize_for_fuzzy_match replace_each replace replace_from begins strip_prefix count count_from
    split_lines join_lines rstrip is_space all_changed mark_line
outcome = refl

-- Only the trailing space differs, so the match is fuzzy.
fuzzy :
    prepare_text_edit same_text all_changed "one \ntwo" "one\nt" ""
    ≡ prepared (record { content = "wo"; diff = "-1 one\n-2 two\n+1 wo"; first_changed_line = 1 })
unfolding prepare_text_edit edit_match finish_edit generate_diff_string diff_lines diff_line
    diff_start decimal decimal_from rjust splice find_text_match fuzzy_match first_chars drop_chars
    find strip_bom restore_line_endings normalize_to_lf detect_line_ending count_text_occurrences
    normalize_for_fuzzy_match replace_each replace replace_from begins strip_prefix count count_from
    split_lines join_lines rstrip is_space all_changed mark_line
fuzzy = refl

several : prepare_text_edit same_text all_changed "a.a" "a" "b" ≡ found_occurrences 2
unfolding prepare_text_edit edit_match finish_edit find_text_match first_chars drop_chars find
    strip_bom restore_line_endings normalize_to_lf detect_line_ending count_text_occurrences
    normalize_for_fuzzy_match replace_each replace replace_from begins strip_prefix count count_from
    split_lines join_lines rstrip is_space
several = refl

-- A blank old text is counted as none, so that its first place of several is taken.
blank :
    prepare_text_edit same_text all_changed "a b c" " " "_"
    ≡ prepared (record { content = "a_b c"; diff = "-1 a b c\n+1 a_b c"; first_changed_line = 1 })
unfolding prepare_text_edit edit_match finish_edit generate_diff_string diff_lines diff_line
    diff_start decimal decimal_from rjust splice find_text_match fuzzy_match first_chars drop_chars
    find strip_bom restore_line_endings normalize_to_lf detect_line_ending count_text_occurrences
    normalize_for_fuzzy_match replace_each replace replace_from begins strip_prefix count count_from
    split_lines join_lines rstrip is_space all_changed mark_line
blank = refl

few : count_text_occurrences same_text "one\ntwo\n" "two" ≤ 1
unfolding count_text_occurrences normalize_for_fuzzy_match replace_each replace replace_from begins
    strip_prefix count count_from split_lines join_lines rstrip is_space
few = omega arith

prepare_text_edit-exact_example :
    (back : String) × (edit : PreparedTextEdit) × ("one\ntwo\n"
      ≡ first_chars 4 "one\ntwo\n" ++ ("two" ++ back))
    × (prepare_text_edit same_text all_changed file "two" "2" ≡ prepared edit)
    × (edit.content
        ≡ "\u{feff}" ++ restore_line_endings (first_chars 4 "one\ntwo\n" ++ ("2" ++ back)) "\r\n")
unfolding strip_bom restore_line_endings replace replace_from begins strip_prefix find
prepare_text_edit-exact_example =
    prepare_text_edit-exact same_text all_changed file "\u{feff}" "one\ntwo\n" "\r\n" "two" "2" 4
      (refl, (refl, (refl, (refl, (refl, (refl, (refl, (refl, (refl, tt)))))))), inr (refl, refl))
      (refl, (refl, (refl, tt))) (refl, tt) refl few
      (λ e. absurd (ground (arith, eq_iff "two" "2")))

prepare_text_edit-IsAccepted_example : IsAccepted same_text all_changed file "two" "2" edited
prepare_text_edit-IsAccepted_example =
    prepare_text_edit-IsAccepted same_text all_changed file "two" "2" edited outcome
