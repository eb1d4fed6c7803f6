-- ===== src/Edits/Outcome.antt =====
-- What an edit does to a file, for src/acabot/runtime/computer/editing.py.
use Prim.Native.String.{◌++◌}
use text.Mathlib.TextLemmas.{append_cancel_left, append_cancel_right}
use aca_bot.Prelude.{
  ℕ, ◌≤◌, String, true, false, some, List, ◌≡◌, ◌≢◌, refl, sym, ◌∙◌, ap, arith, inl, inr,
  Bool-cases, str_eq, eq_iff, ltb,
}
use aca_bot.Compactor.Text.{size, first_chars}
use aca_bot.Edits.Search.{find}
use aca_bot.Edits.Endings.{restore_line_endings, strip_bom}
use aca_bot.Edits.Matching.{find_text_match, count_text_occurrences}
use aca_bot.Edits.Prepare.{
  PreparedTextEdit, prepared, splice, new_edit, finish_edit, edit_match, prepare_text_edit,
}
use aca_bot.Edits.Found.{IsPlace, find-IsPlace}
use aca_bot.Edits.Newlines.{
  Lacks, IsEnding, normalize_to_lf-none, normalize_to_lf-restore_line_endings,
}
use aca_bot.Edits.Detected.{IsEndingOf, detect_line_ending-restore_line_endings}

-- An edit replaces one occurrence of the old text.
pub splice-IsPlace :
    (base part back new : String) (i : ℕ)
    → IsPlace part base i back
    → splice base i (size part) new ≡ first_chars i base ++ (new ++ back)
unfolding splice
splice-IsPlace base part back new i (split, rest) =
    ap (λ (s : String). first_chars i base ++ (new ++ s)) rest

IsEndingOf-IsEnding : (text ending : String) → IsEndingOf text ending → IsEnding ending
IsEndingOf-IsEnding text ending (inl e) = inl e
IsEndingOf-IsEnding text ending (inr (e, found)) = inr e

module _ (nfkc : String → String) (ndiff : List String → List String → List String) where
  -- The file is its mark and its text with one line ending.
  abbrev pub IsFile : (file bom text ending : String) → Type 0
  IsFile file bom text ending =
      (strip_bom file ≡ (bom, restore_line_endings text ending))
      × Lacks 13 text
      × IsEndingOf text ending

  prepare-IsFile :
      (file bom text ending old new : String)
      → IsFile file bom text ending
      → Lacks 13 old
      → Lacks 13 new
      → prepare_text_edit nfkc ndiff file old new
        ≡ edit_match nfkc ndiff bom ending new
            (find_text_match nfkc text old)
            (count_text_occurrences nfkc text old)
  unfolding prepare_text_edit
  prepare-IsFile file bom text ending old new (f, h, e) o n =
      rw
        (
          f,
          detect_line_ending-restore_line_endings text ending h e,
          normalize_to_lf-restore_line_endings text ending h (IsEndingOf-IsEnding text ending e),
          normalize_to_lf-none old o,
          normalize_to_lf-none new n,
        )
        refl

  finish_edit-prepared :
      (bom ending base updated : String)
      → base ≢ updated
      → (edit : PreparedTextEdit) × (finish_edit nfkc ndiff bom ending base updated ≡ prepared edit)
        × (edit.content ≡ bom ++ restore_line_endings updated ending)
  unfolding finish_edit
  finish_edit-prepared bom ending base updated h = elim (Bool-cases (str_eq base updated)) [
    | inl e ↦ absurd (h ((eq_iff base updated).0 e))
    | inr e ↦ (new_edit nfkc ndiff bom ending base updated, rw e refl, refl)
  ]

  pub find_text_match-exact :
      (text old : String) (i : ℕ)
      → find old text ≡ some i
      → find_text_match nfkc text old ≡ record {
        found = true;
        index = i;
        match_length = size old;
        used_fuzzy_match = false;
        content_for_replacement = text;
      }
  unfolding find_text_match
  find_text_match-exact text old i h = rw (h, find_text_match) refl

  edit_match-exact :
      (bom ending text old new back : String) (i n : ℕ)
      → find old text ≡ some i
      → IsPlace old text i back
      → n ≤ 1
      → edit_match nfkc ndiff bom ending new (find_text_match nfkc text old) n
        ≡ finish_edit nfkc ndiff bom ending text (first_chars i text ++ (new ++ back))
  unfolding edit_match
  edit_match-exact bom ending text old new back i n h place le =
      let single : ltb 1 n ≡ false = ground arith in
      rw (find_text_match-exact text old i h, single, splice-IsPlace text old back new i place) refl

  -- In a file that is a mark and a text with one line ending, with an old text that occurs, at
  -- most once by the fuzzy count, and another new text, both without carriage returns, an edit
  -- succeeds: it writes the mark and, with the same line ending, the text with the first
  -- occurrence replaced and all else as it was.
  pub prepare_text_edit-exact :
      (file bom text ending old new : String) (i : ℕ)
      → IsFile file bom text ending
      → Lacks 13 old
      → Lacks 13 new
      → find old text ≡ some i
      → count_text_occurrences nfkc text old ≤ 1
      → old ≢ new
      → (back : String) × (edit : PreparedTextEdit) × (text ≡ first_chars i text ++ (old ++ back))
        × (prepare_text_edit nfkc ndiff file old new ≡ prepared edit)
        × (edit.content ≡ bom ++ restore_line_endings (first_chars i text ++ (new ++ back)) ending)
  prepare_text_edit-exact file bom text ending old new i f o n h le other =
      let (back, place) = find-IsPlace old text i h in
      let (edit, done, content) =
        finish_edit-prepared bom ending text (first_chars i text ++ (new ++ back)) (λ same. other (
          append_cancel_right old new back
            (append_cancel_left (first_chars i text) _ _ (sym place.0 ∙ same)))) in
      (
        back,
        edit,
        place.0,
        prepare-IsFile file bom text ending old new f o n
            ∙ edit_match-exact bom ending text old new back i _ h place le
            ∙ done,
        content,
      )
