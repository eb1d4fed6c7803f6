-- ===== src/Edits/Accepted.antt =====
-- What an accepted edit, and each refusal, says of the file, for
-- src/acabot/runtime/computer/editing.py.
use Prim.Native.String.{◌++◌}
use aca_bot.Prelude.{
  ℕ, ◌≤◌, String, true, none, some, List, ◌≡◌, ◌⊎◌, refl, sym, ◌∙◌, ap, arith, subst, inl, inr,
  Bool-cases, Option-cases, str_eq, ltb,
}
use aca_bot.Compactor.Text.{size, first_chars}
use aca_bot.Edits.Search.{find}
use aca_bot.Edits.Endings.{detect_line_ending, normalize_to_lf, restore_line_endings, strip_bom}
use aca_bot.Edits.Matching.{
  TextMatchResult, normalize_for_fuzzy_match, fuzzy_match, find_text_match, count_text_occurrences,
}
use aca_bot.Edits.Prepare.{
  PreparedTextEdit, EditOutcome, prepared, could_not_find, found_occurrences, no_changes_made,
  splice, new_edit, finish_edit, edit_match, prepare_text_edit,
}
use aca_bot.Edits.Found.{find-IsPlace}
use aca_bot.Edits.Outcome.{splice-IsPlace, find_text_match-exact}

abbrev edit_text : EditOutcome → String
edit_text (prepared edit) = edit.content
edit_text could_not_find = ""
edit_text no_changes_made = ""
edit_text (found_occurrences n) = ""

module _ (nfkc : String → String) (ndiff : List String → List String → List String) where
  -- The text that is edited and the part that is replaced, both as given or both normalised.
  abbrev pub IsChosen : (content old base part : String) → Type 0
  IsChosen content old base part =
      ((base ≡ content) × (part ≡ old))
      ⊎ ((find old content ≡ none)
          × (base ≡ normalize_for_fuzzy_match nfkc content)
          × (part ≡ normalize_for_fuzzy_match nfkc old))

  abbrev IsMatch : (content old : String) → TextMatchResult → Type 0
  IsMatch content old m =
      (part : String) × IsChosen content old m.content_for_replacement part
      × (find part m.content_for_replacement ≡ some m.index)
      × (m.match_length ≡ size part)

  fuzzy_match-IsMatch :
      (content old : String)
      → find old content ≡ none
      → let m =
          fuzzy_match nfkc content
            (normalize_for_fuzzy_match nfkc content)
            (normalize_for_fuzzy_match nfkc old) in
        m.found ≡ true → IsMatch content old m
  unfolding fuzzy_match
  fuzzy_match-IsMatch content old h =
      elim (Bool-cases (str_eq (normalize_for_fuzzy_match nfkc old) "")) [
        | inl e ↦ rw e (λ f. absurd (ground arith))
        | inr e ↦
            elim (Option-cases (
              find (normalize_for_fuzzy_match nfkc old) (normalize_for_fuzzy_match nfkc content))) [
                | inl none_found ↦ rw (e, none_found) (λ f. absurd (ground arith))
                | inr (i, found) ↦
                    rw (e, found)
                      (λ f. (normalize_for_fuzzy_match nfkc old, inr (h, refl, refl), found, refl))
              ]
      ]

  find_text_match-fuzzy :
      (content old : String)
      → find old content ≡ none
      → find_text_match nfkc content old
        ≡ fuzzy_match nfkc content
            (normalize_for_fuzzy_match nfkc content)
            (normalize_for_fuzzy_match nfkc old)
  unfolding find_text_match
  find_text_match-fuzzy content old h = rw (h, find_text_match) refl

  abbrev Matches : (content old : String) → TextMatchResult → Type 0
  Matches content old m = m.found ≡ true → IsMatch content old m

  find_text_match-IsMatch :
      (content old : String) → Matches content old (find_text_match nfkc content old)
  find_text_match-IsMatch content old = elim (Option-cases (find old content)) [
    | inl e ↦
        subst (Matches content old) (sym (find_text_match-fuzzy content old e))
          (fuzzy_match-IsMatch content old e)
    | inr (i, e) ↦
        subst (Matches content old) (sym (find_text_match-exact nfkc ndiff content old i e))
          (λ f. (old, inl (refl, refl), e, refl))
  ]

  abbrev pub IsAccepted : (file old_text new_text : String) → PreparedTextEdit → Type 0
  IsAccepted file old_text new_text edit =
      let content = normalize_to_lf (strip_bom file).1 in
      let old = normalize_to_lf old_text in
      (base : String) × (part : String) × (front : String) × (back : String) × IsChosen content old
        base part
      × (count_text_occurrences nfkc content old ≤ 1)
      × (base ≡ front ++ (part ++ back))
      × (edit.content
          ≡ (strip_bom file).0
            ++ restore_line_endings (front ++ (normalize_to_lf new_text ++ back))
                (detect_line_ending (strip_bom file).1))

  finish_edit-content :
      (bom ending base updated : String) (edit : PreparedTextEdit)
      → finish_edit nfkc ndiff bom ending base updated ≡ prepared edit
      → edit.content ≡ bom ++ restore_line_endings updated ending
  unfolding finish_edit
  finish_edit-content bom ending base updated edit h = elim (Bool-cases (str_eq base updated)) [
    | inl e ↦ absurd (ground arith)
    | inr e ↦
        let q : prepared (new_edit nfkc ndiff bom ending base updated) ≡ prepared edit =
          ground arith in
        sym (ap edit_text q)
  ]

  edit_match-content :
      (bom ending new : String) (m : TextMatchResult) (n : ℕ) (edit : PreparedTextEdit)
      → edit_match nfkc ndiff bom ending new m n ≡ prepared edit
      → (m.found ≡ true)
        × (n ≤ 1)
        × (edit.content
            ≡ bom
              ++ restore_line_endings
                  (splice m.content_for_replacement m.index m.match_length new)
                  ending)
  unfolding edit_match
  edit_match-content bom ending new m n edit h = elim (Bool-cases m.found) [
    | inl f ↦ elim (Bool-cases (ltb 1 n)) [
      | inl l ↦ absurd (ground arith)
      | inr l ↦ (
        f,
        ground arith,
        finish_edit-content bom ending m.content_for_replacement
            (splice m.content_for_replacement m.index m.match_length new) edit (ground arith),
      )
    ]
    | inr f ↦ absurd (ground arith)
  ]

  splice-IsMatch :
      (part new : String) (m : TextMatchResult)
      → find part m.content_for_replacement ≡ some m.index
      → m.match_length ≡ size part
      → (back : String) × (m.content_for_replacement
          ≡ first_chars m.index m.content_for_replacement ++ (part ++ back))
        × (splice m.content_for_replacement m.index m.match_length new
            ≡ first_chars m.index m.content_for_replacement ++ (new ++ back))
  splice-IsMatch part new m found long =
      let (back, place) = find-IsPlace part m.content_for_replacement m.index found in
      (
        back,
        place.0,
        rw long (splice-IsPlace m.content_for_replacement part back new m.index place),
      )

  -- An edit that succeeds replaces one occurrence of the old text, which occurs at most once by the
  -- fuzzy count, in the file's text or, only if it does not occur there, in the normalised one, and
  -- writes the result with the detected line ending behind the file's mark.
  pub prepare_text_edit-IsAccepted :
      (file old_text new_text : String) (edit : PreparedTextEdit)
      → prepare_text_edit nfkc ndiff file old_text new_text ≡ prepared edit
      → IsAccepted file old_text new_text edit
  unfolding prepare_text_edit
  prepare_text_edit-IsAccepted file old_text new_text edit h =
      let content = normalize_to_lf (strip_bom file).1 in
      let old = normalize_to_lf old_text in
      let new = normalize_to_lf new_text in
      let m = find_text_match nfkc content old in
      let (f, few, text) =
        edit_match-content (strip_bom file).0 (detect_line_ending (strip_bom file).1) new m
          (count_text_occurrences nfkc content old) edit h in
      let (part, chosen, found, long) = find_text_match-IsMatch content old f in
      let (back, split, joined) = splice-IsMatch part new m found long in
      (
        m.content_for_replacement,
        part,
        first_chars m.index m.content_for_replacement,
        back,
        chosen,
        few,
        split,
        text
            ∙ ap
                (λ (s : String).
                  (strip_bom file).0
                  ++ restore_line_endings s (detect_line_ending (strip_bom file).1))
                joined,
      )
