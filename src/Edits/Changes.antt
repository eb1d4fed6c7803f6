-- ===== src/Edits/Changes.antt =====
-- The line numbers of a diff, for src/acabot/runtime/computer/editing.py.
use Prim.Native.String.{◌++◌}
use text.Mathlib.TextPositions.{slice-append_left}
use aca_bot.Prelude.{
  ℕ, suc, ◌+◌, String, Bool, true, false, Option, none, some, List, [], ◌∷◌, map, take, ◌≡◌, refl,
  ◌∙◌, ap, arith, if◌then◌else◌, ◌||◌, ◌&&◌, not,
}
use aca_bot.Edits.Search.{later}
use aca_bot.Edits.Lines.{split_lines}
use aca_bot.Edits.Diff.{DiffState, diff_start, diff_line, diff_lines, generate_diff_string}

-- The lines that `difflib.ndiff` documents: of the old text, of the new one, of both, and hints.
pub data Mark : Type 0 where
  removed added same hint : String → Mark

unfoldable pub mark_line : Mark → String
mark_line (removed s) = "- " ++ s
mark_line (added s) = "+ " ++ s
mark_line (same s) = "  " ++ s
mark_line (hint s) = "? " ++ s

abbrev pub old_side : List Mark → List String
old_side [] = []
old_side (removed s ∷ marks) = s ∷ old_side marks
old_side (added s ∷ marks) = old_side marks
old_side (same s ∷ marks) = s ∷ old_side marks
old_side (hint s ∷ marks) = old_side marks

abbrev pub new_side : List Mark → List String
new_side [] = []
new_side (removed s ∷ marks) = new_side marks
new_side (added s ∷ marks) = s ∷ new_side marks
new_side (same s ∷ marks) = s ∷ new_side marks
new_side (hint s ∷ marks) = new_side marks

-- How many lines stand in front of the first change.
abbrev pub first_change : List Mark → Option ℕ
first_change [] = none
first_change (removed s ∷ marks) = some 0
first_change (added s ∷ marks) = some 0
first_change (same s ∷ marks) = later (first_change marks)
first_change (hint s ∷ marks) = first_change marks

abbrev after : ℕ → ℕ → Option ℕ → ℕ
after first now none = first
after first now (some k) = now + k

abbrev is_change : Mark → Bool
is_change (removed s) = true
is_change (added s) = true
is_change (same s) = false
is_change (hint s) = false

abbrev new_lines : Mark → ℕ
new_lines (removed s) = 0
new_lines (added s) = 1
new_lines (same s) = 1
new_lines (hint s) = 0

-- What a line does to the numbers.
abbrev Moves : Mark → DiffState → DiffState → Type 0
Moves mark s next =
    (next.new_line_no ≡ s.new_line_no + new_lines mark)
    × (next.found_change ≡ s.found_change || is_change mark)
    × (next.first_changed_line
        ≡ (if is_change mark && not s.found_change then s.new_line_no else s.first_changed_line))

module _ (width : ℕ) where
  diff_line-Moves :
      (mark : Mark) (s : DiffState) → Moves mark s (diff_line width s (mark_line mark))
  unfolding diff_line mark_line
  diff_line-Moves (removed line) s = rw (slice-append_left "- " line) (ground arith)
  diff_line-Moves (added line) s = rw (slice-append_left "+ " line) (ground arith)
  diff_line-Moves (same line) s = rw (slice-append_left "  " line) (ground arith)
  diff_line-Moves (hint line) s = rw (slice-append_left "? " line) (ground arith)

  diff_lines-found :
      (s : DiffState) (marks : List Mark)
      → s.found_change ≡ true
      → (diff_lines width s (map mark_line marks)).first_changed_line ≡ s.first_changed_line
  unfolding diff_lines
  diff_lines-found s [] f = refl
  diff_lines-found s (mark ∷ marks) f =
      ground
        (arith, diff_line-Moves mark s, diff_lines-found (diff_line width s (mark_line mark)) marks)

  diff_lines-first :
      (s : DiffState) (marks : List Mark)
      → s.found_change ≡ false
      → (diff_lines width s (map mark_line marks)).first_changed_line
        ≡ after s.first_changed_line s.new_line_no (first_change marks)
  unfolding diff_lines
  diff_lines-first s [] f = refl
  diff_lines-first s (removed line ∷ marks) f =
      let mark = removed line in
      ground
        (arith, diff_line-Moves mark s, diff_lines-found (diff_line width s (mark_line mark)) marks)
  diff_lines-first s (added line ∷ marks) f =
      let mark = added line in
      ground
        (arith, diff_line-Moves mark s, diff_lines-found (diff_line width s (mark_line mark)) marks)
  diff_lines-first s (same line ∷ marks) f =
      let mark = same line in
      ground
        (arith, diff_line-Moves mark s, diff_lines-first (diff_line width s (mark_line mark)) marks)
  diff_lines-first s (hint line ∷ marks) f =
      let mark = hint line in
      ground
        (arith, diff_line-Moves mark s, diff_lines-first (diff_line width s (mark_line mark)) marks)

abbrev pub unchanged : Option ℕ → ℕ
unchanged none = 0
unchanged (some k) = k

take-later :
    (line : String) (olds news : List String) (o : Option ℕ)
    → take (unchanged o) olds ≡ take (unchanged o) news
    → take (unchanged (later o)) (line ∷ olds) ≡ take (unchanged (later o)) (line ∷ news)
take-later line olds news none h = refl
take-later line olds news (some k) h = ap (λ (lines : List String). line ∷ lines) h

-- The lines in front of the first change are the same in both texts.
take-first_change :
    (marks : List Mark)
    → take (unchanged (first_change marks)) (old_side marks)
      ≡ take (unchanged (first_change marks)) (new_side marks)
take-first_change [] = refl
take-first_change (removed line ∷ marks) = refl
take-first_change (added line ∷ marks) = refl
take-first_change (same line ∷ marks) =
    take-later line (old_side marks) (new_side marks) (first_change marks) (take-first_change marks)
take-first_change (hint line ∷ marks) = take-first_change marks

after_start : (o : Option ℕ) → after 1 1 o ≡ suc (unchanged o)
after_start none = refl
after_start (some k) = omega arith

-- Where ndiff's answer for the lines of two texts is a list of marked lines of both, the first
-- changed line is the one behind the lines in front of the first change, or 1 without a change,
-- and the lines in front of it are the same in both texts.
pub first_changed_line-generate_diff_string :
    (ndiff : List String → List String → List String) (old new : String) (marks : List Mark)
    → ndiff (split_lines old) (split_lines new) ≡ map mark_line marks
    → old_side marks ≡ split_lines old
    → new_side marks ≡ split_lines new
    → let k = unchanged (first_change marks) in
      ((generate_diff_string ndiff old new).1 ≡ suc k)
      × (take k (split_lines old) ≡ take k (split_lines new))
unfolding generate_diff_string diff_start
first_changed_line-generate_diff_string ndiff old new marks h o n = (
  rw h (diff_lines-first _ diff_start marks refl ∙ after_start (first_change marks)),
  rw (← o, ← n) (take-first_change marks),
)
