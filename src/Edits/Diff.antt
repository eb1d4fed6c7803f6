-- ===== src/Edits/Diff.antt =====
-- The diff that a tool is shown: `generate_diff_string` of
-- src/acabot/runtime/computer/editing.py.
use Prim.Native.String
use aca_bot.Prelude.{
  ℕ, zero, suc, ◌+◌, ◌-◌, ◌/◌, ◌%◌, max, String, Bool, true, false, List, [], ◌∷◌, ◌++◌, length,
  get_elem?, none, some, ltb, if◌then◌else◌,
}
use text.Mathlib.Text.{starts_with}
use aca_bot.Compactor.Text.{size}
use aca_bot.Edits.Search.{drop_chars}
use aca_bot.Edits.Lines.{split_lines, join_lines}

abbrev pub digit : ℕ → String
digit n =
    elim (get_elem? {A = String} ("0" ∷ "1" ∷ "2" ∷ "3" ∷ "4" ∷ "5" ∷ "6" ∷ "7" ∷ "8" ∷ "9" ∷ [])
      n) [ none ↦ "" | some d ↦ d ]

unfoldable pub decimal_from : (fuel n : ℕ) → String
decimal_from zero n = digit n
decimal_from (suc fuel) n =
    let front = decimal_from fuel (n / 10) in
    if ltb n 10 then digit n else String.◌++◌ front (digit (n % 10))

-- `str(n)`: a number has fewer digits than its value.
unfoldable pub decimal : ℕ → String
unfolding decimal_from
decimal n = decimal_from n n

abbrev pad : ℕ → String → String
pad zero s = s
pad (suc n) s = String.◌++◌ " " (pad n s)

-- `s.rjust(width)`
unfoldable pub rjust : String → ℕ → String
rjust s width = pad (width - size s) s

pub record DiffState : Type 0 where
  pub output : List String
  pub old_line_no : ℕ
  pub new_line_no : ℕ
  pub first_changed_line : ℕ
  pub found_change : Bool

unfoldable pub diff_start : DiffState
diff_start = record {
  output = [];
  old_line_no = 1;
  new_line_no = 1;
  first_changed_line = 1;
  found_change = false;
}

abbrev pub shown : (sign : String) (width number : ℕ) (line : String) → String
shown sign width number line =
    String.◌++◌ sign
      (String.◌++◌ (rjust (decimal number) width) (String.◌++◌ " " (drop_chars 2 line)))

abbrev changed : DiffState → DiffState
changed s =
    if s.found_change
    then s
    else record s { first_changed_line = s.new_line_no; found_change = true }

-- One round of the loop over the lines of `difflib.ndiff`.
unfoldable pub diff_line : (width : ℕ) → DiffState → (line : String) → DiffState
unfolding decimal rjust
diff_line width s line =
    if starts_with line "? "
    then s
    else if starts_with line "- "
    then record (changed s) {
      output = s.output ++ shown "-" width s.old_line_no line ∷ [];
      old_line_no = s.old_line_no + 1;
    }
    else if starts_with line "+ "
    then record (changed s) {
      output = s.output ++ shown "+" width s.new_line_no line ∷ [];
      new_line_no = s.new_line_no + 1;
    }
    else record s {
      output = s.output ++ shown " " width s.old_line_no line ∷ [];
      old_line_no = s.old_line_no + 1;
      new_line_no = s.new_line_no + 1;
    }

unfoldable pub diff_lines : (width : ℕ) → DiffState → (lines : List String) → DiffState
unfolding diff_line
diff_lines width s [] = s
diff_lines width s (line ∷ lines) = diff_lines width (diff_line width s line) lines

-- `difflib.ndiff` is an argument.
module _ (ndiff : List String → List String → List String) where
  unfoldable pub generate_diff_string : (old_content new_content : String) → String × ℕ
  unfolding diff_lines diff_start
  generate_diff_string old_content new_content =
      let old_lines = split_lines old_content in
      let new_lines = split_lines new_content in
      let width = size (decimal (max (max (length old_lines) (length new_lines)) 1)) in
      let s = diff_lines width diff_start (ndiff old_lines new_lines) in
      (join_lines s.output, s.first_changed_line)
