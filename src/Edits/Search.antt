-- ===== src/Edits/Search.antt =====
-- Python's `str.find`, `str.count`, `str.replace` and slices, as
-- src/acabot/runtime/computer/editing.py uses them. A position counts characters.
use Prim.Native.Char.{code}
use Prim.Native.String.{[], ◌∷◌, ◌++◌}
use aca_bot.Prelude.{
  ℕ, zero, suc, ◌-◌, String, Bool, Option, none, some, ◌==◌, if◌then◌else◌, is_some,
}
use aca_bot.Compactor.Text.{size}

-- What follows the part, where the text begins with it.
unfoldable pub strip_prefix : (part text : String) → Option String
strip_prefix [] text = some text
strip_prefix (p ∷ part) [] = none
strip_prefix (p ∷ part) (c ∷ text) =
    let rest = strip_prefix part text in if code p == code c then rest else none

unfoldable pub begins : (part text : String) → Bool
unfolding strip_prefix
begins part text = is_some (strip_prefix part text)

abbrev pub later : Option ℕ → Option ℕ
later none = none
later (some i) = some (suc i)

-- `text.find(part)`, with `none` for -1
unfoldable pub find : (part text : String) → Option ℕ
unfolding begins
find part [] = if begins part [] then some 0 else none
find part (c ∷ text) =
    let rest = find part text in if begins part (c ∷ text) then some 0 else later rest

-- The occurrences that do not overlap, behind the characters that the last one covers.
unfoldable pub count_from : (part : String) → ℕ → (text : String) → ℕ
unfolding begins
count_from part skip [] = 0
count_from part (suc skip) (c ∷ text) = count_from part skip text
count_from part zero (c ∷ text) =
    let here = suc (count_from part (size part - 1) text) in
    let rest = count_from part zero text in if begins part (c ∷ text) then here else rest

-- `text.count(part)` for a part that is not empty
unfoldable pub count : (part text : String) → ℕ
unfolding count_from
count part text = count_from part 0 text

unfoldable pub replace_from : (old new : String) → ℕ → (text : String) → String
unfolding begins
replace_from old new skip [] = ""
replace_from old new (suc skip) (c ∷ text) = replace_from old new skip text
replace_from old new zero (c ∷ text) =
    let here = new ++ replace_from old new (size old - 1) text in
    let rest = c ∷ replace_from old new zero text in if begins old (c ∷ text) then here else rest

-- `text.replace(old, new)` for an old text that is not empty
unfoldable pub replace : (old new text : String) → String
unfolding replace_from
replace old new text = replace_from old new 0 text

-- `text[n:]`
unfoldable pub drop_chars : ℕ → String → String
drop_chars zero s = s
drop_chars (suc n) [] = ""
drop_chars (suc n) (c ∷ s) = drop_chars n s
