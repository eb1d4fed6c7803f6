-- ===== src/Edits/Lines.antt =====
-- Python's `split("\n")` and `"\n".join`, for src/acabot/runtime/computer/editing.py.
use Prim.Native.Char.{Char, code}
use Prim.Native.String
use aca_bot.Prelude.{String, List, [], ◌∷◌, ◌==◌, if◌then◌else◌}

abbrev newline : String
newline = "\n"

-- The first line gets the character.
abbrev pub in_front : Char → List String → List String
in_front c [] = String.◌∷◌ c "" ∷ []
in_front c (line ∷ lines) = String.◌∷◌ c line ∷ lines

-- `text.split("\n")`
unfoldable pub split_lines : String → List String
split_lines String.[] = "" ∷ []
split_lines (String.◌∷◌ c s) =
    let rest = split_lines s in if code c == 10 then "" ∷ rest else in_front c rest

-- `"\n".join(lines)`
unfoldable pub join_lines : List String → String
join_lines [] = ""
join_lines (line ∷ []) = line
join_lines (line ∷ next ∷ lines) =
    let rest = join_lines (next ∷ lines) in String.◌++◌ line (String.◌++◌ "\n" rest)
