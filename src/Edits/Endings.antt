-- ===== src/Edits/Endings.antt =====
-- Line endings and the byte order mark: `detect_line_ending`, `normalize_to_lf`,
-- `restore_line_endings` and `strip_bom` of src/acabot/runtime/computer/editing.py.
use Prim.Native.Char.{code}
use Prim.Native.String.{[], ◌∷◌}
use aca_bot.Prelude.{ℕ, String, Option, none, some, ltb, str_eq, ◌==◌, if◌then◌else◌}
use aca_bot.Edits.Search.{find, replace}

abbrev pick_ending : Option ℕ → Option ℕ → String
pick_ending crlf none = "\n"
pick_ending none (some lf) = "\n"
pick_ending (some crlf) (some lf) = if ltb crlf lf then "\r\n" else "\n"

unfoldable pub detect_line_ending : String → String
unfolding find
detect_line_ending content = pick_ending (find "\r\n" content) (find "\n" content)

unfoldable pub normalize_to_lf : String → String
unfolding replace
normalize_to_lf text = replace "\r" "\n" (replace "\r\n" "\n" text)

unfoldable pub restore_line_endings : (text line_ending : String) → String
unfolding replace
restore_line_endings text line_ending =
    if str_eq line_ending "\r\n" then replace "\n" "\r\n" text else text

-- The mark, and the text without it.
unfoldable pub strip_bom : String → String × String
strip_bom [] = ("", "")
strip_bom (c ∷ s) = if code c == 65279 then (c ∷ "", s) else ("", c ∷ s)
