-- ===== src/Models/Prefix.antt =====
-- `str.removeprefix` after a test by `startswith`, and the test for a slash.
use Prim.Native.Char.{code}
use Prim.Native.String.{[], ◌∷◌}
use aca_bot.Prelude.{String, Bool, false, ◌||◌, Option, none, some, ◌==◌, if◌then◌else◌}

-- What stands after the prefix, if the text starts with it.
unfoldable pub after_prefix : (prefix text : String) → Option String
after_prefix [] text = some text
after_prefix (c ∷ prefix) [] = none
after_prefix (c ∷ prefix) (d ∷ text) =
    let rest = after_prefix prefix text in if code c == code d then rest else none

-- `"/" in text`
unfoldable pub has_slash : String → Bool
has_slash [] = false
has_slash (c ∷ text) = code c == 47 || has_slash text
