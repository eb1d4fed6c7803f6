-- ===== src/Logs/Search.antt =====
-- Python's `in` on texts, for src/acabot/runtime/control/log_buffer.py.
use Prim.Native.String.{String, [], ◌∷◌}
use text.Mathlib.Text.{starts_with}
use aca_bot.Prelude.{Bool, ◌||◌}

-- `part in text`
unfoldable pub contains : (part text : String) → Bool
contains part [] = starts_with "" part
contains part (c ∷ text) = starts_with (c ∷ text) part || contains part text
