-- ===== src/Compactor/Text.antt =====
-- Python's `str.strip` and slices, and `_truncate_text` of
-- src/acabot/runtime/memory/context_compactor.py. A length counts characters.
use Prim.Native.Char.{Char, code}
use Prim.Native.String
use Prim.Native.String.{[], ◌∷◌, ◌++◌}
use aca_bot.Prelude.{ℕ, zero, suc, String, Bool, ◌||◌, ◌&&◌, leb, ◌==◌, if◌then◌else◌}

between : ℕ → ℕ → ℕ → Bool
between a b n = leb a n && leb n b

-- Python's whitespace characters.
unfoldable pub is_space : Char → Bool
unfolding between
is_space c =
    between 9 13 (code c)
    || between 28 32 (code c)
    || code c == 133
    || code c == 160
    || code c == 5760
    || between 8192 8202 (code c)
    || between 8232 8233 (code c)
    || code c == 8239
    || code c == 8287
    || code c == 12288

unfoldable pub lstrip : String → String
unfolding is_space
lstrip [] = ""
lstrip (c ∷ s) = if is_space c then lstrip s else c ∷ s

-- The character in front of what is left of the rest.
abbrev pub keep_char : Char → String → String
keep_char c [] = if is_space c then "" else c ∷ ""
keep_char c (d ∷ s) = c ∷ d ∷ s

unfoldable pub rstrip : String → String
unfolding is_space
rstrip [] = ""
rstrip (c ∷ s) = keep_char c (rstrip s)

unfoldable pub strip : String → String
unfolding lstrip rstrip
strip s = rstrip (lstrip s)

-- `len(s)`
abbrev pub size : String → ℕ
size s = String.count s

-- `s[:n]`
unfoldable pub first_chars : ℕ → String → String
first_chars zero s = ""
first_chars (suc n) [] = ""
first_chars (suc n) (c ∷ s) = c ∷ first_chars n s

unfoldable pub truncate_text : String → ℕ → String
unfolding strip first_chars rstrip
truncate_text value limit =
    let text = strip value in
    if leb (size text) limit then text else rstrip (first_chars limit text) ++ "..."
