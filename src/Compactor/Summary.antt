-- ===== src/Compactor/Summary.antt =====
-- The length of the summaries.
use Prim.Native.Char.{Char}
use Prim.Native.String.{[], ◌∷◌}
use text.Mathlib.TextLemmas.{length-append, length-cons}
use aca_bot.Prelude.{ℕ, zero, suc, ◌+◌, ◌≤◌, String, arith, leb, if-holds}
use aca_bot.Compactor.Text.{size, strip, rstrip, is_space, first_chars, truncate_text, keep_char}

size-keep_char : (c : Char) (s : String) → size (keep_char c s) ≤ suc (size s)
size-keep_char c [] =
    if-holds (λ t. size t ≤ suc (size "")) (is_space c) (λ _. omega arith)
      (λ _. omega (arith, length-cons c ""))
size-keep_char c (d ∷ s) = omega (arith, length-cons c (d ∷ s))

size-rstrip : (s : String) → size (rstrip s) ≤ size s
unfolding rstrip
size-rstrip [] = omega arith
size-rstrip (c ∷ s) = omega (arith, size-keep_char c (rstrip s), size-rstrip s, length-cons c s)

size-first_chars : (n : ℕ) (s : String) → size (first_chars n s) ≤ n
unfolding first_chars
size-first_chars zero s = omega arith
size-first_chars (suc n) [] = omega arith
size-first_chars (suc n) (c ∷ s) =
    omega (arith, size-first_chars n s, length-cons c (first_chars n s))

pub size-truncate_text : (value : String) (limit : ℕ) → size (truncate_text value limit) ≤ limit + 3
unfolding truncate_text
size-truncate_text value limit =
    if-holds (λ t. size t ≤ limit + 3) (leb (size (strip value)) limit) (λ e. ground arith)
      (λ _. omega (
        arith,
        length-append (rstrip (first_chars limit (strip value))) "...",
        size-rstrip (first_chars limit (strip value)),
        size-first_chars limit (strip value),
      ))
