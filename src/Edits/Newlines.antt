-- ===== src/Edits/Newlines.antt =====
-- What the rewriting of line endings keeps, for src/acabot/runtime/computer/editing.py.
use Prim.Native.Char.{Char, code}
use Prim.Native.String.{[], ◌∷◌, ◌++◌}
use text.Mathlib.TextEquality.{Char-path}
use text.Mathlib.TextLemmas.{nil-append, cons-append}
use aca_bot.Prelude.{
  ℕ, String, true, false, ◌==◌, ◌≡◌, ◌⊎◌, refl, arith, ap, subst, sym, ◌∙◌, inl, inr, Bool-cases,
  if◌then◌else◌,
}
use aca_bot.Edits.Search.{strip_prefix, begins, replace_from, replace}
use aca_bot.Edits.Endings.{normalize_to_lf, restore_line_endings}

-- No character of the text has the code.
abbrev pub Lacks : ℕ → String → Type 0
Lacks n [] = Unit
Lacks n (c ∷ s) = ((code c == n) ≡ false) × Lacks n s

abbrev pub lf : Char
lf = "\n"

abbrev pub cr : Char
cr = "\r"

lf-append : (s : String) → "\n" ++ s ≡ lf ∷ s
lf-append s = cons-append lf "" s ∙ ap (λ (t : String). lf ∷ t) (nil-append s)

pub crlf-append : (s : String) → "\r\n" ++ s ≡ cr ∷ (lf ∷ s)
crlf-append s = cons-append cr "\n" s ∙ ap (λ (t : String). cr ∷ t) (lf-append s)

pub replace-empty : (old new : String) → replace old new [] ≡ ""
unfolding replace replace_from
replace-empty old new = refl

-- The rounds of the replacements that the program makes.
pub replace_lf :
    (c : Char) (s : String)
    → replace "\n" "\r\n" (c ∷ s)
      ≡ (if code c == 10 then "\r\n" ++ replace "\n" "\r\n" s else c ∷ replace "\n" "\r\n" s)
unfolding replace replace_from begins strip_prefix
replace_lf c s = ground arith

replace_cr :
    (c : Char) (s : String)
    → replace "\r" "\n" (c ∷ s)
      ≡ (if code c == 13 then "\n" ++ replace "\r" "\n" s else c ∷ replace "\r" "\n" s)
unfolding replace replace_from begins strip_prefix
replace_cr c s = ground arith

-- A pair of line ending characters becomes one.
replace_pair : (s : String) → replace "\r\n" "\n" ("\r\n" ++ s) ≡ "\n" ++ replace "\r\n" "\n" s
unfolding replace replace_from begins strip_prefix
replace_pair s = rw (crlf-append, lf-append) refl

replace_no_cr :
    (c : Char) (s : String)
    → (code c == 13) ≡ false
    → replace "\r\n" "\n" (c ∷ s) ≡ c ∷ replace "\r\n" "\n" s
unfolding replace replace_from begins strip_prefix
replace_no_cr c s h = ground arith

pub replace_cr-Lacks : (s : String) → Lacks 13 (replace "\r" "\n" s)
replace_cr-Lacks [] = rw replace-empty tt
replace_cr-Lacks (c ∷ s) = elim (Bool-cases (code c == 13)) [
  | inl e ↦ rw (replace_cr, e) (subst (Lacks 13) (sym (lf-append _)) (refl, replace_cr-Lacks s))
  | inr e ↦ rw (replace_cr, e) (e, replace_cr-Lacks s)
]

replace_cr-none : (s : String) → Lacks 13 s → replace "\r" "\n" s ≡ s
replace_cr-none [] h = rw replace-empty refl
replace_cr-none (c ∷ s) h =
    rw (replace_cr, h.0) (ap (λ (t : String). c ∷ t) (replace_cr-none s h.1))

replace_pair-none : (s : String) → Lacks 13 s → replace "\r\n" "\n" s ≡ s
replace_pair-none [] h = rw replace-empty refl
replace_pair-none (c ∷ s) h =
    rw (replace_no_cr c s h.0) (ap (λ (t : String). c ∷ t) (replace_pair-none s h.1))

newline_char : (c : Char) (s : String) → (code c == 10) ≡ true → "\n" ++ s ≡ c ∷ s
newline_char c s h = lf-append s ∙ ap (λ (d : Char). d ∷ s) (Char-path lf c (ground arith))

-- What was expanded is contracted to the same text.
replace_pair-replace_lf :
    (s : String) → Lacks 13 s → replace "\r\n" "\n" (replace "\n" "\r\n" s) ≡ s
replace_pair-replace_lf [] h = rw (replace-empty, replace-empty) refl
replace_pair-replace_lf (c ∷ s) h = elim (Bool-cases (code c == 10)) [
  | inl e ↦ rw (replace_lf, e, replace_pair, replace_pair-replace_lf s h.1) (newline_char c s e)
  | inr e ↦
      rw (replace_lf, e, replace_no_cr c (replace "\n" "\r\n" s) h.0, replace_pair-replace_lf s h.1)
        refl
]

pub normalize_to_lf-Lacks : (text : String) → Lacks 13 (normalize_to_lf text)
unfolding normalize_to_lf
normalize_to_lf-Lacks text = replace_cr-Lacks (replace "\r\n" "\n" text)

pub normalize_to_lf-none : (text : String) → Lacks 13 text → normalize_to_lf text ≡ text
unfolding normalize_to_lf
normalize_to_lf-none text h = rw (replace_pair-none text h) (replace_cr-none text h)

pub restore-lf : (text : String) → restore_line_endings text "\n" ≡ text
unfolding restore_line_endings
restore-lf text = refl

pub restore-crlf : (text : String) → restore_line_endings text "\r\n" ≡ replace "\n" "\r\n" text
unfolding restore_line_endings
restore-crlf text = refl

-- The two endings that the program knows.
abbrev pub IsEnding : String → Type 0
IsEnding ending = (ending ≡ "\n") ⊎ (ending ≡ "\r\n")

normalize_to_lf-replace_lf :
    (text : String) → Lacks 13 text → normalize_to_lf (replace "\n" "\r\n" text) ≡ text
unfolding normalize_to_lf
normalize_to_lf-replace_lf text h = rw (replace_pair-replace_lf text h) (replace_cr-none text h)

-- A text that was written with either ending is read back as it was.
pub normalize_to_lf-restore_line_endings :
    (text ending : String)
    → Lacks 13 text
    → IsEnding ending
    → normalize_to_lf (restore_line_endings text ending) ≡ text
normalize_to_lf-restore_line_endings text ending h (inl e) =
    rw (e, restore-lf) (normalize_to_lf-none text h)
normalize_to_lf-restore_line_endings text ending h (inr e) =
    rw (e, restore-crlf) (normalize_to_lf-replace_lf text h)
