-- ===== src/Edits/Detected.antt =====
-- Which line ending is detected, for src/acabot/runtime/computer/editing.py.
use Prim.Native.Char.{Char, code}
use Prim.Native.String.{[], ◌∷◌, ◌++◌}
use aca_bot.Prelude.{
  String, true, false, none, some, ◌==◌, ◌≡◌, ◌⊎◌, refl, arith, ap, inl, inr, Bool-cases,
  Option-cases, if◌then◌else◌, is_some,
}
use aca_bot.Edits.Search.{strip_prefix, begins, find, later, replace, replace_from}
use aca_bot.Edits.Endings.{detect_line_ending, restore_line_endings}
use aca_bot.Edits.Newlines.{Lacks, crlf-append, replace_lf, restore-lf, restore-crlf}

find_lf :
    (c : Char) (s : String)
    → find "\n" (c ∷ s) ≡ (if code c == 10 then some 0 else later (find "\n" s))
unfolding find begins strip_prefix
find_lf c s = ground arith

find_crlf_no_cr :
    (c : Char) (s : String) → (code c == 13) ≡ false → find "\r\n" (c ∷ s) ≡ later (find "\r\n" s)
unfolding find begins strip_prefix
find_crlf_no_cr c s h = ground arith

find_crlf_here : (s : String) → find "\r\n" ("\r\n" ++ s) ≡ some 0
unfolding find begins strip_prefix
find_crlf_here s = rw crlf-append refl

find_lf_here : (s : String) → find "\n" ("\r\n" ++ s) ≡ some 1
unfolding find begins strip_prefix
find_lf_here s = rw crlf-append refl

find_crlf_empty : find "\r\n" "" ≡ none
unfolding find begins strip_prefix
find_crlf_empty = refl

find_crlf_none : (s : String) → Lacks 13 s → find "\r\n" s ≡ none
find_crlf_none [] h = find_crlf_empty
find_crlf_none (c ∷ s) h = rw (find_crlf_no_cr c s h.0, find_crlf_none s h.1) refl

find-replace_lf-empty :
    (find "\r\n" (replace "\n" "\r\n" "") ≡ find "\n" "")
    × (find "\n" (replace "\n" "\r\n" "") ≡ later (find "\n" ""))
unfolding find begins strip_prefix replace replace_from
find-replace_lf-empty = (refl, refl)

-- The first newline of a text becomes its first pair.
find-replace_lf :
    (s : String)
    → Lacks 13 s
    → (find "\r\n" (replace "\n" "\r\n" s) ≡ find "\n" s)
      × (find "\n" (replace "\n" "\r\n" s) ≡ later (find "\n" s))
find-replace_lf [] h = find-replace_lf-empty
find-replace_lf (c ∷ s) h = elim (Bool-cases (code c == 10)) [
  | inl e ↦ rw (replace_lf, e, find_lf, e) (find_crlf_here _, find_lf_here _)
  | inr e ↦
      rw (replace_lf, e, find_lf, e)
        (
          rw (find_crlf_no_cr c _ h.0) (ap later (find-replace_lf s h.1).0),
          rw (find_lf, e) (ap later (find-replace_lf s h.1).1),
        )
]

-- The ending that a text was written with, where it has a line end to show it.
abbrev pub IsEndingOf : String → String → Type 0
IsEndingOf text ending = (ending ≡ "\n") ⊎ ((ending ≡ "\r\n") × (is_some (find "\n" text) ≡ true))

detect-lf : (text : String) → Lacks 13 text → detect_line_ending text ≡ "\n"
unfolding detect_line_ending
detect-lf text h =
    rw (find_crlf_none text h)
      (elim (Option-cases (find "\n" text)) [ inl e ↦ rw e refl | inr (i, e) ↦ rw e refl ])

detect-crlf :
    (text : String)
    → Lacks 13 text
    → is_some (find "\n" text) ≡ true
    → detect_line_ending (replace "\n" "\r\n" text) ≡ "\r\n"
unfolding detect_line_ending
detect-crlf text h found = elim (Option-cases (find "\n" text)) [
  | inl e ↦ absurd (ground arith)
  | inr (i, e) ↦ rw ((find-replace_lf text h).0, (find-replace_lf text h).1, e) (ground arith)
]

pub detect_line_ending-restore_line_endings :
    (text ending : String)
    → Lacks 13 text
    → IsEndingOf text ending
    → detect_line_ending (restore_line_endings text ending) ≡ ending
detect_line_ending-restore_line_endings text ending h (inl e) =
    rw (e, restore-lf) (detect-lf text h)
detect_line_ending-restore_line_endings text ending h (inr (e, found)) =
    rw (e, restore-crlf) (detect-crlf text h found)
