-- ===== src/Edits/Found.antt =====
-- The places of a text in another one, for src/acabot/runtime/computer/editing.py.
use Prim.Native.Char.{Char, code}
use Prim.Native.String.{[], ◌∷◌, ◌++◌}
use native.Mathlib.Nat.{zero-add, suc-add}
use text.Mathlib.TextEquality.{Char-path}
use text.Mathlib.TextLemmas.{
  nil-append, cons-append, length-nil, length-cons, append-nil, append_assoc,
}
use aca_bot.Prelude.{
  ℕ, suc, ◌+◌, ◌≤◌, String, true, Option, none, some, ◌==◌, ◌≡◌, refl, arith, ap, subst, sym, ap₂,
  inl, inr, Bool-cases, Option-cases,
}
use aca_bot.Compactor.Text.{size, first_chars}
use aca_bot.Edits.Search.{strip_prefix, begins, find, later, drop_chars}

-- What the native operations on texts compute to.
pub ruleset texts = (nil-append, cons-append, length-nil, length-cons, append_assoc)

pub strip_prefix-some :
    (part text rest : String) → strip_prefix part text ≡ some rest → text ≡ part ++ rest
unfolding strip_prefix
strip_prefix-some [] text rest h = rw nil-append (ground arith)
strip_prefix-some (p ∷ part) [] rest h = absurd (ground arith)
strip_prefix-some (p ∷ part) (c ∷ text) rest h = elim (Bool-cases (code p == code c)) [
  | inl e ↦ rw cons-append (
      ap₂ (λ (x : Char) (s : String). x ∷ s) (Char-path c p (ground arith))
        (strip_prefix-some part text rest (ground arith)))
  | inr e ↦ absurd (ground arith)
]

pub strip_prefix-append : (part rest : String) → strip_prefix part (part ++ rest) ≡ some rest
unfolding strip_prefix
strip_prefix-append [] rest = rw nil-append refl
strip_prefix-append (p ∷ part) rest = rw cons-append (ground (arith, strip_prefix-append part rest))

pub begins-append : (part rest : String) → begins part (part ++ rest) ≡ true
unfolding begins
begins-append part rest = rw strip_prefix-append

pub begins-splits :
    (part text : String) → begins part text ≡ true → (back : String) × (text ≡ part ++ back)
unfolding begins
begins-splits part text h = elim (Option-cases (strip_prefix part text)) [
  | inl e ↦ absurd (ground arith)
  | inr (rest, e) ↦ (rest, strip_prefix-some part text rest e)
]

pub drop_chars-append : (front back : String) → drop_chars (size front) (front ++ back) ≡ back
unfolding drop_chars
drop_chars-append [] back = rw nil-append refl
drop_chars-append (c ∷ front) back =
    subst (λ (n : ℕ). drop_chars n ((c ∷ front) ++ back) ≡ back) (sym (length-cons c front))
      (rw cons-append (drop_chars-append front back))

-- The place of a part: what stands in front of it, and what comes after it.
abbrev pub IsPlace : (part text : String) → ℕ → String → Type 0
IsPlace part text i back =
    (text ≡ first_chars i text ++ (part ++ back)) × (drop_chars (i + size part) text ≡ back)

begins-IsPlace :
    (part text : String) → begins part text ≡ true → (back : String) × IsPlace part text 0 back
unfolding first_chars
begins-IsPlace part text h =
    let (back, e) = begins-splits part text h in
    (back, (rw (nil-append) e, rw (zero-add, e) (drop_chars-append part back)))

later-some : (o : Option ℕ) (i : ℕ) → later o ≡ some i → (j : ℕ) × (o ≡ some j) × (i ≡ suc j)
later-some none i h = absurd (ground arith)
later-some (some j) i h = (j, refl, ground arith)

IsPlace-later :
    (part text : String) (c : Char) (j : ℕ) (back : String)
    → IsPlace part text j back
    → IsPlace part (c ∷ text) (suc j) back
unfolding first_chars drop_chars
IsPlace-later part text c j back (split, rest) =
    (rw cons-append (ap (λ (s : String). c ∷ s) split), rw suc-add rest)

pub find-IsPlace :
    (part text : String) (i : ℕ)
    → find part text ≡ some i
    → (back : String) × IsPlace part text i back
unfolding find
find-IsPlace part [] i h = elim (Bool-cases (begins part [])) [
  | inl e ↦
      let zero_i : 0 ≡ i = ground arith in
      subst (λ (k : ℕ). (back : String) × IsPlace part [] k back) zero_i (begins-IsPlace part [] e)
  | inr e ↦ absurd (ground arith)
]
find-IsPlace part (c ∷ text) i h = elim (Bool-cases (begins part (c ∷ text))) [
  | inl e ↦
      let zero_i : 0 ≡ i = ground arith in
      subst (λ (k : ℕ). (back : String) × IsPlace part (c ∷ text) k back) zero_i
        (begins-IsPlace part (c ∷ text) e)
  | inr e ↦
      let (j, found, next) = later-some (find part text) i (ground arith) in
      let (back, place) = find-IsPlace part text j found in
      subst (λ (k : ℕ). (back : String) × IsPlace part (c ∷ text) k back) (sym next)
        (back, IsPlace-later part text c j back place)
]

begins-find : (part text : String) → begins part text ≡ true → find part text ≡ some 0
unfolding find
begins-find part [] h = rw h refl
begins-find part (c ∷ text) h = rw h refl

find-begins : (part back : String) → find part ("" ++ (part ++ back)) ≡ some 0
find-begins part back = rw nil-append (begins-find part (part ++ back) (begins-append part back))

-- A part that stands in a text is found, there or further in front.
pub find-append :
    (part front back : String)
    → (i : ℕ) × (find part (front ++ (part ++ back)) ≡ some i) × (i ≤ size front)
unfolding find
find-append part [] back = (0, find-begins part back, omega arith)
find-append part (c ∷ front) back =
    elim (Bool-cases (begins part (c ∷ (front ++ (part ++ back))))) [
      | inl e ↦ (0, rw (cons-append, e) refl, omega arith)
      | inr e ↦
          let (i, found, le) = find-append part front back in
          (suc i, rw (cons-append, e, found) refl, omega (arith, length-cons c front))
    ]
