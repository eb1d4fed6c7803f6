-- ===== src/Logs/Polling.antt =====
-- What a poll of the log buffer returns, against its plain description.
use aca_bot.Prelude.{
  ℕ, zero, suc, ◌-◌, ◌≤◌, max, String, ◌≡◌, refl, sym, ap, Bool, true, false, ◌&&◌, not, List, [],
  ◌∷◌, take, keep, arith, leb, Bool-cases, inl, inr, All, ◌∙◌,
}
use aca_bot.Logs.Buffer.{LogEntry, Query, is_wanted, is_old, collect}

-- From the newest on the numbers go down.
abbrev pub IsDescending : List LogEntry → Type 0
IsDescending [] = Unit
IsDescending (x ∷ xs) = All (λ (y : LogEntry). y.seq ≤ x.seq) xs × IsDescending xs

module _ (upper lower : String → String) (query : Query) where
  -- The entry is newer than the client's last one and passes the filters.
  abbrev pub is_asked : LogEntry → Bool
  is_asked item = not (is_old upper lower query item) && is_wanted upper lower query item

  older-old :
      (x : LogEntry) (xs : List LogEntry)
      → is_old upper lower query x ≡ true
      → All (λ (y : LogEntry). y.seq ≤ x.seq) xs
      → keep is_asked xs ≡ []
  older-old x [] o a = refl
  older-old x (y ∷ xs) o a =
      let old : is_old upper lower query y ≡ true = ground arith in rw old (older-old x xs o a.1)

  take-none : (n : ℕ) → take {A = LogEntry} n [] ≡ []
  take-none zero = refl
  take-none (suc n) = refl

  take-cons :
      (n : ℕ) (x : LogEntry) (xs : List LogEntry)
      → (leb query.limit (suc n) ≡ true → take (max 1 (query.limit - n)) (x ∷ xs) ≡ x ∷ [])
        × (leb query.limit (suc n) ≡ false
            → take (max 1 (query.limit - n)) (x ∷ xs) ≡ x ∷ take (max 1 (query.limit - suc n)) xs)
  take-cons n x xs = (
    λ e. let one : max 1 (query.limit - n) ≡ 1 = ground arith in rw one refl,
    λ e.
        let more : max 1 (query.limit - n) ≡ suc (max 1 (query.limit - suc n)) = ground arith in
        rw more refl,
  )

  pub collect-take :
      (xs : List LogEntry) (n : ℕ)
      → IsDescending xs
      → collect upper lower query n xs ≡ take (max 1 (query.limit - n)) (keep is_asked xs)
  unfolding collect
  collect-take [] n d = sym (take-none (max 1 (query.limit - n)))
  collect-take (x ∷ xs) n d = elim (Bool-cases (is_old upper lower query x)) [
    | inl o ↦ rw o (rw (older-old x xs o d.0) (sym (take-none (max 1 (query.limit - n)))))
    | inr o ↦ elim (Bool-cases (is_wanted upper lower query x)) [
      | inr w ↦ rw (o, w) (collect-take xs n d.1)
      | inl w ↦ elim (Bool-cases (leb query.limit (suc n))) [
        | inl l ↦ rw (o, w, l) (sym ((take-cons n x (keep is_asked xs)).0 l))
        | inr l ↦
            rw (o, w, l)
              (ap (λ r. x ∷ r) (collect-take xs (suc n) d.1)
                ∙ sym ((take-cons n x (keep is_asked xs)).1 l))
      ]
    ]
  ]
