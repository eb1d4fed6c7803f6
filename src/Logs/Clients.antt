-- ===== src/Logs/Clients.antt =====
-- What the clients of the log buffer get, after any number of appended entries.
use mathlib.Core.List.{reverse, reverse-cons}
use aca_bot.Prelude.{
  ℕ, suc, ◌+◌, ◌-◌, ◌≤◌, ◌<◌, ◌==◌, max, String, ◌≡◌, refl, ap, Bool, true, false, ◌||◌, not, List,
  [], ◌∷◌, ◌++◌, length, take, keep, arith, leb, Bool-cases, inl, inr, All, All-append, ◌∙◌,
}
use aca_bot.Logs.Buffer.{LogEntry, LogBuffer, init, append, Query, is_behind, list_entries}
use aca_bot.Logs.Polling.{IsDescending, is_asked, collect-take}
use aca_bot.Logs.Numbers.{IsConsecutive, IsNumbered, append-IsNumbered}

unfoldable pub append_all : List LogEntry → LogBuffer → LogBuffer
unfolding append
append_all [] b = b
append_all (entry ∷ entries) b = append_all entries (append entry b)

-- `InMemoryLogHandler` leaves the number of an entry to the buffer.
abbrev pub IsUnnumbered : LogEntry → Type 0
IsUnnumbered entry = entry.seq ≡ 0

pub append_all-IsNumbered :
    (entries : List LogEntry) (b : LogBuffer)
    → All IsUnnumbered entries
    → IsNumbered b
    → IsNumbered (append_all entries b)
unfolding append_all
append_all-IsNumbered [] b z i = i
append_all-IsNumbered (entry ∷ entries) b z i =
    append_all-IsNumbered entries (append entry b) z.1 (append-IsNumbered entry b z.0 i)

-- A buffer that is filled from the start with entries without a number holds at most `max_entries` of
-- them, and they have the numbers up to the latest one without a gap.
pub append_all-init :
    (entries : List LogEntry) (max_entries : ℕ)
    → All IsUnnumbered entries
    → IsNumbered (append_all entries (init max_entries))
unfolding init
append_all-init entries max_entries z =
    append_all-IsNumbered entries (init max_entries) z
      (record { consecutive = tt; bounded = omega arith; started = omega arith })

AtLeast : ℕ → LogEntry → Type 0
AtLeast n x = n ≤ x.seq

All-AtLeast :
    (start n : ℕ) (xs : List LogEntry) → n ≤ start → IsConsecutive start xs → All (AtLeast n) xs
unfolding AtLeast
All-AtLeast start n [] h c = tt
All-AtLeast start n (x ∷ xs) h c =
    (omega (arith, c.0), All-AtLeast (suc start) n xs (omega arith) c.1)

All-reverse : (P : LogEntry → Type 0) (xs : List LogEntry) → All P xs → All P (reverse xs)
All-reverse P [] a = tt
All-reverse P (x ∷ xs) a =
    rw reverse-cons (All-append P (reverse xs) (x ∷ []) (All-reverse P xs a.1) (a.0, tt))

IsDescending-snoc :
    (xs : List LogEntry) (x : LogEntry)
    → IsDescending xs
    → All (AtLeast x.seq) xs
    → IsDescending (xs ++ x ∷ [])
unfolding AtLeast
IsDescending-snoc [] x d a = (tt, tt)
IsDescending-snoc (y ∷ xs) x d a =
    (All-append _ xs (x ∷ []) d.0 (a.0, tt), IsDescending-snoc xs x d.1 a.1)

IsDescending-reverse :
    (start : ℕ) (xs : List LogEntry) → IsConsecutive start xs → IsDescending (reverse xs)
IsDescending-reverse start [] c = tt
IsDescending-reverse start (x ∷ xs) c = rw reverse-cons (
    IsDescending-snoc (reverse xs) x (IsDescending-reverse (suc start) xs c.1)
      (All-reverse (AtLeast x.seq) xs (All-AtLeast (suc start) x.seq xs (omega (arith, c.0)) c.1)))

module _ (upper lower : String → String) (query : Query) (b : LogBuffer) (i : IsNumbered b) where
  -- In a buffer with consecutive numbers a poll returns the newest `max 1 limit` of the entries that
  -- are newer than `after_seq` and pass the filters, in the order of their numbers.
  pub items-list_entries :
      (list_entries upper lower query b).items
      ≡ reverse (take (max 1 query.limit) (keep (is_asked upper lower query) (reverse b.items)))
  unfolding list_entries
  items-list_entries =
      let all : query.limit - 0 ≡ query.limit = omega arith in
      ap reverse (
        collect-take upper lower query (reverse b.items) 0
          (IsDescending-reverse (b.next_seq - length b.items) b.items i.consecutive)
        ∙ ap (λ n. take (max 1 n) (keep (is_asked upper lower query) (reverse b.items))) all)

-- Whether an entry of the number is there.
unfoldable pub has_seq : ℕ → List LogEntry → Bool
has_seq n [] = false
has_seq n (x ∷ xs) = x.seq == n || has_seq n xs

has_seq-after :
    (n start : ℕ) (xs : List LogEntry) → IsConsecutive start xs → n < start → has_seq n xs ≡ false
unfolding has_seq
has_seq-after n start [] c h = refl
has_seq-after n start (x ∷ xs) c h = ground (arith, has_seq-after n (suc start) xs c.1)

has_seq-within :
    (n start : ℕ) (xs : List LogEntry)
    → IsConsecutive start xs
    → start ≤ n
    → n < start + length xs
    → has_seq n xs ≡ true
unfolding has_seq
has_seq-within n start [] c h l = absurd (omega arith)
has_seq-within n start (x ∷ xs) c h l = elim (Bool-cases (start == n)) [
  | inl e ↦ let same : x.seq ≡ start = c.0 in ground arith
  | inr e ↦ ground (arith, has_seq-within n (suc start) xs c.1)
]

reset-items :
    (upper lower : String → String) (query : Query) (xs : List LogEntry) (start : ℕ)
    → IsConsecutive start xs
    → 0 < query.after_seq
    → query.after_seq + 1 < start + length xs
    → 0 < length xs
    → is_behind upper lower query xs ≡ not (has_seq (query.after_seq + 1) xs)
reset-items upper lower query [] start c a n l = absurd (omega arith)
reset-items upper lower query (x ∷ xs) start c a n l =
    elim (Bool-cases (leb start (query.after_seq + 1))) [
      | inl e ↦
          let there = has_seq-within (query.after_seq + 1) start (x ∷ xs) c (ground arith) n in
          rw (there, c.0) (ground arith)
      | inr e ↦
          let gone = has_seq-after (query.after_seq + 1) start (x ∷ xs) c (ground arith) in
          rw (gone, c.0) (ground arith)
    ]

-- In a buffer with consecutive numbers that is not empty, a client that has got an entry and not yet
-- the latest one is told to start anew just if the entry after its last one is no longer there.
pub reset_required-list_entries :
    (upper lower : String → String) (query : Query) (b : LogBuffer)
    → IsNumbered b
    → 0 < query.after_seq
    → query.after_seq + 1 < b.next_seq
    → 0 < length b.items
    → (list_entries upper lower query b).reset_required
      ≡ not (has_seq (query.after_seq + 1) b.items)
unfolding list_entries
reset_required-list_entries upper lower query b i a n l =
    reset-items upper lower query b.items (b.next_seq - length b.items) i.consecutive a
      (omega (arith, i.started)) l
