-- ===== src/Logs/Numbers.antt =====
-- The numbers of the entries in the log buffer, and what a client may conclude from them.
use aca_bot.Prelude.{
  ℕ, zero, suc, ◌+◌, ◌-◌, ◌≤◌, ◌<◌, max, ◌≡◌, subst, List, [], ◌∷◌, ◌++◌, length, drop, arith,
  length-drop, length-append,
}
use aca_bot.Logs.Buffer.{LogEntry, LogBuffer, push, assign, append}

-- The entries have the numbers from `start` on.
abbrev pub IsConsecutive : ℕ → List LogEntry → Type 0
IsConsecutive start [] = Unit
IsConsecutive start (x ∷ xs) = (x.seq ≡ start) × IsConsecutive (suc start) xs

pub record IsNumbered (b : LogBuffer) : Type 0 where
  pub consecutive : IsConsecutive (b.next_seq - length b.items) b.items
  pub bounded : length b.items ≤ b.max_entries
  pub started : length b.items < b.next_seq

IsConsecutive-snoc :
    (start : ℕ) (xs : List LogEntry) (e : LogEntry)
    → IsConsecutive start xs
    → e.seq ≡ start + length xs
    → IsConsecutive start (xs ++ e ∷ [])
IsConsecutive-snoc start [] e c h = (omega arith, tt)
IsConsecutive-snoc start (x ∷ xs) e c h =
    (c.0, IsConsecutive-snoc (suc start) xs e c.1 (omega arith))

IsConsecutive-drop :
    (k start : ℕ) (xs : List LogEntry)
    → k ≤ length xs
    → IsConsecutive start xs
    → IsConsecutive (start + k) (drop k xs)
IsConsecutive-drop zero start xs h c =
    subst (λ n. IsConsecutive n xs) (let e : start ≡ start + 0 = omega arith in e) c
IsConsecutive-drop (suc k) start [] h c = tt
IsConsecutive-drop (suc k) start (x ∷ xs) h c =
    subst (λ n. IsConsecutive n (drop k xs))
      (let e : suc start + k ≡ start + suc k = omega arith in e)
      (IsConsecutive-drop k (suc start) xs (omega arith) c.1)

pub append-IsNumbered :
    (entry : LogEntry) (b : LogBuffer) → entry.seq ≡ 0 → IsNumbered b → IsNumbered (append entry b)
unfolding append push assign
append-IsNumbered entry b z i =
    let e : LogEntry = record entry { seq = b.next_seq } in
    let longer = b.items ++ e ∷ [] in
    let k = length longer - b.max_entries in
    let start = b.next_seq - length b.items in
    let n = length-append b.items (e ∷ []) in
    let m = length-drop k longer in
    let whole : IsConsecutive start longer =
      IsConsecutive-snoc start b.items e i.consecutive (omega (arith, i.started)) in
    let cut : IsConsecutive (start + k) (drop k longer) =
      IsConsecutive-drop k start longer (omega arith) whole in
    let next : max b.next_seq (b.next_seq + 1) ≡ suc b.next_seq = omega arith in
    let first : start + k ≡ suc b.next_seq - length (drop k longer) =
      omega (arith, i.started, i.bounded, n, m) in
    rw z (
      rw next (record {
        consecutive = subst (λ n. IsConsecutive n (drop k longer)) first cut;
        bounded = omega (arith, m);
        started = omega (arith, i.started, i.bounded, n, m);
      }))
