-- ===== src/Threads/Listing.antt =====
-- What a listing of the store-backed thread manager does to the objects that it has cached.
use aca_bot.Prelude.{
  String, ◌≡◌, refl, ap, subst, Bool, true, false, ◌||◌, none, some, List, [], ◌∷◌, map, arith,
  str_eq, eq_iff, eq_refl, lookup, values, lookup-insert, ◌⊎◌, Bool-cases, inl, inr, All, All-sort,
  All-lookup, IsDistinct, sort, place, ◌∙◌,
}
use aca_bot.Threads.Records.{ThreadRecord}
use aca_bot.Threads.Store.{Table, find_thread, list_rows, row_order}
use aca_bot.Threads.Backed
use aca_bot.Threads.Backed.{Backed, state_from_record, cache, cache_all, load}

-- Whether the list has a row of the thread.
abbrev has_row : String → List ThreadRecord → Bool
has_row k [] = false
has_row k (row ∷ rows) = str_eq row.thread_id k || has_row k rows

has_row-place :
    (k : String) (x : ThreadRecord) (rows : List ThreadRecord)
    → has_row k (place row_order x rows) ≡ has_row k (x ∷ rows)
unfolding place
has_row-place k x [] = refl
has_row-place k x (y ∷ rows) = elim (Bool-cases (row_order x y)) [
  | inl e ↦ rw (e, place) refl
  | inr e ↦ rw (e, place) (ground (arith, has_row-place k x rows))
]

has_row-sort :
    (k : String) (rows : List ThreadRecord) → has_row k (sort row_order rows) ≡ has_row k rows
unfolding sort
has_row-sort k [] = refl
has_row-sort k (x ∷ rows) =
    has_row-place k x (sort row_order rows)
    ∙ ap (λ c. str_eq x.thread_id k || c) (has_row-sort k rows)

-- Caching rows that agree with the table on `k` leaves the row's thread cached.
lookup-cache_all :
    (k : String) (row : ThreadRecord) (rows : List ThreadRecord) (b : Backed)
    → All (λ (r : ThreadRecord). r.thread_id ≡ k → r ≡ row) rows
    → (has_row k rows ≡ true) ⊎ (lookup k b.threads ≡ some (state_from_record row))
    → lookup k (cache_all (map state_from_record rows) b).threads ≡ some (state_from_record row)
unfolding cache_all cache state_from_record
lookup-cache_all k row [] b a (inr e) = e
lookup-cache_all k row [] b a (inl e) = absurd (ground arith)
lookup-cache_all k row (r ∷ rows) b a h =
    lookup-cache_all k row rows _ a.1 (elim (Bool-cases (str_eq r.thread_id k)) [
      | inl e ↦ inr (
          rw (lookup-insert, e)
            (ap (λ x. some (state_from_record x)) (a.0 ((eq_iff r.thread_id k).0 e))))
      | inr e ↦ elim h [ inl p ↦ inl (ground arith) | inr p ↦ inr (rw (lookup-insert, e) p) ]
    ])

-- The rows of the table have distinct keys, and each stands under its own id.
pub record IsTable (t : Table) : Type 0 where
  pub distinct : IsDistinct t
  pub keyed : (k : String) (row : ThreadRecord) → lookup k t ≡ some row → row.thread_id ≡ k

agrees :
    (k : String) (row : ThreadRecord) (t : Table) (rows : List ThreadRecord)
    → lookup k t ≡ some row
    → All (λ (r : ThreadRecord). lookup r.thread_id t ≡ some r) rows
    → All (λ (r : ThreadRecord). r.thread_id ≡ k → r ≡ row) rows
agrees k row t [] h a = tt
agrees k row t (r ∷ rows) h a = (λ e. cc (a.0, h, e), agrees k row t rows h a.1)

has_row-values :
    (k : String) (row : ThreadRecord) (t : Table)
    → ((j : String) (r : ThreadRecord) → lookup j t ≡ some r → r.thread_id ≡ j)
    → IsDistinct t
    → lookup k t ≡ some row
    → has_row k (values t) ≡ true
unfolding lookup
has_row-values k row [] keyed d h = cc
has_row-values k row ((j, r) ∷ t) keyed d h = elim (Bool-cases (str_eq j k)) [
  | inl e ↦ let own : r.thread_id ≡ j = keyed j r (rw (eq_refl j) refl) in rw (own, e) refl
  | inr e ↦
      let rest =
        has_row-values k row t
          (λ i q p. keyed i q (elim (Bool-cases (str_eq j i)) [
            | inl c ↦ absurd (
                let n : lookup i t ≡ none =
                  subst (λ (x : String). lookup x t ≡ none) ((eq_iff j i).0 c) d.0 in
                ground arith)
            | inr c ↦ rw c p
          ]))
          d.1 (rw e at h) in
      ground arith
]

-- After `list_threads` without a limit, `get` returns every thread of a table with distinct keys, each
-- row under its own id, as the table has it,
-- whatever the cache held for it before.
pub get-list_threads :
    (k : String) (row : ThreadRecord) (b : Backed)
    → IsTable b.store
    → find_thread k b.store ≡ some row
    → (Backed.get k (Backed.list_threads none b).1).0 ≡ some (state_from_record row)
unfolding Backed.list_threads list_rows find_thread Backed.get
get-list_threads k row b t h =
    let rows : List ThreadRecord = sort row_order (values b.store) in
    let there : has_row k rows ≡ true =
      has_row-sort k (values b.store) ∙ has_row-values k row b.store t.keyed t.distinct h in
    let own = agrees k row b.store rows h (
      All-sort row_order _ (values b.store)
        (All-lookup (λ (r : ThreadRecord). r.thread_id) b.store t.distinct t.keyed)) in
    rw (lookup-cache_all k row rows b own (inl there), Backed.get) refl
