-- ===== src/Pipeline/Left.antt =====
-- What the replies of a run leave of a thread besides its messages.
use aca_bot.Prelude.{
  ℕ, String, true, false, Option, none, some, List, [], ◌∷◌, ◌++◌, ◌≡◌, refl, subst, ◌∙◌, arith,
  inl, inr, Bool-cases, Option-cases, if-holds, str_eq, eq_iff, lookup, insert, lookup-insert,
  is_some,
}
use aca_bot.Runs.Records.{contains}
use aca_bot.Threads.Records.{Message, ThreadState, is_text}
use aca_bot.Threads.Memory.{Threads, Touch, touched, created, get_or_create}
use aca_bot.Pipeline.Outbox.{OutboxItem}
use aca_bot.Pipeline.Replies.{
  message, append_message, append_to, destination, update_threads, update_thread_after_send,
}
use aca_bot.Pipeline.Written.{messages_of, replies_to, update_threads-messages, touch}

-- A thread that was there is still there, with its id, summary and metadata.
abbrev pub Kept : Option ThreadState → Option ThreadState → Type 0
Kept none after = Unit
Kept (some a) none = ⊥
Kept (some a) (some b) =
    (b.thread_id ≡ a.thread_id)
    × (b.working_summary ≡ a.working_summary)
    × (b.metadata ≡ a.metadata)

-- Without a reply nothing changed.
abbrev pub IsLeft : List Message → Option ThreadState → Option ThreadState → Type 0
IsLeft [] before after = after ≡ before
IsLeft (reply ∷ replies) before after = Kept before after

Kept-refl : (o : Option ThreadState) → Kept o o
Kept-refl none = tt
Kept-refl (some a) = (refl, refl, refl)

Kept-trans : (o p q : Option ThreadState) → Kept o p → Kept p q → Kept o q
Kept-trans none p q h k = tt
Kept-trans (some a) none q h k = absurd h
Kept-trans (some a) (some b) none h k = absurd k
Kept-trans (some a) (some b) (some c) h k = (k.0 ∙ h.0, k.1 ∙ h.1, k.2 ∙ h.2)

Kept-insert :
    (d t : String) (v : ThreadState) (m : Threads)
    → Kept (lookup d m) (some v)
    → Kept (lookup t m) (lookup t (insert d v m))
Kept-insert d t v m h = rw lookup-insert (elim (Bool-cases (str_eq d t)) [
  | inl e ↦ rw e (subst (λ (j : String). Kept (lookup j m) (some v)) ((eq_iff d t).0 e) h)
  | inr e ↦ rw e (Kept-refl (lookup t m))
])

-- An insertion under another id.
lookup-insert_other :
    (d t : String) (v : ThreadState) (m : Threads)
    → str_eq d t ≡ false
    → lookup t (insert d v m) ≡ lookup t m
lookup-insert_other d t v m e = rw (lookup-insert, e) refl

module _ (d t : String) (new : Message) (now : ℕ) (m : Threads) where
  append_to-Kept : Kept (lookup t m) (lookup t (append_to d new now m))
  unfolding append_to
  append_to-Kept = elim (Option-cases (lookup d m)) [
    | inl e ↦ rw (e, append_to) (Kept-refl (lookup t m))
    | inr (thread, e) ↦
        rw (e, append_to)
          (Kept-insert d t (append_message new now thread) m (rw e (refl, refl, refl)))
  ]

  append_to-other : str_eq d t ≡ false → lookup t (append_to d new now m) ≡ lookup t m
  unfolding append_to
  append_to-other q = elim (Option-cases (lookup d m)) [
    | inl e ↦ rw (e, append_to) refl
    | inr (thread, e) ↦
        rw (e, append_to) (lookup-insert_other d t (append_message new now thread) m q)
  ]

module _ (o : Touch) (t : String) (m : Threads) where
  get_or_create-Kept : Kept (lookup t m) (lookup t (get_or_create o m).1)
  unfolding get_or_create created touched
  get_or_create-Kept = elim (Option-cases (lookup o.thread_id m)) [
    | inl e ↦ rw (e, get_or_create) (Kept-insert o.thread_id t (created o) m (rw e tt))
    | inr (thread, e) ↦
        rw (e, get_or_create)
          (Kept-insert o.thread_id t (touched o thread) m (rw e (refl, refl, refl)))
  ]

  get_or_create-other : str_eq o.thread_id t ≡ false → lookup t (get_or_create o m).1 ≡ lookup t m
  unfolding get_or_create
  get_or_create-other q = elim (Option-cases (lookup o.thread_id m)) [
    | inl e ↦ rw (e, get_or_create) (lookup-insert_other o.thread_id t (created o) m q)
    | inr (thread, e) ↦
        rw (e, get_or_create) (lookup-insert_other o.thread_id t (touched o thread) m q)
  ]

module _ (item : OutboxItem) (now : ℕ) (seen : List String) (t : String) (m : Threads) where
  destination-Kept : Kept (lookup t m) (lookup t (destination item now seen m))
  unfolding destination
  destination-Kept =
      if-holds (λ (n : Threads). Kept (lookup t m) (lookup t n))
        (contains seen item.destination_thread_id) (λ e. Kept-refl (lookup t m))
        (λ e. get_or_create-Kept (touch item now seen m) t m)

  destination-other :
      str_eq item.destination_thread_id t ≡ false
      → lookup t (destination item now seen m) ≡ lookup t m
  unfolding destination
  destination-other q =
      if-holds (λ (n : Threads). lookup t n ≡ lookup t m) (contains seen item.destination_thread_id)
        (λ e. refl) (λ e. get_or_create-other (touch item now seen m) t m q)

module _ (now : ℕ) (t : String) where
  update_threads-Kept :
      (items : List OutboxItem) (seen : List String) (m : Threads)
      → Kept (lookup t m) (lookup t (update_threads now items seen m))
  unfolding update_threads
  update_threads-Kept [] seen m = Kept-refl (lookup t m)
  update_threads-Kept (item ∷ items) seen m = elim (Bool-cases (is_text item.thread_content)) [
    | inr e ↦ rw e (update_threads-Kept items seen m)
    | inl e ↦
        let d = item.destination_thread_id in
        let reply = message "assistant" item.thread_content in
        let there = destination item now seen m in
        let written = append_to d reply now there in
        rw e (
          Kept-trans (lookup t m) (lookup t there) _ (destination-Kept item now seen t m) (
            Kept-trans (lookup t there) (lookup t written) _ (append_to-Kept d t reply now there)
              (update_threads-Kept items (d ∷ seen) written)))
  ]

  update_threads-none :
      (items : List OutboxItem) (seen : List String) (m : Threads)
      → replies_to t items ≡ []
      → lookup t (update_threads now items seen m) ≡ lookup t m
  unfolding update_threads
  update_threads-none [] seen m h = refl
  update_threads-none (item ∷ items) seen m h = elim (Bool-cases (is_text item.thread_content)) [
    | inr e ↦ rw e (update_threads-none items seen m (rw e at h))
    | inl e ↦
        let d = item.destination_thread_id in
        let there = destination item now seen m in
        let written = append_to d (message "assistant" item.thread_content) now there in
        elim (Bool-cases (str_eq d t)) [
          | inl q ↦ absurd (ground arith)
          | inr q ↦ rw e (
              update_threads-none items (d ∷ seen) written (ground arith)
              ∙ (append_to-other d t _ now there q ∙ destination-other item now seen t m q))
        ]
  ]

  update_threads-IsLeft :
      (items : List OutboxItem) (seen : List String) (m : Threads)
      → IsLeft (replies_to t items) (lookup t m) (lookup t (update_threads now items seen m))
  update_threads-IsLeft items seen m = go (replies_to t items) refl
    where
      go :
          (replies : List Message)
          → replies_to t items ≡ replies
          → IsLeft replies (lookup t m) (lookup t (update_threads now items seen m))
      go [] e = update_threads-none items seen m e
      go (reply ∷ replies) e = update_threads-Kept items seen m

module _ (now : ℕ) where
  -- If the thread of the run is there, every thread ends with the replies that were delivered to it
  -- and have content for it, in order. A thread without a reply is as before, and one with replies
  -- that was there keeps its id, summary and metadata.
  pub update_thread_after_send-messages :
      (thread_id t : String) (items : List OutboxItem) (m : Threads)
      → is_some (lookup thread_id m) ≡ true
      → (messages_of t (update_thread_after_send thread_id now items m)
          ≡ messages_of t m ++ replies_to t items)
        × IsLeft
            (replies_to t items)
            (lookup t m)
            (lookup t (update_thread_after_send thread_id now items m))
  unfolding update_thread_after_send
  update_thread_after_send-messages thread_id t items m h = (
    update_threads-messages now t items (thread_id ∷ []) m (h, tt),
    update_threads-IsLeft now t items (thread_id ∷ []) m,
  )
