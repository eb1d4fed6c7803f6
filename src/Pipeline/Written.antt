-- ===== src/Pipeline/Written.antt =====
-- What the replies of a run leave in the threads.
use mathlib.Core.List.{append-nil, append_assoc}
use aca_bot.Prelude.{
  ℕ, String, Bool, true, false, Option, none, some, List, [], ◌∷◌, ◌++◌, ◌≡◌, refl, sym, subst, ◌∙◌,
  ap, arith, inl, inr, Bool-cases, Option-cases, if-holds, if◌then◌else◌, str_eq, eq_iff, eq_refl,
  ◌&&◌, lookup, insert, lookup-insert, is_some, All,
}
use aca_bot.Runs.Records.{contains}
use aca_bot.Threads.Records.{Message, ThreadState, is_text}
use aca_bot.Threads.Memory.{Threads, Touch, touched, created, get_or_create}
use aca_bot.Pipeline.Outbox.{OutboxItem}
use aca_bot.Pipeline.Replies.{message, append_message, append_to, destination, update_threads}

abbrev messages_in : Option ThreadState → List Message
messages_in none = []
messages_in (some thread) = thread.working_messages

-- The messages of a thread, none if it is not there.
abbrev pub messages_of : String → Threads → List Message
messages_of t m = messages_in (lookup t m)

-- The replies that go to a thread, in order; an item without content for its thread is left out.
abbrev pub replies_to : String → List OutboxItem → List Message
replies_to t [] = []
replies_to t (item ∷ items) =
    if is_text item.thread_content && str_eq item.destination_thread_id t
    then message "assistant" item.thread_content ∷ replies_to t items
    else replies_to t items

abbrev pub Present : String → Threads → Type 0
Present t m = is_some (lookup t m) ≡ true

is_some-insert :
    (j k : String) (v : ThreadState) (m : Threads) → Present k m → Present k (insert j v m)
is_some-insert j k v m h =
    rw lookup-insert
      (if-holds (λ (o : Option ThreadState). is_some o ≡ true) (str_eq j k) (λ e. refl) (λ e. h))

-- An insertion of a thread that stands there with the same messages keeps the messages of all.
messages_of-insert :
    (j t : String) (v : ThreadState) (m : Threads)
    → v.working_messages ≡ messages_of j m
    → messages_of t (insert j v m) ≡ messages_of t m
messages_of-insert j t v m h = rw lookup-insert (elim (Bool-cases (str_eq j t)) [
  | inl e ↦ rw e (h ∙ ap (λ (k : String). messages_of k m) ((eq_iff j t).0 e))
  | inr e ↦ rw e refl
])

module _ (now : ℕ) where
  append_to-messages :
      (d t : String) (new : Message) (m : Threads)
      → Present d m
      → messages_of t (append_to d new now m)
        ≡ (if str_eq d t then messages_of t m ++ new ∷ [] else messages_of t m)
  unfolding append_to
  append_to-messages d t new m h = elim (Option-cases (lookup d m)) [
    | inl e ↦ absurd (ground arith)
    | inr (thread, e) ↦
        rw (e, append_to, lookup-insert)
          (elim (Bool-cases (str_eq d t)) [
            | inl k ↦ rw k (
                ap (λ (l : List Message). l ++ new ∷ [])
                  (sym (
                    ap messages_in (ap (λ (j : String). lookup j m) (sym ((eq_iff d t).0 k)) ∙ e))))
            | inr k ↦ rw k refl
          ])
  ]

  append_to-Present :
      (d k : String) (new : Message) (m : Threads) → Present k m → Present k (append_to d new now m)
  unfolding append_to
  append_to-Present d k new m h = elim (Option-cases (lookup d m)) [
    | inl e ↦ rw (e, append_to) h
    | inr (thread, e) ↦ rw (e, append_to) (is_some-insert d k (append_message new now thread) m h)
  ]

get_or_create-messages :
    (o : Touch) (t : String) (m : Threads) → messages_of t (get_or_create o m).1 ≡ messages_of t m
unfolding get_or_create created touched
get_or_create-messages o t m = elim (Option-cases (lookup o.thread_id m)) [
  | inl e ↦
      rw (e, get_or_create)
        (messages_of-insert o.thread_id t (created o) m (sym (ap messages_in e)))
  | inr (thread, e) ↦
      rw (e, get_or_create)
        (messages_of-insert o.thread_id t (touched o thread) m (sym (ap messages_in e)))
]

get_or_create-new : (o : Touch) (m : Threads) → Present o.thread_id (get_or_create o m).1
unfolding get_or_create
get_or_create-new o m = elim (Option-cases (lookup o.thread_id m)) [
  | inl e ↦ rw (e, get_or_create, lookup-insert, eq_refl) refl
  | inr (thread, e) ↦ rw (e, get_or_create, lookup-insert, eq_refl) refl
]

get_or_create-Present :
    (o : Touch) (k : String) (m : Threads) → Present k m → Present k (get_or_create o m).1
unfolding get_or_create
get_or_create-Present o k m h = elim (Option-cases (lookup o.thread_id m)) [
  | inl e ↦ rw (e, get_or_create) (is_some-insert o.thread_id k (created o) m h)
  | inr (thread, e) ↦ rw (e, get_or_create) (is_some-insert o.thread_id k (touched o thread) m h)
]

All-contains :
    (P : String → Type 0) (l : List String) (k : String) → All P l → contains l k ≡ true → P k
unfolding contains
All-contains P [] k a h = absurd (ground arith)
All-contains P (j ∷ l) k a h = elim (Bool-cases (str_eq j k)) [
  | inl e ↦ subst P ((eq_iff j k).0 e) a.0
  | inr e ↦ All-contains P l k a.1 (rw e at h)
]

All-weaken :
    (P Q : String → Type 0) (l : List String) → ((k : String) → P k → Q k) → All P l → All Q l
All-weaken P Q [] f a = tt
All-weaken P Q (j ∷ l) f a = (f j a.0, All-weaken P Q l f a.1)

module _ (item : OutboxItem) (now : ℕ) (seen : List String) (m : Threads) where
  abbrev pub touch : Touch
  touch = record {
    thread_id = item.destination_thread_id;
    channel_scope = item.destination_conversation_id;
    thread_kind = "channel";
    last_event_at = now;
  }

  destination-messages :
      (t : String) → messages_of t (destination item now seen m) ≡ messages_of t m
  unfolding destination
  destination-messages t =
      if-holds (λ (n : Threads). messages_of t n ≡ messages_of t m)
        (contains seen item.destination_thread_id) (λ e. refl)
        (λ e. get_or_create-messages touch t m)

  destination-Present : (k : String) → Present k m → Present k (destination item now seen m)
  unfolding destination
  destination-Present k h =
      if-holds (Present k) (contains seen item.destination_thread_id) (λ e. h)
        (λ e. get_or_create-Present touch k m h)

  destination-new :
      All (λ k. Present k m) seen → Present item.destination_thread_id (destination item now seen m)
  unfolding destination
  destination-new a =
      if-holds (Present item.destination_thread_id) (contains seen item.destination_thread_id)
        (All-contains (λ k. Present k m) seen item.destination_thread_id a)
        (λ e. get_or_create-new touch m)

reply_in_place :
    (b : Bool) (xs ys zs rest : List Message) (reply : Message)
    → zs ≡ (if b then ys ++ reply ∷ [] else ys)
    → ys ≡ xs
    → zs ++ rest ≡ xs ++ (if b then reply ∷ rest else rest)
reply_in_place true xs ys zs rest reply h k =
    ap (λ (l : List Message). l ++ rest) (h ∙ ap (λ (l : List Message). l ++ reply ∷ []) k)
    ∙ append_assoc xs (reply ∷ []) rest
reply_in_place false xs ys zs rest reply h k = ap (λ (l : List Message). l ++ rest) (h ∙ k)

module _ (now : ℕ) where
  pub update_threads-messages :
      (t : String) (items : List OutboxItem) (seen : List String) (m : Threads)
      → All (λ k. Present k m) seen
      → messages_of t (update_threads now items seen m) ≡ messages_of t m ++ replies_to t items
  unfolding update_threads
  update_threads-messages t [] seen m a = sym (append-nil (messages_of t m))
  update_threads-messages t (item ∷ items) seen m a =
      elim (Bool-cases (is_text item.thread_content)) [
        | inr e ↦ rw e (update_threads-messages t items seen m a)
        | inl e ↦
            let d = item.destination_thread_id in
            let reply = message "assistant" item.thread_content in
            let there = destination item now seen m in
            let new : Present d there = destination-new item now seen m a in
            let kept : All (λ k. Present k (append_to d reply now there)) (d ∷ seen) = (
              append_to-Present now d d reply there new,
              All-weaken (λ k. Present k m) (λ k. Present k (append_to d reply now there)) seen
                  (λ k h.
                    append_to-Present now d k reply there (destination-Present item now seen m k h))
                  a,
            ) in
            let rest =
              update_threads-messages t items (d ∷ seen) (append_to d reply now there) kept in
            let here = append_to-messages now d t reply there new in
            let same = destination-messages item now seen m t in
            rw e (rest ∙ reply_in_place (str_eq d t) _ _ _ (replies_to t items) reply here same)
      ]
