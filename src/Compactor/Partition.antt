-- ===== src/Compactor/Partition.antt =====
-- The turns into which `_identify_turns` cuts the messages.
use mathlib.Core.List.{append-nil, append_assoc}
use aca_bot.Prelude.{
  ℕ, suc, ◌+◌, ◌≡◌, refl, sym, ap, subst, false, some, List, [], ◌∷◌, ◌++◌, length, get_elem?,
  arith, str_eq, if-holds, All, All-append, ◌∙◌,
}
use aca_bot.Threads.Records.{Message}
use aca_bot.Compactor.Turns.{Turn, turns_from, identify_turns, range, ends}
use aca_bot.Compactor.Compact.{concat}

concat-append : (xs ys : List Turn) → concat (xs ++ ys) ≡ concat xs ++ concat ys
concat-append [] ys = refl
concat-append (x ∷ xs) ys =
    ap (λ l. x ++ l) (concat-append xs ys) ∙ sym (append_assoc x (concat xs) (concat ys))

concat-ends : (current : Turn) → concat (ends current) ≡ current
concat-ends [] = refl
concat-ends (i ∷ current) = append-nil (i ∷ current)

turns_from-concat :
    (messages : List Message) (index : ℕ) (current : Turn)
    → concat (turns_from index current messages) ≡ current ++ range index (length messages)
unfolding turns_from
turns_from-concat [] index current = concat-ends current ∙ sym (append-nil current)
turns_from-concat (message ∷ messages) index current =
    if-holds (λ turns. concat turns ≡ current ++ index ∷ range (suc index) (length messages))
      (str_eq message.role "user")
      (λ _.
        concat-append (ends current) _
        ∙ rw (concat-ends, turns_from-concat messages (suc index) (index ∷ [])) refl)
      (λ _.
        turns_from-concat messages (suc index) (current ++ index ∷ [])
        ∙ append_assoc current (index ∷ []) (range (suc index) (length messages)))

-- The turns in order are the indexes of the messages in order: each is in exactly one turn.
pub identify_turns-concat :
    (messages : List Message) → concat (identify_turns messages) ≡ range 0 (length messages)
unfolding identify_turns
identify_turns-concat messages = turns_from-concat messages 0 []

-- The message at the index, if there is one, is not a user's.
abbrev pub IsReply : List Message → ℕ → Type 0
IsReply messages i =
    (message : Message) → get_elem? messages i ≡ some message → str_eq message.role "user" ≡ false

-- A turn has a first message, and no other one of it is a user's.
abbrev pub IsTurn : List Message → Turn → Type 0
IsTurn messages [] = ⊥
IsTurn messages (i ∷ turn) = All (IsReply messages) turn

abbrev IsOpen : List Message → Turn → Type 0
IsOpen messages [] = Unit
IsOpen messages (i ∷ turn) = All (IsReply messages) turn

IsTurn-ends :
    (all : List Message) (current : Turn) → IsOpen all current → All (IsTurn all) (ends current)
IsTurn-ends all [] h = tt
IsTurn-ends all (i ∷ current) h = (h, tt)

extend :
    (all : List Message) (i : ℕ) (current : Turn)
    → IsReply all i
    → IsOpen all current
    → IsOpen all (current ++ i ∷ [])
extend all i [] r h = tt
extend all i (j ∷ current) r h = All-append (IsReply all) current (i ∷ []) h (r, tt)

turns_from-IsTurn :
    (all messages : List Message) (index : ℕ) (current : Turn)
    → ((j : ℕ) (m : Message) → get_elem? messages j ≡ some m → get_elem? all (index + j) ≡ some m)
    → IsOpen all current
    → All (IsTurn all) (turns_from index current messages)
unfolding turns_from
turns_from-IsTurn all [] index current at h = IsTurn-ends all current h
turns_from-IsTurn all (message ∷ messages) index current at h =
    let later : (j : ℕ) (m : Message)
        → get_elem? messages j ≡ some m
        → get_elem? all (suc index + j) ≡ some m =
      λ j m e. subst (λ n. get_elem? all n ≡ some m) (omega arith) (at (suc j) m e) in
    let here : get_elem? all index ≡ some message =
      subst (λ n. get_elem? all n ≡ some message) (omega arith) (at 0 message refl) in
    if-holds (All (IsTurn all)) (str_eq message.role "user")
      (λ _.
        All-append (IsTurn all) (ends current) _ (IsTurn-ends all current h)
          (turns_from-IsTurn all messages (suc index) (index ∷ []) later tt))
      (λ e.
        turns_from-IsTurn all messages (suc index) (current ++ index ∷ []) later (
          extend all index current (λ m p. let same : message ≡ m = cc (here, p) in rw same at e)
            h))

-- No turn is empty, and a user's message is always the first of its turn.
pub identify_turns-IsTurn :
    (messages : List Message) → All (IsTurn messages) (identify_turns messages)
unfolding identify_turns
identify_turns-IsTurn messages =
    turns_from-IsTurn messages messages 0 []
      (λ j m e. subst (λ n. get_elem? messages n ≡ some m) (omega arith) e) tt
