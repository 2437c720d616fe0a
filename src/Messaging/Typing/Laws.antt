-- ===== src/Messaging/Typing/Laws.antt =====
-- Which timers are pending after a notice.
use thunderchat_server.Base.{
  ℕ, suc, ◌<◌, ◌≡◌, refl, ap, ◌∙◌, true, not, some, List, [], ◌∷◌, ◌++◌, arith, filter, nat_eq, All,
  Option-cases, inl, inr,
}
use thunderchat_server.Base.JsMap.{get, delete, get-set_self}
use thunderchat_server.Connection.{Socket}
use thunderchat_server.Messaging.Typing.{
  Timer, Typing, tell, is_timer, remove_typing, init_typing, handle_typing,
}

-- The numbers of the pending timers have been given out.
abbrev pub IsFresh : Typing → Type 0
IsFresh t = All (λ (timer : Timer). timer.id < t.next_timer) t.pending

clear_above :
    (n : ℕ) (timers : List Timer)
    → All (λ (timer : Timer). timer.id < n) timers
    → filter (λ timer. not (is_timer n timer)) timers ≡ timers
clear_above n [] h = refl
clear_above n (x ∷ xs) h = ground (arith, clear_above n xs h.1)

filter-IsFresh :
    (n k : ℕ) (timers : List Timer)
    → All (λ (timer : Timer). timer.id < n) timers
    → All (λ (timer : Timer). timer.id < n) (filter (λ timer. not (is_timer k timer)) timers)
filter-IsFresh n k [] h = tt
filter-IsFresh n k (x ∷ xs) h = ground (arith, filter-IsFresh n k xs h.1)

All-weaken :
    (n : ℕ) (timers : List Timer)
    → All (λ (timer : Timer). timer.id < n) timers
    → All (λ (timer : Timer). timer.id < suc n) timers
All-weaken n [] h = tt
All-weaken n (x ∷ xs) h = (omega arith, All-weaken n xs h.1)

-- After a notice to a socket the sender's flag is the new timer, and the pending timers are that
-- one and those that were there without the sender's old one.
init_typing_lem :
    (u : ℕ) (s : Socket) (c : ℕ) (t : Typing)
    → let t' = init_typing u s c t in
      (get t'.flags u ≡ some t.next_timer)
      × (t'.next_timer ≡ suc t.next_timer)
      × (t'.pending
          ≡ record { id = t.next_timer; recipient = s; direct_chat_id = c }
            ∷ (remove_typing u t).pending)
unfolding init_typing remove_typing
init_typing_lem u s c t =
    ground
      (arith, get-set_self t.flags u t.next_timer, get-set_self (delete t.flags u) u t.next_timer)

remove_typing-IsFresh : (u : ℕ) (t : Typing) → IsFresh t → IsFresh (remove_typing u t)
unfolding remove_typing
remove_typing-IsFresh u t h = elim (Option-cases (get t.flags u)) [
  | inl e ↦ rw e h
  | inr (k, e) ↦ rw e (filter-IsFresh t.next_timer k t.pending h)
]

init_typing-IsFresh :
    (u : ℕ) (s : Socket) (c : ℕ) (t : Typing) → IsFresh t → IsFresh (init_typing u s c t)
unfolding remove_typing
init_typing-IsFresh u s c t h =
    let (_, next, pending) = init_typing_lem u s c t in
    rw (next, pending)
      (
        omega arith,
        All-weaken t.next_timer (remove_typing u t).pending (remove_typing-IsFresh u t h),
      )

-- A second notice drops the timer of the first.
remove-init :
    (u : ℕ) (s : Socket) (c : ℕ) (t : Typing)
    → IsFresh t
    → (remove_typing u (init_typing u s c t)).pending ≡ (remove_typing u t).pending
unfolding remove_typing
remove-init u s c t h =
    let (flag, _, pending) = init_typing_lem u s c t in
    rw (flag, pending)
      (ground
        (arith, clear_above t.next_timer (remove_typing u t).pending (remove_typing-IsFresh u t h)))

-- Where the numbers of the pending timers are below the next one, and a sender types to a receiver
-- with several sockets, the pending timers afterwards are one for the last socket and those that
-- were not of the sender before.
pub handle_typing-last :
    (u c : ℕ) (sockets : List Socket) (last : Socket) (t : Typing)
    → IsFresh t
    → (id : ℕ) × ((handle_typing u (sockets ++ last ∷ []) true c t).pending
        ≡ record { id = id; recipient = last; direct_chat_id = c } ∷ (remove_typing u t).pending)
unfolding handle_typing remove_typing
handle_typing-last u c [] last t h =
    (t.next_timer, (init_typing_lem u last c (tell last true c t)).2)
handle_typing-last u c (x ∷ xs) last t h =
    let told = tell x true c t in
    let (id, e) =
      handle_typing-last u c xs last (init_typing u x c told) (init_typing-IsFresh u x c told h) in
    (
      id,
      e
          ∙ ap (◌∷◌ (record { id = id; recipient = last; direct_chat_id = c }))
              (remove-init u x c told h),
    )
