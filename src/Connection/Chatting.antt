-- ===== src/Connection/Chatting.antt =====
-- The direct chats that each user has opened.
use thunderchat_server.Base.{
  ℕ, ◌≡◌, ◌&&◌, ◌||◌, Option, none, some, List, [], ◌∷◌, arith, ◌==◌, if◌then◌else◌, includes,
  includes-append, includes-false-count, occurrences, count-append, nat_eq, nat_beq_iff, ◌≤◌,
  Bool-cases, inl, inr,
}
use thunderchat_server.Base.JsMap.{get, set, get-set}
use thunderchat_server.Connection.{
  ChattingConnections, or_empty, with_chat, set_user_chatting_connection,
}

abbrev pub chats_of : ChattingConnections → ℕ → List ℕ
chats_of chats user_id = or_empty (get chats user_id)

-- No user has a direct chat twice.
abbrev pub IsDuplicateFree : ChattingConnections → Type 0
IsDuplicateFree chats = (u d : ℕ) → occurrences d (chats_of chats u) ≤ 1

with_chat-includes :
    (o : Option (List ℕ)) (d e : ℕ)
    → includes (or_empty (some (with_chat o d))) e ≡ (d == e || includes (or_empty o) e)
with_chat-includes none d e = ground arith
with_chat-includes (some xs) d e = ground (arith, includes-append xs (d ∷ []) e, nat_beq_iff d e)

with_chat-occurrences :
    (o : Option (List ℕ)) (d e : ℕ)
    → occurrences e (or_empty o) ≤ 1
    → occurrences e (with_chat o d) ≤ 1
with_chat-occurrences none d e h = ground arith
with_chat-occurrences (some xs) d e h =
    ground
      (arith, count-append (λ x. x == e) xs (d ∷ []), includes-false-count xs d, nat_beq_iff d e)

chats_of-add :
    (m : ChattingConnections) (u v d : ℕ)
    → chats_of (set m u (with_chat (get m u) d)) v
      ≡ (if u == v then with_chat (get m u) d else chats_of m v)
chats_of-add m u v d = ground (arith, get-set m u v (with_chat (get m u) d))

add-IsDuplicateFree :
    (m : ChattingConnections) (u d : ℕ)
    → IsDuplicateFree m
    → IsDuplicateFree (set m u (with_chat (get m u) d))
add-IsDuplicateFree m u d free v e = elim (Bool-cases (u == v)) [
  | inl same ↦ rw (chats_of-add m u v d, same) (with_chat-occurrences (get m u) d e (free u e))
  | inr other ↦ rw (chats_of-add m u v d, other) (free v e)
]

-- Joining a direct chat twice does not list it twice, for neither of its two users.
pub set_user_chatting_connection-IsDuplicateFree :
    (m : ChattingConnections) (u v d : ℕ)
    → IsDuplicateFree m
    → IsDuplicateFree (set_user_chatting_connection m u v d)
unfolding set_user_chatting_connection
set_user_chatting_connection-IsDuplicateFree m u v d free =
    add-IsDuplicateFree (set m u (with_chat (get m u) d)) v d (add-IsDuplicateFree m u d free)

add-includes :
    (m : ChattingConnections) (u v d e : ℕ)
    → includes (chats_of (set m u (with_chat (get m u) d)) v) e
      ≡ (u == v && d == e || includes (chats_of m v) e)
add-includes m u v d e = elim (Bool-cases (u == v)) [
  | inl same ↦
      ground (arith, chats_of-add m u v d, with_chat-includes (get m u) d e, nat_beq_iff u v)
  | inr other ↦ rw (chats_of-add m u v d, other)
]

-- After a user has joined a direct chat with another, the two have that chat beside those that
-- they had, and no third user's chats change.
pub set_user_chatting_connection-includes :
    (m : ChattingConnections) (u v w d e : ℕ)
    → includes (chats_of (set_user_chatting_connection m u v d) w) e
      ≡ ((u == w || v == w) && d == e || includes (chats_of m w) e)
unfolding set_user_chatting_connection
set_user_chatting_connection-includes m u v w d e =
    ground (arith, add-includes (set m u (with_chat (get m u) d)) v w d e, add-includes m u w d e)
