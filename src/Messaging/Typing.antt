-- ===== src/Messaging/Typing.antt =====
-- messaging/helpers/conversation-typing.helper.ts, with the loop of `handleTyping` in
-- messaging/messaging.gateway.ts: the notices that a user is typing. `setTimeout` gives each timer
-- a fresh number; a pending timer holds the socket and the direct chat of its callback.
pub mod Laws
use thunderchat_server.Base.{
  ℕ, suc, Bool, true, false, not, Option, none, some, List, [], ◌∷◌, ◌==◌, if◌then◌else◌, filter,
  is_some, nat_eq,
}
use thunderchat_server.Base.JsMap.{Map, get, set, delete}
use thunderchat_server.Connection.{Socket}

pub record Timer : Type 0 where
  pub id : ℕ
  pub recipient : Socket
  pub direct_chat_id : ℕ

-- `sent` holds what the sockets were told, the latest first: typing or not, in which chat.
pub record Typing : Type 0 where
  pub flags : Map ℕ ℕ
  pub pending : List Timer
  pub next_timer : ℕ
  pub sent : List (Socket × Bool × ℕ)

abbrev pub is_timer : ℕ → Timer → Bool
is_timer id timer = timer.id == id

-- `clearTimeout` of an undefined timer does nothing.
abbrev clear : Option ℕ → List Timer → List Timer
clear none pending = pending
clear (some id) pending = filter (λ timer. not (is_timer id timer)) pending

unfoldable pub remove_typing : ℕ → Typing → Typing
remove_typing sender_id t = record t {
  flags = delete t.flags sender_id;
  pending = clear (get t.flags sender_id) t.pending;
}

abbrev start : ℕ → Socket → ℕ → Typing → Typing
start sender_id recipient chat t = record t {
  flags = set t.flags sender_id t.next_timer;
  pending = record { id = t.next_timer; recipient = recipient; direct_chat_id = chat } ∷ t.pending;
  next_timer = suc t.next_timer;
}

unfoldable pub init_typing : ℕ → Socket → ℕ → Typing → Typing
unfolding remove_typing
init_typing sender_id recipient chat t =
    start sender_id recipient chat
      (if is_some (get t.flags sender_id) then remove_typing sender_id t else t)

abbrev tell : Socket → Bool → ℕ → Typing → Typing
tell socket is_typing chat t = record t { sent = (socket, is_typing, chat) ∷ t.sent }

-- The loop over the sockets of the receiver.
unfoldable pub handle_typing : ℕ → List Socket → Bool → ℕ → Typing → Typing
handle_typing sender_id [] is_typing chat t = t
handle_typing sender_id (socket ∷ sockets) is_typing chat t =
    handle_typing sender_id sockets is_typing chat (
      if is_typing
      then init_typing sender_id socket chat (tell socket is_typing chat t)
      else remove_typing sender_id (tell socket is_typing chat t))
