-- ===== src/Tests/Connections.antt =====
-- Sockets, chats that are open, tokens of messages and notices of typing.
use thunderchat_server.Base.{
  ℕ, ◌≡◌, refl, true, not, List, [], ◌∷◌, includes, arith, nat_eq, string_eq,
}
use thunderchat_server.Base.JsMap.{get}
use thunderchat_server.Connection.{ChattingConnections, Clients}
use thunderchat_server.Connection.Sockets.{sockets_of}
use thunderchat_server.Connection.History.{
  Event, connected, disconnected, clients_after, is_open, clients_after-is_open,
}
use thunderchat_server.Connection.Chatting.{IsDuplicateFree}
use thunderchat_server.Messaging.Tokens.{is_unique_token, new_tokens}
use thunderchat_server.Messaging.Presence.{Presence}
use thunderchat_server.Messaging.Tokens.Replay.{
  TokenEvent, checked, expired, tokens_after, is_used, is_unique_token-is_used,
}
use thunderchat_server.Messaging.Typing.{Typing, handle_typing, remove_typing}
use thunderchat_server.Messaging.Typing.Laws.{handle_typing-last}

-- User 1 opens two sockets and closes the first.
abbrev sockets : List Event
sockets = disconnected 1 "a" ∷ connected 1 "b" ∷ connected 1 "a" ∷ []

clients_after-is_open_example :
    includes (sockets_of (clients_after sockets) 1) "b" ≡ is_open sockets 1 "b"
clients_after-is_open_example = clients_after-is_open sockets 1 "b" (refl, (tt, (tt, tt)))

abbrev two_sockets : Clients
two_sockets = (1, "a" ∷ "b" ∷ []) ∷ []

abbrev open_chats : ChattingConnections
open_chats = (1, 7 ∷ []) ∷ []

no_chats-IsDuplicateFree : IsDuplicateFree []
unfolding get
no_chats-IsDuplicateFree u d = omega arith

abbrev tokens : List TokenEvent
tokens = checked 1 "y" ∷ expired 1 "x" ∷ checked 1 "x" ∷ []

is_unique_token-is_used_example :
    (is_unique_token 1 "y" (tokens_after tokens)).0 ≡ not (is_used tokens 1 "y")
is_unique_token-is_used_example = is_unique_token-is_used tokens 1 "y"

abbrev nobody_types : Typing
nobody_types = record { flags = []; pending = []; next_timer = 0; sent = [] }

handle_typing-last_example :
    (id : ℕ) × ((handle_typing 1 ("a" ∷ "b" ∷ []) true 7 nobody_types).pending
      ≡ record { id = id; recipient = "b"; direct_chat_id = 7 }
        ∷ (remove_typing 1 nobody_types).pending)
handle_typing-last_example = handle_typing-last 1 7 ("a" ∷ []) "b" nobody_types tt

-- User 1 has the sockets "a" and "b" open and has opened direct chat 7.
abbrev present : Presence
present = record {
  connected_clients = two_sockets;
  user_chatting_connections = open_chats;
  tokens = new_tokens;
  announced = [];
  greeted = [];
  closed = [];
}
