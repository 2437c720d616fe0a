-- ===== src/Connection.antt =====
-- connection/user-connection.service.ts: which sockets each user has open, which direct chats each
-- user has opened, and the emissions to users. A socket is its id. An emission is a socket with
-- the event that it gets; rooms are the business of the socket server.
pub mod Sockets
pub mod History
pub mod Chatting
use thunderchat_server.Base.{
  ℕ, ◌+◌, String, Bool, true, false, not, Option, none, some, List, [], ◌∷◌, ◌++◌, map, ltb, ◌==◌,
  if◌then◌else◌, length, filter, includes, string_eq, nat_eq,
}
use thunderchat_server.Base.JsMap.{Map, get, set, delete}

abbrev pub Socket : Type 0
Socket = String

abbrev pub Clients : Type 0
Clients = Map ℕ (List Socket)

unfoldable pub get_connected_client : Clients → ℕ → Option (List Socket)
get_connected_client clients user_id = get clients user_id

-- The sockets of a user, none where the map has no entry.
abbrev or_empty {ℓ} : {A : Type ℓ} → Option (List A) → List A
or_empty none = []
or_empty (some xs) = xs

abbrev is_empty {ℓ} : {A : Type ℓ} → List A → Bool
is_empty [] = true
is_empty (x ∷ xs) = false

-- `currentClients && currentClients.length > 0`, else a fresh list.
abbrev with_client : Option (List Socket) → Socket → List Socket
with_client none client = client ∷ []
with_client (some current) client =
    if ltb 0 (length current) then current ++ client ∷ [] else client ∷ []

unfoldable pub add_connected_client : Clients → ℕ → Socket → Clients
unfolding get_connected_client
add_connected_client clients user_id client =
    set clients user_id (with_client (get_connected_client clients user_id) client)

unfoldable pub check_user_is_connected : Clients → ℕ → Bool
check_user_is_connected clients user_id = ltb 0 (length (or_empty (get clients user_id)))

-- `if (socketId)`: neither undefined nor the empty string.
abbrev truthy : Option String → Bool
truthy none = false
truthy (some s) = not (s == "")

abbrev without_socket : Option (List Socket) → Socket → Clients → ℕ → Clients
without_socket none socket_id clients user_id = clients
without_socket (some sockets) socket_id clients user_id =
    if ltb 0 (length sockets)
    then set clients user_id (filter (λ socket. not (socket == socket_id)) sockets)
    else clients

abbrev id_or_empty : Option String → String
id_or_empty none = ""
id_or_empty (some s) = s

unfoldable pub remove_connected_client : Clients → ℕ → Option Socket → Clients
unfolding get_connected_client
remove_connected_client clients user_id socket_id =
    if truthy socket_id
    then without_socket (get_connected_client clients user_id) (id_or_empty socket_id) clients
        user_id
    else delete clients user_id

pub data OnlineStatus : Type 0 where
  online offline : OnlineStatus

unfoldable pub get_user_online_status : Clients → ℕ → OnlineStatus
unfolding get_connected_client
get_user_online_status clients user_id =
    if ltb 0 (length (or_empty (get_connected_client clients user_id))) then online else offline

-- One event to each socket of a user.
unfoldable pub emit_to_user : {E : Type 0} → Clients → ℕ → E → List (Socket × E)
unfolding get_connected_client
emit_to_user clients user_id event =
    map (λ socket. (socket, event)) (or_empty (get_connected_client clients user_id))

-- How many users have a socket open.
unfoldable pub get_connected_clients_count_for_admin : Clients → ℕ
get_connected_clients_count_for_admin [] = 0
get_connected_clients_count_for_admin ((user_id, sockets) ∷ clients) =
    (if ltb 0 (length sockets) then 1 else 0) + get_connected_clients_count_for_admin clients

abbrev pub ChattingConnections : Type 0
ChattingConnections = Map ℕ (List ℕ)

-- The direct chats of one user with a chat added, if it is not among them.
abbrev with_chat : Option (List ℕ) → ℕ → List ℕ
with_chat none direct_chat_id = direct_chat_id ∷ []
with_chat (some connections) direct_chat_id =
    if not (includes connections direct_chat_id)
    then connections ++ direct_chat_id ∷ []
    else connections

unfoldable pub set_user_chatting_connection : ChattingConnections → ℕ → ℕ → ℕ → ChattingConnections
set_user_chatting_connection chats user_id other_user_id direct_chat_id =
    let own = set chats user_id (with_chat (get chats user_id) direct_chat_id) in
    set own other_user_id (with_chat (get own other_user_id) direct_chat_id)

unfoldable pub get_user_chatting_connection : ChattingConnections → ℕ → Option (List ℕ)
get_user_chatting_connection chats user_id = get chats user_id

-- `if (userId)`: an id that is given and is not 0.
abbrev delete_given : ChattingConnections → Option ℕ → ChattingConnections
delete_given chats none = chats
delete_given chats (some user_id) = if user_id == 0 then chats else delete chats user_id

unfoldable pub remove_chatting_connection :
    ChattingConnections → Option ℕ → Option ℕ → ChattingConnections
remove_chatting_connection chats user_id recipient_id =
    delete_given (delete_given chats user_id) recipient_id
