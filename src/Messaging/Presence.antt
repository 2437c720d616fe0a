-- ===== src/Messaging/Presence.antt =====
-- messaging/messaging.gateway.ts: who comes and goes. The user that the handshake of a socket names
-- is an argument (`none` where the validation of the handshake throws). What a socket is sent when it
-- recovers missed messages is left out; rooms are the business of the socket server.
pub mod Laws
use thunderchat_server.Base.{
  ℕ, String, Bool, true, false, not, ◌&&◌, Option, none, some, List, [], ◌∷◌, ◌==◌, if◌then◌else◌,
  nat_eq,
}
use thunderchat_server.Base.Action.{
  message_overlaps, GatewayMessage, gateway_message, GroupMemberMessage, group_member_message,
  bad_gateway, ws, Result, ok, err, Action,
}
use thunderchat_server.Connection.{
  Clients, ChattingConnections, Socket, OnlineStatus, online, offline, add_connected_client,
  remove_connected_client, remove_chatting_connection, set_user_chatting_connection,
  get_user_online_status,
}
use thunderchat_server.Messaging.Tokens.{MessageTokens, is_unique_token, remove_all_tokens}
use thunderchat_server.Messages.{DirectChat}
use thunderchat_server.Group.{Member, Permission, GroupDb, GroupClients}
use thunderchat_server.Group.Members.{find_member_in_group_chat}
use thunderchat_server.Group.Chats.{check_group_chat_permission, is_admin}

-- `announced` is what every client is told of the users, the latest first; `closed` and `greeted` are
-- the sockets that the server has closed or greeted.
pub record Presence : Type 0 where
  pub connected_clients : Clients
  pub user_chatting_connections : ChattingConnections
  pub tokens : MessageTokens
  pub announced : List (ℕ × OnlineStatus)
  pub greeted : List Socket
  pub closed : List Socket

unfoldable pub broadcast_user_online_status : ℕ → OnlineStatus → Presence → Presence
broadcast_user_online_status user_id status p = record p {
  announced = (user_id, status) ∷ p.announced;
}

unfoldable pub handle_connection : Socket → Option ℕ → Presence → Presence
unfolding broadcast_user_online_status
handle_connection client none p = record p { closed = client ∷ p.closed }
handle_connection client (some client_id) p =
    let added = record p {
      connected_clients = add_connected_client p.connected_clients client_id client;
    } in
    let told = broadcast_user_online_status client_id online added in
    record told { greeted = client ∷ told.greeted }

abbrev leave : ℕ → Socket → Presence → Presence
unfolding broadcast_user_online_status
leave user_id client p =
    let removed = record p {
      connected_clients = remove_connected_client p.connected_clients user_id (some client);
    } in
    let told = broadcast_user_online_status user_id offline removed in
    record told {
      user_chatting_connections =
          remove_chatting_connection told.user_chatting_connections (some user_id) none;
      tokens = remove_all_tokens user_id told.tokens;
    }

-- `if (userId)`: a handshake that names a user, whose id is not 0.
unfoldable pub handle_disconnect : Socket → Option ℕ → Presence → Presence
unfolding broadcast_user_online_status
handle_disconnect client none p = p
handle_disconnect client (some user_id) p = if user_id == 0 then p else leave user_id client p

unfoldable pub check_unique_message : String → ℕ → Action Presence (Unit {0})
check_unique_message token client_id p =
    let (is_unique, tokens) = is_unique_token client_id token p.tokens in
    (if is_unique then ok tt else err (ws message_overlaps), record p { tokens = tokens })

unfoldable pub handle_check_user_online_status : ℕ → Presence → OnlineStatus
handle_check_user_online_status user_id p = get_user_online_status p.connected_clients user_id

-- `found` is the direct chat that the table has under the id.
unfoldable pub handle_join_direct_chat : ℕ → Option DirectChat → Presence → Presence
handle_join_direct_chat direct_chat_id none p = p
handle_join_direct_chat direct_chat_id (some chat) p = record p {
  user_chatting_connections =
      set_user_chatting_connection p.user_chatting_connections chat.creator_id chat.recipient_id
        direct_chat_id;
}

module _ (db : GroupClients) where
  abbrev check_permission : Bool → ℕ → Member → GroupDb → Result Member
  unfolding check_group_chat_permission
  check_permission is_pin_notice group_chat_id m s =
      if not (is_admin m.role)
        && not (
            check_group_chat_permission db group_chat_id
              (if is_pin_notice then Permission.pin_message else Permission.send_message) s)
      then err (
          bad_gateway (group_member_message GroupMemberMessage.user_has_no_permission_send_message))
      else ok m

  -- Of the type of the message only counts whether it is the notice of a pin.
  unfoldable pub check_can_send_message_in_group_chat : ℕ → Bool → ℕ → GroupDb → Result Member
  unfolding find_member_in_group_chat check_group_chat_permission
  check_can_send_message_in_group_chat client_id is_pin_notice group_chat_id s =
      elim (find_member_in_group_chat db group_chat_id client_id s) [
        | none ↦ err (bad_gateway (gateway_message GatewayMessage.user_not_in_group_chat))
        | some m ↦ check_permission is_pin_notice group_chat_id m s
      ]
