-- ===== src/Messaging/Sending.antt =====
-- messaging/messaging.gateway.ts: sending a message to a user or to a group chat, with
-- `createNewMessage` of message/message.service.ts. The id of the client is the one that the
-- validation of the handshake gives; `parse_int` is that of JavaScript, `none` where it gives NaN,
-- which the client of the table rejects. The times of messages are left out.
pub mod Direct
pub mod Groups
pub mod Laws
use thunderchat_server.Base.{
  ℕ, String, Bool, true, false, not, ◌||◌, Option, none, some, List, [], ◌∷◌, ◌==◌, if◌then◌else◌,
  is_some, nat_eq, string_eq, filter,
}
use thunderchat_server.Base.JsMap.{Map, get}
use thunderchat_server.Base.Action.{
  message_overlaps, GatewayMessage, gateway_message, ws, db_error, Result, ok, err, Action, pure,
  throw, gets, modify, query, throw_if, ◌>>=◌, ◌>>◌,
}
use thunderchat_server.Connection.{get_connected_client}
use thunderchat_server.Friend.{FriendDb, FriendClients, same_user}
use thunderchat_server.Friend.MaySend.{check_can_send_message_in_direct_chat}
use thunderchat_server.Group.{Member, GroupClients, GroupChat}
use thunderchat_server.Group.Members.{find_group_chat_member_ids}
use thunderchat_server.Messages.{
  MessageType, sent, Media, ChatMessage, ChatDb, ChatClients, ChatEvent, DirectChat, emit,
  index_created, send_message_group, send_to_socket, new_conversation,
}
use thunderchat_server.Messages.DirectChats.{
  find_conversation_with_other_user, create_new_direct_chat, update_last_sent_message,
}
use thunderchat_server.Messages.Recall.{given}
use thunderchat_server.Messaging.Tokens.{MessageTokens, is_unique_token}
use thunderchat_server.Messaging.Presence.{check_can_send_message_in_group_chat}
use thunderchat_server.Messaging.Drafts.{
  Draft, Payload, create_message_content_for_media, draft_of, is_pin_notice, new_message,
}

-- `pushes` are the users who were sent a push notification, the latest first, with the message.
pub record SendingDb : Type 0 where
  pub chat : ChatDb
  pub friend : FriendDb
  pub tokens : MessageTokens
  pub media_rows : Map ℕ Media
  pub pushes : List (ℕ × ChatMessage)

abbrev pub on_chat : {A : Type 0} → Action ChatDb A → Action SendingDb A
on_chat f s = let (r, c) = f s.chat in (r, record s { chat = c })

abbrev pub answered : {A : Type 0} → (SendingDb → Result A) → Action SendingDb A
answered f s = (f s, s)

unfoldable pub check_unique_token : String → ℕ → Action SendingDb (Unit {0})
check_unique_token token client_id s =
    let (is_unique, tokens) = is_unique_token client_id token s.tokens in
    (if is_unique then ok tt else err (ws message_overlaps), record s { tokens = tokens })

abbrev push_each : List ℕ → ChatMessage → List (ℕ × ChatMessage) → List (ℕ × ChatMessage)
push_each [] m pushes = pushes
push_each (id ∷ ids) m pushes = push_each ids m ((id, m) ∷ pushes)

unfoldable pub handle_send_push_notification : ChatMessage → List ℕ → SendingDb → SendingDb
handle_send_push_notification m receiver_ids s = record s {
  pushes = push_each receiver_ids m s.pushes;
}

abbrev tell_conversation :
    String → Bool → DirectChat → ChatMessage → List ChatEvent → List ChatEvent
tell_conversation socket is_new c m events =
    if is_new then new_conversation socket c m ∷ events else events

abbrev pub to_sockets :
    List String → Bool → DirectChat → ChatMessage → List ChatEvent → List ChatEvent
to_sockets [] is_new c m events = events
to_sockets (socket ∷ sockets) is_new c m events =
    to_sockets sockets is_new c m
      (tell_conversation socket is_new c m (send_to_socket socket m ∷ events))

abbrev pub to_recipient :
    Option (List String) → Bool → DirectChat → ChatMessage → List ChatEvent → List ChatEvent
to_recipient none is_new c m events = events
to_recipient (some sockets) is_new c m events = to_sockets sockets is_new c m events

unfoldable pub send_new_message_to_recipient : ℕ → ChatMessage → Bool → DirectChat → ChatDb → ChatDb
unfolding get_connected_client
send_new_message_to_recipient recipient_id m is_new c s = record s {
  events = to_recipient (get_connected_client s.clients recipient_id) is_new c m s.events;
}

unfoldable pub emit_new_direct_message :
    String → ℕ → ChatMessage → Bool → DirectChat → SendingDb → SendingDb
unfolding send_new_message_to_recipient handle_send_push_notification
emit_new_direct_message socket receiver_id m is_new c s =
    let own = emit (send_to_socket socket m) s.chat in
    let told = send_new_message_to_recipient receiver_id m is_new c own in
    let also = record told { events = tell_conversation socket is_new c m told.events } in
    handle_send_push_notification m (receiver_id ∷ []) (record s { chat = also })

module _ (db : ChatClients) (friends : FriendClients) (parse_int : String → Option ℕ) where
  open db use {message, group_clients}

  unfoldable pub create_new_message : Draft → ℕ → Action SendingDb ChatMessage
  unfolding create_message_content_for_media
  create_new_message d author_id = do
    m ← query λ s. elim (message.create (new_message d author_id s.media_rows) s.chat.messages) [
      | none ↦ none
      | some (m, ms) ↦ some (m, record s { chat = record s.chat { messages = ms } })
    ]
    modify λ s. record s { chat = emit (index_created m) s.chat }
    pure m

  abbrev pub in_group : Option ℕ → Draft → ℕ → Action SendingDb ChatMessage
  unfolding create_new_message
  in_group none d client_id = throw (ws (gateway_message GatewayMessage.invalid_message_type))
  in_group (some group_id) d client_id =
      create_new_message (record d { direct_chat_id = none; receiver_id = none }) client_id

  abbrev pub in_direct : Option ℕ → Option ℕ → Draft → ℕ → Action SendingDb ChatMessage
  unfolding create_new_message update_last_sent_message
  in_direct (some direct_chat_id) (some receiver_id) d client_id = do
    m ← create_new_message (record d { group_id = none }) client_id
    on_chat (update_last_sent_message db direct_chat_id m.id)
    pure m
  in_direct _ _ d client_id = in_group (given d.group_id) d client_id

  unfoldable pub handle_message : ℕ → Draft → Action SendingDb ChatMessage
  unfolding create_new_message update_last_sent_message
  handle_message client_id d = in_direct (given d.direct_chat_id) (given d.receiver_id) d client_id

  abbrev chat_or_new : Option DirectChat → ℕ → ℕ → Action SendingDb (DirectChat × Bool)
  unfolding create_new_direct_chat
  chat_or_new (some c) creator_id recipient_id = pure (c, false)
  chat_or_new none creator_id recipient_id = do
    c ← on_chat (create_new_direct_chat db creator_id recipient_id)
    pure (c, true)

  unfoldable pub handle_direct_chat_not_exists : ℕ → ℕ → Action SendingDb (DirectChat × Bool)
  unfolding find_conversation_with_other_user create_new_direct_chat
  handle_direct_chat_not_exists creator_id recipient_id = do
    found ← gets (λ s. find_conversation_with_other_user db creator_id recipient_id s.chat)
    chat_or_new found creator_id recipient_id

  abbrev pub deliver : String → ℕ → ℕ → DirectChat → Bool → Draft → Action SendingDb ChatMessage
  unfolding handle_message emit_new_direct_message
  deliver socket client_id receiver_id c is_new d = do
    m ←
        handle_message client_id
          (record d { direct_chat_id = some c.id; receiver_id = some receiver_id })
    modify (emit_new_direct_message socket receiver_id m is_new c)
    pure m

  -- What is left to do in the chat of the two.
  abbrev pub send_in_chat :
      String → ℕ → ℕ → Payload → DirectChat × Bool → Action SendingDb ChatMessage
  unfolding draft_of handle_message emit_new_direct_message
  send_in_chat socket client_id receiver_id p (c, is_new) = do
    sender ← gets (λ s. friends.user.find_first (same_user client_id) s.friend.users)
    throw_if (not (is_some sender)) (ws (gateway_message GatewayMessage.sender_not_found))
    d ← answered (λ s. draft_of parse_int p)
    deliver socket client_id receiver_id c is_new d

  abbrev pub send_to_user : String → ℕ → ℕ → Payload → Action SendingDb ChatMessage
  unfolding handle_direct_chat_not_exists draft_of handle_message emit_new_direct_message
  send_to_user socket client_id receiver_id p = do
    chat ← handle_direct_chat_not_exists client_id receiver_id
    send_in_chat socket client_id receiver_id p chat

  unfoldable pub handle_send_direct_message :
      String → ℕ → ℕ → Payload → Action SendingDb ChatMessage
  unfolding check_can_send_message_in_direct_chat check_unique_token handle_direct_chat_not_exists
      draft_of handle_message emit_new_direct_message
  handle_send_direct_message socket client_id receiver_id p = do
    answered (λ s. check_can_send_message_in_direct_chat friends client_id receiver_id s.friend)
    check_unique_token p.token client_id
    send_to_user socket client_id receiver_id p

  unfoldable pub emit_new_group_message : ℕ → ℕ → ChatMessage → SendingDb → SendingDb
  unfolding find_group_chat_member_ids handle_send_push_notification
  emit_new_group_message group_chat_id sender_id m s =
      let told = record s { chat = emit (send_message_group group_chat_id m) s.chat } in
      let ids = find_group_chat_member_ids group_clients group_chat_id told.chat.group in
      handle_send_push_notification m (filter (λ id. not (id == sender_id)) ids) told

  abbrev pub send_in_group : ℕ → ℕ → Payload → Member → Action SendingDb ChatMessage
  unfolding draft_of handle_message emit_new_group_message
  send_in_group client_id group_chat_id p member = do
    d ← answered (λ s. draft_of parse_int p)
    m ← handle_message client_id (record d { group_id = some group_chat_id })
    modify (emit_new_group_message group_chat_id member.user_id m)
    pure m

  abbrev pub send_to_group : ℕ → ℕ → Payload → Action SendingDb ChatMessage
  unfolding check_can_send_message_in_group_chat draft_of handle_message emit_new_group_message
  send_to_group client_id group_chat_id p = do
    member ← answered λ s.
        check_can_send_message_in_group_chat group_clients client_id (is_pin_notice p.type)
          group_chat_id s.chat.group
    send_in_group client_id group_chat_id p member

  unfoldable pub handle_send_group_message : ℕ → ℕ → Payload → Action SendingDb ChatMessage
  unfolding check_unique_token check_can_send_message_in_group_chat draft_of handle_message
      emit_new_group_message
  handle_send_group_message client_id group_chat_id p = do
    check_unique_token p.token client_id
    send_to_group client_id group_chat_id p
