-- ===== src/Messages/Recall.antt =====
-- message/delete-message/delete-message.service.ts: taking back a message.
use thunderchat_server.Base.{
  ℕ, String, true, Option, none, some, List, [], ◌∷◌, ◌==◌, if◌then◌else◌, nat_eq,
}
use thunderchat_server.Connection.{get_connected_client}
use thunderchat_server.Group.Chats.{find_group_chat_by_id}
use thunderchat_server.Messages.{
  MessageType, sticker, media, ChatMessage, ChatDb, ChatClients, ChatEvent, has_message_id,
  has_direct_chat_id, is_id, emit, index_deleted, send_message_group, send_to_socket,
}

-- The three failures are those with the codes NOT_FOUND, FORBIDDEN and TRANSACTION_ERROR.
pub data RecallResult : Type 0 where
  recalled : ChatMessage → RecallResult
  message_not_found no_permission transaction_error : RecallResult

-- The columns to change depend on the type of the message that was read.
unfoldable pub prepare_update_data : MessageType → ChatMessage → ChatMessage
prepare_update_data type m = record m {
  is_deleted = true;
  content = "";
  reply_to_id = none;
  media = elim type [ media ↦ none | _ ↦ m.media ];
  sticker_id = elim type [ sticker ↦ none | _ ↦ m.sticker_id ];
}

-- Each message to each socket, after what was sent before; the newest event comes first.
abbrev send_each : List String → ChatMessage → List ChatEvent → List ChatEvent
send_each [] m es = es
send_each (socket ∷ sockets) m es = send_each sockets m (send_to_socket socket m ∷ es)

abbrev send_to_both : List String → List String → List ChatMessage → List ChatEvent → List ChatEvent
send_to_both creator recipient [] es = es
send_to_both creator recipient (m ∷ ms) es =
    send_to_both creator recipient ms (send_each recipient m (send_each creator m es))

abbrev send_if_both :
    Option (List String) → Option (List String) → List ChatMessage → List ChatEvent → List ChatEvent
send_if_both (some creator) (some recipient) ms es = send_to_both creator recipient ms es
send_if_both _ _ ms es = es

abbrev send_to_group : ℕ → List ChatMessage → List ChatEvent → List ChatEvent
send_to_group group_chat_id [] es = es
send_to_group group_chat_id (m ∷ ms) es =
    send_to_group group_chat_id ms (send_message_group group_chat_id m ∷ es)

-- `if (id)`
abbrev pub given : Option ℕ → Option ℕ
given none = none
given (some id) = if id == 0 then none else some id

module _ (db : ChatClients) where
  open db use {message, direct_chat, group_clients}

  abbrev notify_direct_chat : ℕ → List ChatMessage → ChatDb → ChatDb
  unfolding get_connected_client
  notify_direct_chat direct_chat_id ms s =
      elim (direct_chat.find_first (has_direct_chat_id direct_chat_id) s.direct_chats) [
        | none ↦ s
        | some chat ↦ record s {
          events =
              send_if_both (get_connected_client s.clients chat.creator_id)
                (get_connected_client s.clients chat.recipient_id) ms s.events;
        }
      ]

  abbrev notify_group_chat : Option ℕ → List ChatMessage → ChatDb → ChatDb
  unfolding find_group_chat_by_id
  notify_group_chat none ms s = s
  notify_group_chat (some group_chat_id) ms s =
      elim (find_group_chat_by_id group_clients group_chat_id s.group) [
        | none ↦ s
        | some chat ↦ record s { events = send_to_group group_chat_id ms s.events }
      ]

  unfoldable pub handle_reply_messages : ℕ → ChatMessage → ChatDb → ChatDb
  unfolding get_connected_client find_group_chat_by_id
  handle_reply_messages message_id updated s =
      let reply_messages = message.find_many (λ m. is_id m.reply_to_id message_id) s.messages in
      elim (given updated.direct_chat_id) [
        | some direct_chat_id ↦ notify_direct_chat direct_chat_id (updated ∷ reply_messages) s
        | none ↦ notify_group_chat (given updated.group_chat_id) (updated ∷ reply_messages) s
      ]

  -- The transaction: where its query is rejected nothing is changed or sent. The index is told to
  -- delete the message in any case.
  abbrev recall : ℕ → ChatMessage → ChatDb → RecallResult × ChatDb
  unfolding handle_reply_messages prepare_update_data
  recall message_id msg s =
      elim (message.update (has_message_id message_id) (prepare_update_data msg.type) s.messages) [
        | none ↦ (transaction_error, emit (index_deleted msg) s)
        | some (updated, ms) ↦ (
          recalled updated,
          emit (index_deleted msg)
              (handle_reply_messages message_id updated (record s { messages = ms })),
        )
      ]

  unfoldable pub recall_message : ℕ → ℕ → ChatDb → RecallResult × ChatDb
  unfolding handle_reply_messages prepare_update_data
  recall_message message_id user_id s =
      elim (message.find_first (has_message_id message_id) s.messages) [
        | none ↦ (message_not_found, s)
        | some msg ↦
            if msg.author_id == user_id then recall message_id msg s else (no_permission, s)
      ]
