-- ===== src/Messages/DirectChats.antt =====
-- direct-chat/direct-chat.service.ts: the direct chats of two users. The list for the overview with
-- its pages is left out.
use thunderchat_server.Base.{ℕ, Bool, ◌&&◌, ◌||◌, Option, none, some, ◌==◌, nat_eq}
use thunderchat_server.Base.Action.{Action, query}
use thunderchat_server.Messages.{DirectChat, ChatDb, ChatClients, has_direct_chat_id}

abbrev pub chat_between : ℕ → ℕ → DirectChat → Bool
chat_between user_id other_user_id c =
    c.creator_id == user_id && c.recipient_id == other_user_id
    || c.creator_id == other_user_id && c.recipient_id == user_id

abbrev pub new_direct_chat : ℕ → ℕ → ℕ → DirectChat
new_direct_chat creator_id recipient_id id = record {
  id = id;
  creator_id = creator_id;
  recipient_id = recipient_id;
  last_sent_message_id = none;
}

module _ (db : ChatClients) where
  open db use {direct_chat}

  unfoldable pub find_direct_chat_by_id : ℕ → ChatDb → Option DirectChat
  find_direct_chat_by_id id s = direct_chat.find_first (has_direct_chat_id id) s.direct_chats

  unfoldable pub find_by_direct_chat_id_and_user_id : ℕ → ℕ → ChatDb → Option DirectChat
  find_by_direct_chat_id_and_user_id id user_id s =
      direct_chat.find_first
        (λ c. c.id == id && (c.creator_id == user_id || c.recipient_id == user_id)) s.direct_chats

  unfoldable pub find_conversation_with_other_user : ℕ → ℕ → ChatDb → Option DirectChat
  find_conversation_with_other_user user_id other_user_id s =
      direct_chat.find_first (chat_between user_id other_user_id) s.direct_chats

  unfoldable pub create_new_direct_chat : ℕ → ℕ → Action ChatDb DirectChat
  create_new_direct_chat creator_id recipient_id = query λ s.
      elim (direct_chat.create (new_direct_chat creator_id recipient_id) s.direct_chats) [
        | none ↦ none
        | some (c, chats) ↦ some (c, record s { direct_chats = chats })
      ]

  unfoldable pub update_last_sent_message : ℕ → ℕ → Action ChatDb DirectChat
  update_last_sent_message direct_chat_id message_id = query λ s.
      elim (direct_chat.update (has_direct_chat_id direct_chat_id)
        (λ c. record c { last_sent_message_id = some message_id }) s.direct_chats) [
          | none ↦ none
          | some (c, chats) ↦ some (c, record s { direct_chats = chats })
        ]
