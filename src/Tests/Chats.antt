-- ===== src/Tests/Chats.antt =====
-- Pins and recalls in a direct chat and in a group chat.
use thunderchat_server.Base.{
  ℕ, ◌≡◌, ◌≤◌, ◌<◌, ◌⊎◌, refl, Bool, true, false, not, ◌&&◌, none, some, [], ◌∷◌, count, length,
  arith, nat_eq,
}
use mathlib.Core.List.{Memᴰ}
use thunderchat_server.Base.Prisma.InMemory.{in_memory}
use thunderchat_server.Group.{empty_group_db, admin}
use thunderchat_server.Messages.{text, sent, ChatMessage, DirectChat, ChatDb, has_message_id}
use thunderchat_server.Messages.Pin.{pin_or_unpin_message, pin_or_unpin_message_in_group_chat}
use thunderchat_server.Messages.PinBounds.{IsValid, pin_or_unpin_message_in_group_chat-IsValid}
use thunderchat_server.Messages.PinConversation.{
  PinnedChat, toggle_pin_conversation, toggle_pin_conversation_lem, pinned_by_user, is_pin_of,
  same_id,
}
use thunderchat_server.Messages.Recall.{recall_message}
use thunderchat_server.Messages.RecallLaws.{recall_message_lem}
use thunderchat_server.Tests.{chat_tables}

abbrev hello : ChatMessage
hello = record {
  id = 4;
  content = "hello";
  author_id = 1;
  recipient_id = some 2;
  direct_chat_id = some 7;
  group_chat_id = none;
  type = text;
  status = sent;
  sticker_id = none;
  reply_to_id = none;
  is_deleted = false;
  media = none;
}

abbrev direct : DirectChat
direct = record { id = 7; creator_id = 1; recipient_id = 2; last_sent_message_id = none }

-- User 1 is online, user 2 is not.
abbrev chats : ChatDb
chats = record {
  messages = hello ∷ [];
  direct_chats = direct ∷ [];
  profiles = [];
  pinned_messages = [];
  group = record empty_group_db {
    members = record { group_chat_id = 9; user_id = 1; role = admin; joined_by = 1 } ∷ [];
  };
  clients = (1, "a" ∷ []) ∷ [];
  events = [];
}

no_pins-IsValid : IsValid []
no_pins-IsValid = (λ d. omega arith, λ g. omega arith, λ m d. omega arith, λ m g. omega arith)

abbrev pinned_chats : ChatDb
pinned_chats = (pin_or_unpin_message chat_tables 4 7 1 true chats).1

abbrev pinned_group : ChatDb
pinned_group = (pin_or_unpin_message_in_group_chat chat_tables 4 9 1 true chats).1

pin_or_unpin_message_in_group_chat-IsValid_example : IsValid pinned_group.pinned_messages
pin_or_unpin_message_in_group_chat-IsValid_example =
    pin_or_unpin_message_in_group_chat-IsValid chat_tables 4 9 1 true chats pinned_group
      (pin_or_unpin_message_in_group_chat chat_tables 4 9 1 true chats).0 no_pins-IsValid refl

abbrev pin_of_seven : PinnedChat
pin_of_seven = record { id = 1; direct_chat_id = some 7; group_chat_id = none; pinned_by = 1 }

toggle_pin_conversation_lem_example :
    ((v : ℕ) → count (pinned_by_user v) (pin_of_seven ∷ []) ≤ 5)
    × ((true ≡ true)
          × (count (is_pin_of 1 (some 7) none) [] ≡ 0)
          × (count (is_pin_of 1 (some 7) none) (pin_of_seven ∷ []) ≡ 1)
        ⊎ (true ≡ false)
          × (count (is_pin_of 1 (some 7) none) (pin_of_seven ∷ [])
              < count (is_pin_of 1 (some 7) none) []))
unfolding toggle_pin_conversation
toggle_pin_conversation_lem_example =
    toggle_pin_conversation_lem (in_memory same_id) 1 (some 7) none [] (pin_of_seven ∷ []) true
      (λ v. omega arith) refl

abbrev gone : ChatMessage
gone = record hello { content = ""; is_deleted = true }

abbrev taken_back : ChatDb
taken_back = (recall_message chat_tables 4 1 chats).1

recall_message_lem_example :
    ((old : ChatMessage) × Memᴰ old chats.messages × (old.id ≡ 4) × (old.author_id ≡ 1))
    × (gone.is_deleted ≡ true)
    × (gone.content ≡ "")
    × (gone.reply_to_id ≡ none)
    × (length taken_back.messages ≡ length chats.messages)
    × (count (λ x. has_message_id 4 x && not x.is_deleted) taken_back.messages ≡ 0)
    × ((q : ChatMessage → Bool)
        → count (λ x. not (has_message_id 4 x) && q x) taken_back.messages
          ≡ count (λ x. not (has_message_id 4 x) && q x) chats.messages)
unfolding recall_message
recall_message_lem_example = recall_message_lem chat_tables 4 1 chats taken_back gone refl
