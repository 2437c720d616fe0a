-- ===== src/Tests/Sending.antt =====
-- Messages that are sent to a user and to a group chat.
use thunderchat_server.Base.{
  ℕ, String, ◌≡◌, refl, Bool, true, Option, none, some, List, [], ◌∷◌, ◌==◌, if◌then◌else◌,
  string_eq,
}
use mathlib.Core.List.{Memᴰ}
use thunderchat_server.Base.Action.{Exception, ok, err}
use thunderchat_server.Friend.{empty_friend_db}
use thunderchat_server.Friend.MaySend.{check_can_send_message_in_direct_chat}
use thunderchat_server.Group.{admin, Member, empty_group_db}
use thunderchat_server.Messages.{ChatMessage, MessageType, DirectChat, sent}
use thunderchat_server.Messages.DirectChats.{chat_between}
use thunderchat_server.Messaging.Tokens.{new_tokens, is_unique_token}
use thunderchat_server.Messaging.Presence.{check_can_send_message_in_group_chat}
use thunderchat_server.Messaging.Sending.{
  SendingDb, handle_send_direct_message, handle_send_group_message,
}
use thunderchat_server.Messaging.Drafts.{Payload, text, is_pin_notice}
use thunderchat_server.Messaging.Sending.Direct.{
  handle_send_direct_message_lem, handle_send_direct_message-once,
}
use thunderchat_server.Messaging.Sending.Groups.{handle_send_group_message_lem}
use thunderchat_server.Tests.{chat_tables, friend_tables}

abbrev parse_int : String → Option ℕ
parse_int t = if t == "5" then some 5 else none

abbrev hello : Payload
hello = record { type = text; content = "hello"; token = "t"; reply_to_id = none }

-- User 2 is online, and user 1 is an admin of group chat 9.
abbrev quiet : SendingDb
quiet = record {
  chat = record {
    messages = [];
    direct_chats = [];
    profiles = [];
    pinned_messages = [];
    group = record empty_group_db {
      members = record { group_chat_id = 9; user_id = 1; role = admin; joined_by = 1 } ∷ [];
    };
    clients = (2, "b" ∷ []) ∷ [];
    events = [];
  };
  friend = record empty_friend_db { users = 1 ∷ 2 ∷ [] };
  tokens = new_tokens;
  media_rows = [];
  pushes = [];
}

abbrev after : SendingDb
after = (handle_send_direct_message chat_tables friend_tables parse_int "a" 1 2 hello quiet).1

abbrev row : Option ℕ → Option ℕ → Option ℕ → ChatMessage
row recipient_id direct_chat_id group_chat_id = record {
  id = 1;
  content = "hello";
  author_id = 1;
  recipient_id = recipient_id;
  direct_chat_id = direct_chat_id;
  group_chat_id = group_chat_id;
  type = MessageType.text;
  status = sent;
  sticker_id = none;
  reply_to_id = none;
  is_deleted = Bool.false;
  media = none;
}

abbrev direct_row : ChatMessage
direct_row = row (some 2) (some 1) none

handle_send_direct_message_lem_example :
    (check_can_send_message_in_direct_chat friend_tables 1 2 quiet.friend ≡ ok tt)
    × (is_unique_token 1 "t" quiet.tokens ≡ (true, after.tokens))
    × (direct_row.author_id ≡ 1)
    × (direct_row.recipient_id ≡ some 2)
    × ((c : DirectChat) × (chat_between 1 2 c ≡ true)
        × Memᴰ c after.chat.direct_chats
        × (c.last_sent_message_id ≡ some direct_row.id)
        × (direct_row.direct_chat_id ≡ some c.id))
    × (after.chat.messages ≡ direct_row ∷ quiet.chat.messages)
    × (after.friend ≡ quiet.friend)
unfolding handle_send_direct_message is_unique_token thunderchat_server.Base.JsMap.get
handle_send_direct_message_lem_example =
    handle_send_direct_message_lem chat_tables friend_tables parse_int "a" 1 2 hello quiet after
      direct_row refl

handle_send_direct_message-once_example :
    (e : Exception) × (handle_send_direct_message chat_tables friend_tables parse_int "c" 1 3
        (record hello { content = "again" })
        after
      ≡ (err e, after))
unfolding handle_send_direct_message is_unique_token thunderchat_server.Base.JsMap.get
handle_send_direct_message-once_example =
    handle_send_direct_message-once chat_tables friend_tables parse_int "a" 1 2 hello quiet after
      direct_row "c" 3 (record hello { content = "again" }) refl refl

abbrev after_group : SendingDb
after_group = (handle_send_group_message chat_tables friend_tables parse_int 1 9 hello quiet).1

abbrev group_row : ChatMessage
group_row = row none none (some 9)

handle_send_group_message_lem_example :
    (is_unique_token 1 "t" quiet.tokens ≡ (true, after_group.tokens))
    × ((m : Member) × (check_can_send_message_in_group_chat chat_tables.group_clients 1
            (is_pin_notice text)
            9
            quiet.chat.group
          ≡ ok m))
    × (group_row.author_id ≡ 1)
    × (group_row.group_chat_id ≡ some 9)
    × (after_group.chat.messages ≡ group_row ∷ quiet.chat.messages)
unfolding handle_send_group_message is_unique_token thunderchat_server.Base.JsMap.get
handle_send_group_message_lem_example =
    handle_send_group_message_lem chat_tables friend_tables parse_int 1 9 hello quiet after_group
      group_row refl
