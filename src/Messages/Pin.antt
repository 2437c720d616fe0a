-- ===== src/Messages/Pin.antt =====
-- message/pin/pin.service.ts: pins of messages in direct chats and in group chats.
use Prim.Native.String.{◌++◌ as concat}
use thunderchat_server.Base.{
  ℕ, String, Bool, true, false, not, ◌&&◌, Option, none, some, List, ◌==◌, leb, if◌then◌else◌,
  is_some, nat_eq, string_eq,
}
use thunderchat_server.Base.Action.{
  GroupMemberMessage, group_member_message, PinMessage, pin_message as pin_text, bad_request,
  Action, pure, throw, gets, query, modify, throw_if, ◌>>=◌, ◌>>◌,
}
use thunderchat_server.Group.{Role, Member, Permission}
use thunderchat_server.Group.Members.{find_member_in_group_chat}
use thunderchat_server.Group.Chats.{check_group_chat_permission, is_admin}
use thunderchat_server.Messages.{
  image, video, document, audio, Media, MessageType, sticker, pin_notice, sent, ChatMessage,
  DirectChat, Profile, PinnedMessage, ChatDb, ChatClients, has_message_id, has_direct_chat_id,
  is_id, emit, index_created, send_message_direct, send_message_group, pin_message,
  pin_message_group,
}

abbrev pub describe_media : Media → String
describe_media m = elim m.type [
  | image ↦ "hình ảnh"
  | video ↦ "video"
  | document ↦ if m.file_name == "" then "file" else concat "file: " m.file_name
  | audio ↦ "audio"
]

abbrev pub describe_type : MessageType → String → String
describe_type sticker content = "sticker"
describe_type _ content = content

unfoldable pub get_message_description : ChatMessage → String
get_message_description m = elim m.media [
  | none ↦ describe_type m.type m.content
  | some x ↦ describe_media x
]

-- `userProfile?.fullName || 'Người dùng'`
abbrev or_user : Option Profile → String
or_user none = "Người dùng"
or_user (some p) = if p.full_name == "" then "Người dùng" else p.full_name

abbrev description_or_empty : Option ChatMessage → String
description_or_empty none = ""
description_or_empty (some m) = get_message_description m

-- The other user of the direct chat; without the chat, the user that acts.
abbrev pub other_user : Option DirectChat → ℕ → ℕ
other_user none user_id = user_id
other_user (some c) user_id = if c.creator_id == user_id then c.recipient_id else c.creator_id

abbrev notice : String → ℕ → Option ℕ → Option ℕ → Option ℕ → Option ℕ → ℕ → ChatMessage
notice content author_id recipient_id direct_chat_id group_chat_id reply_to_id id = record {
  id = id;
  content = content;
  author_id = author_id;
  recipient_id = recipient_id;
  direct_chat_id = direct_chat_id;
  group_chat_id = group_chat_id;
  type = pin_notice;
  status = sent;
  sticker_id = none;
  reply_to_id = reply_to_id;
  is_deleted = false;
  media = none;
}

abbrev pub direct_pin : ℕ → ℕ → PinnedMessage → Bool
direct_pin message_id direct_chat_id p =
    p.message_id == message_id && is_id p.direct_chat_id direct_chat_id

abbrev pub in_direct_chat : ℕ → PinnedMessage → Bool
in_direct_chat direct_chat_id p = is_id p.direct_chat_id direct_chat_id

abbrev pub group_pin : ℕ → ℕ → PinnedMessage → Bool
group_pin message_id group_chat_id p =
    p.message_id == message_id && is_id p.group_chat_id group_chat_id

abbrev pub in_group_chat : ℕ → PinnedMessage → Bool
in_group_chat group_chat_id p = is_id p.group_chat_id group_chat_id

abbrev pub new_pin : ℕ → Option ℕ → Option ℕ → ℕ → ℕ → PinnedMessage
new_pin message_id direct_chat_id group_chat_id user_id id = record {
  id = id;
  message_id = message_id;
  direct_chat_id = direct_chat_id;
  group_chat_id = group_chat_id;
  pinned_by = user_id;
}

abbrev pub max_pinned_messages : ℕ
max_pinned_messages = 5

-- The new pin, or whether and how many were taken away.
pub data PinResult : Type 0 where
  pinned : PinnedMessage → PinResult
  unpinned : (deleted_count : ℕ) → PinResult

abbrev with_pins : {A : Type 0} → Option (A × List PinnedMessage) → ChatDb → Option (A × ChatDb)
with_pins none s = none
with_pins (some (a, ps)) s = some (a, record s { pinned_messages = ps })

abbrev with_messages : {A : Type 0} → Option (A × List ChatMessage) → ChatDb → Option (A × ChatDb)
with_messages none s = none
with_messages (some (a, ms)) s = some (a, record s { messages = ms })

abbrev or_not_in_group : Option Member → Action ChatDb Member
or_not_in_group none =
    throw (bad_request (group_member_message GroupMemberMessage.user_not_in_group_chat))
or_not_in_group (some m) = pure m

-- `!id`
abbrev falsy : Option ℕ → Bool
falsy none = true
falsy (some id) = id == 0

-- A condition that is undefined is no condition.
abbrev matches : Option ℕ → Option ℕ → Bool
matches column none = true
matches column (some id) = is_id column id

abbrev pub in_chat : Option ℕ → Option ℕ → PinnedMessage → Bool
in_chat direct_chat_id group_chat_id p =
    matches p.direct_chat_id direct_chat_id && matches p.group_chat_id group_chat_id

abbrev with_all_pins : Option (List PinnedMessage) → ChatDb → Option (Unit {0} × ChatDb)
with_all_pins none s = none
with_all_pins (some ps) s = some (tt, record s { pinned_messages = ps })

abbrev check_chat : Option ℕ → Option ℕ → Action ChatDb (Unit {0})
check_chat direct_chat_id group_chat_id = do
  throw_if (not (falsy direct_chat_id) && not (falsy group_chat_id))
      (bad_request (pin_text PinMessage.invalid_params))
  throw_if (falsy direct_chat_id && falsy group_chat_id)
      (bad_request (pin_text PinMessage.invalid_params))

module _ (db : ChatClients) where
  open db use {message, direct_chat, profile, pinned_message, group_clients}

  -- "<name> has (un)pinned the message: <description>"
  abbrev notice_content : String → ℕ → ℕ → ChatDb → String
  unfolding get_message_description
  notice_content verb message_id user_id s =
      concat (or_user (profile.find_first (λ p. p.user_id == user_id) s.profiles)) (
        concat verb
          (description_or_empty (message.find_first (has_message_id message_id) s.messages)))

  abbrev create_notice : (ℕ → ChatMessage) → Action ChatDb ChatMessage
  create_notice mk = query (λ s. with_messages (message.create mk s.messages) s)

  abbrev create_pin : (ℕ → PinnedMessage) → Action ChatDb PinnedMessage
  create_pin mk = query (λ s. with_pins (pinned_message.create mk s.pinned_messages) s)

  -- The test for a pin of the message, then that for the number of pins.
  abbrev check_room : (PinnedMessage → Bool) → (PinnedMessage → Bool) → Action ChatDb (Unit {0})
  check_room this_pin in_this_chat = do
    existing ← gets (λ s. pinned_message.find_first this_pin s.pinned_messages)
    throw_if (is_some existing) (bad_request (pin_text PinMessage.message_already_pinned))
    n ← gets (λ s. pinned_message.count in_this_chat s.pinned_messages)
    throw_if (leb max_pinned_messages n)
        (bad_request (pin_text PinMessage.cannot_pin_more_than_5_messages))

  -- How many pins go, which Prisma counts.
  abbrev delete_pins : (PinnedMessage → Bool) → Action ChatDb ℕ
  delete_pins this_pin = do
    n ← gets (λ s. pinned_message.count this_pin s.pinned_messages)
    query (λ s. with_all_pins (pinned_message.delete_many this_pin s.pinned_messages) s)
    pure n

  -- The notice of a direct chat is stored, indexed and sent to the room of the chat.
  abbrev notify_direct : String → ℕ → ℕ → Option ℕ → ℕ → Action ChatDb (Unit {0})
  notify_direct verb message_id direct_chat_id reply_to_id user_id = do
    content ← gets (notice_content verb message_id user_id)
    recipient_id ← gets (λ s.
        other_user (direct_chat.find_first (has_direct_chat_id direct_chat_id) s.direct_chats)
          user_id)
    m ←
        create_notice
          (notice content user_id (some recipient_id) (some direct_chat_id) none reply_to_id)
    modify (emit (index_created m))
    modify (emit (send_message_direct direct_chat_id m))

  unfoldable pub pin_or_unpin_message : ℕ → ℕ → ℕ → Bool → Action ChatDb PinResult
  unfolding get_message_description
  pin_or_unpin_message message_id direct_chat_id user_id true = do
    check_room (direct_pin message_id direct_chat_id) (in_direct_chat direct_chat_id)
    p ← create_pin (new_pin message_id (some direct_chat_id) none user_id)
    notify_direct " has pinned the message: " message_id direct_chat_id (some message_id) user_id
    modify (emit (pin_message direct_chat_id message_id true user_id (some p)))
    pure (pinned p)
  pin_or_unpin_message message_id direct_chat_id user_id false = do
    n ← delete_pins (direct_pin message_id direct_chat_id)
    notify_direct " has unpinned the message: " message_id direct_chat_id none user_id
    modify (emit (pin_message direct_chat_id message_id false user_id none))
    pure (unpinned n)

  -- A member who is no admin needs the permission.
  abbrev check_may_pin : ℕ → Role → Action ChatDb (Unit {0})
  unfolding check_group_chat_permission
  check_may_pin group_chat_id role = do
    permission ← gets (λ s.
        check_group_chat_permission group_clients group_chat_id Permission.pin_message s.group)
    throw_if (not (is_admin role) && not permission)
        (bad_request (group_member_message GroupMemberMessage.user_has_no_permission_pin_message))

  abbrev notify_group : String → ℕ → ℕ → Option ℕ → ℕ → Action ChatDb ChatMessage
  notify_group verb message_id group_chat_id reply_to_id user_id = do
    content ← gets (notice_content verb message_id user_id)
    m ← create_notice (notice content user_id none none (some group_chat_id) reply_to_id)
    modify (emit (index_created m))
    modify (emit (send_message_group group_chat_id m))
    pure m

  -- The event of a pin that is lifted carries the id of the notice.
  abbrev pin_in_group : ℕ → ℕ → ℕ → Bool → Action ChatDb PinResult
  pin_in_group message_id group_chat_id user_id true = do
    check_room (group_pin message_id group_chat_id) (in_group_chat group_chat_id)
    p ← create_pin (new_pin message_id none (some group_chat_id) user_id)
    notify_group " has pinned the message: " message_id group_chat_id (some message_id) user_id
    modify (emit (pin_message_group group_chat_id message_id true user_id (some p)))
    pure (pinned p)
  pin_in_group message_id group_chat_id user_id false = do
    n ← delete_pins (group_pin message_id group_chat_id)
    m ← notify_group " has unpinned the message: " message_id group_chat_id none user_id
    modify (emit (pin_message_group group_chat_id m.id false user_id none))
    pure (unpinned n)

  unfoldable pub pin_or_unpin_message_in_group_chat : ℕ → ℕ → ℕ → Bool → Action ChatDb PinResult
  unfolding find_member_in_group_chat check_group_chat_permission get_message_description
  pin_or_unpin_message_in_group_chat message_id group_chat_id user_id is_pinned = do
    found ← gets (λ s. find_member_in_group_chat group_clients group_chat_id user_id s.group)
    m ← or_not_in_group found
    check_may_pin group_chat_id m.role
    pin_in_group message_id group_chat_id user_id is_pinned

  unfoldable pub get_pinned_count : Option ℕ → Option ℕ → Action ChatDb ℕ
  get_pinned_count direct_chat_id group_chat_id = do
    check_chat direct_chat_id group_chat_id
    gets (λ s. pinned_message.count (in_chat direct_chat_id group_chat_id) s.pinned_messages)

  unfoldable pub is_message_pinned : ℕ → Option ℕ → Option ℕ → Action ChatDb Bool
  is_message_pinned message_id direct_chat_id group_chat_id = do
    check_chat direct_chat_id group_chat_id
    gets (λ s. is_some (
        pinned_message.find_first
          (λ p. p.message_id == message_id && in_chat direct_chat_id group_chat_id p)
          s.pinned_messages))
