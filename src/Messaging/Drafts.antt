-- ===== src/Messaging/Drafts.antt =====
-- messaging/messaging.gateway.ts: what the payload of a message says, and the row that it becomes,
-- with `createMessageContentForMedia` of message/message.service.ts. `parse_int` is that of
-- JavaScript, `none` where it gives NaN, which the client of the table rejects.
use thunderchat_server.Base.{
  ℕ, String, Bool, true, false, ◌||◌, Option, none, some, if◌then◌else◌, is_some, nat_eq, string_eq,
}
use thunderchat_server.Base.JsMap.{Map, get}
use thunderchat_server.Base.Action.{GatewayMessage, gateway_message, ws, db_error, Result, ok, err}
use thunderchat_server.Messages.{MessageType, sent, Media, ChatMessage}
use thunderchat_server.Messages.Recall.{given}

pub data MessageTypeAll : Type 0 where
  text sticker image video audio document pin_notice : MessageTypeAll

pub record Payload : Type 0 where
  pub type : MessageTypeAll
  pub content : String
  pub token : String
  pub reply_to_id : Option ℕ

-- The parameters of `handleMessage` but for the client.
pub record Draft : Type 0 where
  pub content : String
  pub direct_chat_id : Option ℕ
  pub receiver_id : Option ℕ
  pub group_id : Option ℕ
  pub sticker_id : Option ℕ
  pub type : MessageType
  pub media_id : Option ℕ
  pub reply_to_id : Option ℕ

unfoldable pub create_message_content_for_media : String → Option ℕ → Option ℕ → String
create_message_content_for_media content sticker_id media_id =
    if is_some (given sticker_id) || is_some (given media_id) then "" else content

abbrev pub media_row : Map ℕ Media → Option ℕ → Option Media
media_row rows none = none
media_row rows (some id) = get rows id

abbrev pub new_message : Draft → ℕ → Map ℕ Media → ℕ → ChatMessage
unfolding create_message_content_for_media
new_message d author_id rows id = record {
  id = id;
  content = create_message_content_for_media d.content d.sticker_id d.media_id;
  author_id = author_id;
  recipient_id = d.receiver_id;
  direct_chat_id = d.direct_chat_id;
  group_chat_id = d.group_id;
  type = d.type;
  status = sent;
  sticker_id = d.sticker_id;
  reply_to_id = d.reply_to_id;
  is_deleted = false;
  media = media_row rows d.media_id;
}

-- What a payload becomes, for a chat that is not named yet; `none` where a number in it is NaN.
abbrev pub draft : MessageType → String → Option ℕ → Option ℕ → Option ℕ → Draft
draft type content sticker_id media_id reply_to_id = record {
  content = content;
  direct_chat_id = none;
  receiver_id = none;
  group_id = none;
  sticker_id = sticker_id;
  type = type;
  media_id = media_id;
  reply_to_id = reply_to_id;
}

abbrev pub with_media : Option ℕ → String → Option ℕ → Result Draft
with_media none content reply_to_id = err db_error
with_media (some id) content reply_to_id =
    ok (draft MessageType.media content none (some id) reply_to_id)

abbrev pub with_sticker : Option ℕ → Option ℕ → Result Draft
with_sticker none reply_to_id = err db_error
with_sticker (some id) reply_to_id = ok (draft MessageType.sticker "" (some id) none reply_to_id)

module _ (parse_int : String → Option ℕ) where
  -- The `switch` of both handlers.
  unfoldable pub draft_of : Payload → Result Draft
  draft_of p = elim p.type [
    | text ↦ ok (draft MessageType.text p.content none none p.reply_to_id)
    | sticker ↦ with_sticker (parse_int p.content) p.reply_to_id
    | image ↦ with_media (parse_int p.content) "" p.reply_to_id
    | video ↦ with_media (parse_int p.content) "" p.reply_to_id
    | document ↦ with_media (parse_int p.content) p.content p.reply_to_id
    | audio ↦ with_media (parse_int p.content) p.content p.reply_to_id
    | pin_notice ↦ err (ws (gateway_message GatewayMessage.invalid_message_format))
  ]

abbrev pub is_pin_notice : MessageTypeAll → Bool
is_pin_notice type = elim type [ pin_notice ↦ true | _ ↦ false ]
