-- ===== src/Moderation/Violations.antt =====
-- admin/admin.service.ts: the messages that a ban deletes, their media, and what the clients are sent.
use thunderchat_server.Base.{
  ℕ, String, Bool, true, false, Option, none, some, List, [], ◌∷◌, ◌++◌, ◌==◌, if◌then◌else◌, find,
  map, is_some, nat_eq, string_eq, includes,
}
use thunderchat_server.Base.Action.{db_error, ok, err, Action}
use thunderchat_server.Connection.{Clients, get_connected_client}
use thunderchat_server.Messages.{MessageType, sticker, media, DirectChat, has_direct_chat_id}
use thunderchat_server.Moderation.{ReportedRow, MessageMedia, ModerationDb, ModerationClients}

abbrev pub is_sticker : MessageType → Bool
is_sticker type = elim type [ sticker ↦ true | _ ↦ false ]

abbrev pub is_media : MessageType → Bool
is_media type = elim type [ media ↦ true | _ ↦ false ]

abbrev pub media_of : List MessageMedia → Option ℕ → Option MessageMedia
media_of rows none = none
media_of rows (some id) = if id == 0 then none else find (λ x. x.id == id) rows

abbrev pub drops_media : List MessageMedia → ReportedRow → Bool
drops_media rows m = if is_media m.type then is_some (media_of rows m.media_id) else false

unfoldable pub violated : List MessageMedia → ReportedRow → ReportedRow → ReportedRow
violated rows read m = record m {
  is_deleted = true;
  is_violated = true;
  content = "";
  sticker_id = if is_sticker read.type then none else m.sticker_id;
  media_id = if drops_media rows read then none else m.media_id;
}

abbrev pub media_to_delete : List MessageMedia → List ReportedRow → List MessageMedia
media_to_delete rows [] = []
media_to_delete rows (m ∷ ms) =
    let rest = media_to_delete rows ms in
    if is_media m.type
    then elim (media_of rows m.media_id) [ none ↦ rest | some x ↦ x ∷ rest ]
    else rest

abbrev pub has_row_id : ℕ → ReportedRow → Bool
has_row_id id m = m.id == id

abbrev pub in_ids : List ℕ → ReportedRow → Bool
in_ids ids m = includes ids m.id

abbrev pub send_each_row :
    List String → ReportedRow → List (String × ReportedRow) → List (String × ReportedRow)
send_each_row [] m sent = sent
send_each_row (socket ∷ sockets) m sent = send_each_row sockets m ((socket, m) ∷ sent)

abbrev pub send_both :
    Option (List String)
    → Option (List String)
    → ReportedRow
    → List (String × ReportedRow)
    → List (String × ReportedRow)
send_both (some creator) (some recipient) m sent =
    send_each_row recipient m (send_each_row creator m sent)
send_both _ _ m sent = sent

module _ (db : ModerationClients) where
  open db use {message, message_media, direct_chat}

  abbrev pub chat_of : List DirectChat → Option ℕ → Option DirectChat
  chat_of chats none = none
  chat_of chats (some id) =
      if id == 0 then none else direct_chat.find_first (has_direct_chat_id id) chats

  unfoldable pub emit_message :
      Clients
      → List DirectChat
      → ReportedRow
      → List (String × ReportedRow)
      → List (String × ReportedRow)
  unfolding get_connected_client
  emit_message clients chats m sent = elim (chat_of chats m.direct_chat_id) [
    | none ↦ sent
    | some chat ↦
        send_both (get_connected_client clients chat.creator_id)
          (get_connected_client clients chat.recipient_id) m sent
  ]

  unfoldable pub emit_each :
      Clients
      → List DirectChat
      → List ReportedRow
      → List (String × ReportedRow)
      → List (String × ReportedRow)
  unfolding get_connected_client
  emit_each clients chats [] sent = sent
  emit_each clients chats (m ∷ ms) sent =
      emit_each clients chats ms (emit_message clients chats m sent)

  -- It reads the messages with a client outside of the transaction: `before` is the state that the
  -- transaction began with.
  unfoldable pub emit_deleted_messages_update :
      List ℕ → ModerationDb → List (String × ReportedRow) → List (String × ReportedRow)
  unfolding get_connected_client
  emit_deleted_messages_update ids before sent =
      emit_each before.clients before.direct_chats (message.find_many (in_ids ids) before.messages)
        sent

  abbrev pub update_messages :
      List MessageMedia → List ReportedRow → List ReportedRow → Option (List ReportedRow)
  unfolding violated
  update_messages rows [] ms = some ms
  update_messages rows (read ∷ reads) ms =
      elim (message.update (has_row_id read.id) (violated rows read) ms) [
        | none ↦ none
        | some (_, ms') ↦ update_messages rows reads ms'
      ]

  abbrev pub ids_of : List MessageMedia → List ℕ
  ids_of rows = map (λ x. x.id) rows

  abbrev pub urls_of : List MessageMedia → List String
  urls_of rows = map (λ x. x.url) rows

  abbrev pub delete_media : List MessageMedia → List MessageMedia → Option (List MessageMedia)
  delete_media [] rows = some rows
  delete_media (m ∷ ms) rows = message_media.delete_many (λ x. includes (ids_of (m ∷ ms)) x.id) rows

  -- The messages of a ban. The files and the sockets come last; where a query is rejected they are not
  -- reached, and the tables are given back by the transaction.
  unfoldable pub ban_messages : List ℕ → ModerationDb → Action ModerationDb (Unit {0})
  unfolding emit_deleted_messages_update violated
  ban_messages [] before s = (ok tt, s)
  ban_messages (id ∷ ids) before s =
      let reads = message.find_many (in_ids (id ∷ ids)) s.messages in
      let dropped = media_to_delete s.media reads in
      elim (update_messages s.media reads s.messages) [
        | none ↦ (err db_error, s)
        | some ms ↦ elim (delete_media dropped s.media) [
          | none ↦ (err db_error, s)
          | some rows ↦ (
            ok tt,
            record s {
              messages = ms;
              media = rows;
              deleted_files = urls_of dropped ++ s.deleted_files;
              sent = emit_deleted_messages_update (id ∷ ids) before s.sent;
            },
          )
        ]
      ]
