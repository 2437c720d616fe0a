-- ===== src/Messaging/Sending/Laws.antt =====
-- The steps of sending a message.
use mathlib.Core.List.{Memᴰ}
use thunderchat_server.Base.{
  ℕ, ◌≡◌, refl, ap, sym, subst, ◌∙◌, List, map, if◌then◌else◌, arith, String, Bool, true, Option,
  none, some, ◌∷◌, ◌==◌, is_some, nat_eq, string_eq, eq_refl, inl, inr, Bool-cases, Option-cases,
}
use thunderchat_server.Base.Prisma.{mem-map_if}
use thunderchat_server.Base.Action.{Result-cases, ok, bind_ok, pure, modify, ◌>>◌}
use thunderchat_server.Friend.{FriendClients, same_user}
use thunderchat_server.Messages.{ChatMessage, ChatClients, DirectChat, has_direct_chat_id}
use thunderchat_server.Messages.DirectChats.{
  chat_between, find_conversation_with_other_user, create_new_direct_chat, update_last_sent_message,
  new_direct_chat,
}
use thunderchat_server.Messaging.Tokens.{is_unique_token}
use thunderchat_server.Messaging.Sending.{
  on_chat, in_direct, deliver, send_in_chat, send_to_user, SendingDb, check_unique_token,
  create_new_message, handle_message, handle_direct_chat_not_exists, emit_new_direct_message,
  send_new_message_to_recipient, handle_send_push_notification,
}
use thunderchat_server.Messaging.Drafts.{Payload, Draft, new_message, draft_of}

pub check_unique_token_ok :
    (token : String) (client_id : ℕ) (s s' : SendingDb) (u : Unit {0})
    → check_unique_token token client_id s ≡ (ok u, s')
    → (is_unique_token client_id token s.tokens ≡ (true, s'.tokens))
      × (s'.chat ≡ s.chat)
      × (s'.friend ≡ s.friend)
unfolding check_unique_token
check_unique_token_ok token client_id s s' u h = ground arith

module _ (db : ChatClients) (friends : FriendClients) (parse_int : String → Option ℕ) where
  pub create_new_message_lem :
      (d : Draft) (author_id : ℕ) (s s' : SendingDb) (m : ChatMessage)
      → create_new_message db friends parse_int d author_id s ≡ (ok m, s')
      → (id : ℕ) × (m ≡ new_message d author_id s.media_rows id)
        × (s'.chat.messages ≡ m ∷ s.chat.messages)
        × (s'.friend ≡ s.friend)
        × (s'.tokens ≡ s.tokens)
  unfolding create_new_message
  create_new_message_lem d author_id s s' m h =
      elim (Option-cases
        (db.message.create (new_message d author_id s.media_rows) s.chat.messages)) [
          | inl rejected ↦ absurd (ground arith)
          | inr ((row, ms), created) ↦
              let (id, is_row, rows, free) = db.message.create-some _ _ row ms created in
              (id, ground arith, ground arith, ground arith, ground arith)
        ]

  create_new_message-chats :
      (d : Draft) (author_id : ℕ) (s s' : SendingDb) (m : ChatMessage)
      → create_new_message db friends parse_int d author_id s ≡ (ok m, s')
      → s'.chat.direct_chats ≡ s.chat.direct_chats
  unfolding create_new_message
  create_new_message-chats d author_id s s' m h = ground arith

  chat_lem :
      (client_id receiver_id : ℕ) (s s' : SendingDb) (c : DirectChat) (is_new : Bool)
      → handle_direct_chat_not_exists db friends parse_int client_id receiver_id s
        ≡ (ok (c, is_new), s')
      → (chat_between client_id receiver_id c ≡ true)
        × Memᴰ c s'.chat.direct_chats
        × (s'.chat.messages ≡ s.chat.messages)
        × (s'.friend ≡ s.friend)
        × (s'.tokens ≡ s.tokens)
  unfolding handle_direct_chat_not_exists find_conversation_with_other_user create_new_direct_chat
  chat_lem client_id receiver_id s s' c is_new h =
      elim (Option-cases
        (db.direct_chat.find_first (chat_between client_id receiver_id) s.chat.direct_chats)) [
          | inr (old, there) ↦
              let same : c ≡ old = ground arith in
              let found = db.direct_chat.find_first-some _ _ old there in
              let chats : s'.chat.direct_chats ≡ s.chat.direct_chats = ground arith in
              (rw same found.0, rw (chats, same) found.1, ground arith, ground arith, ground arith)
          | inl missing ↦
              elim (Option-cases (
                db.direct_chat.create (new_direct_chat client_id receiver_id)
                  s.chat.direct_chats)) [
                    | inl rejected ↦ absurd (ground arith)
                    | inr ((row, chats), created) ↦
                        let (id, is_row, rows, free) =
                          db.direct_chat.create-some _ _ row chats created in
                        let same : c ≡ row = ground arith in
                        let added : s'.chat.direct_chats ≡ row ∷ s.chat.direct_chats =
                          ground (arith, rows) in
                        (
                          rw (same, is_row)
                              (ground (arith, eq_refl client_id, eq_refl receiver_id)),
                          subst (Memᴰ c) (sym added) (Memᴰ.head same),
                          ground arith,
                          ground arith,
                          ground arith,
                        )
                  ]
        ]

  pub draft_of_lem : (p : Payload) (d : Draft) → draft_of parse_int p ≡ ok d → d.group_id ≡ none
  unfolding draft_of
  draft_of_lem p d h = elim (Option-cases (parse_int p.content)) [
    | inl nan ↦ ground arith
    | inr (id, parsed) ↦ ground arith
  ]

  -- The chat with an id has that last message.
  abbrev pub with_last : ℕ → ℕ → List DirectChat → List DirectChat
  with_last id message_id = map (λ c.
      if has_direct_chat_id id c then record c { last_sent_message_id = some message_id } else c)

  update_lem :
      (direct_chat_id message_id : ℕ) (s s' : SendingDb) (c : DirectChat)
      → on_chat (update_last_sent_message db direct_chat_id message_id) s ≡ (ok c, s')
      → (s'.chat.messages ≡ s.chat.messages)
        × (s'.friend ≡ s.friend)
        × (s'.tokens ≡ s.tokens)
        × (s'.chat.direct_chats ≡ with_last direct_chat_id message_id s.chat.direct_chats)
  unfolding update_last_sent_message
  update_lem direct_chat_id message_id s s' c h =
      let set = λ (x : DirectChat). record x { last_sent_message_id = some message_id } in
      elim (Option-cases
        (db.direct_chat.update (has_direct_chat_id direct_chat_id) set s.chat.direct_chats)) [
          | inl rejected ↦ absurd (ground arith)
          | inr ((row, chats), done) ↦
              let (old, member, passes, new, rows) =
                db.direct_chat.update-some _ _ _ row chats done in
              (ground arith, ground arith, ground arith, ground (arith, rows))
        ]

  pub in_direct_lem :
      (d : Draft) (client_id direct_chat_id receiver_id : ℕ) (s s' : SendingDb) (m : ChatMessage)
      → in_direct db friends parse_int (some direct_chat_id) (some receiver_id) d client_id s
        ≡ (ok m, s')
      → (m.author_id ≡ client_id)
        × (m.recipient_id ≡ d.receiver_id)
        × (m.direct_chat_id ≡ d.direct_chat_id)
        × (s'.chat.messages ≡ m ∷ s.chat.messages)
        × (s'.friend ≡ s.friend)
        × (s'.tokens ≡ s.tokens)
        × (s'.chat.direct_chats ≡ with_last direct_chat_id m.id s.chat.direct_chats)
  unfolding in_direct
  in_direct_lem d client_id direct_chat_id receiver_id s s' m h =
      let one = record d { group_id = none } in
      let (m1, s1, made, rest) =
        bind_ok (create_new_message db friends parse_int one client_id)
          (λ x. on_chat (update_last_sent_message db direct_chat_id x.id) >> pure x) s s' m h in
      let (c, s2, updated, done) =
        bind_ok (on_chat (update_last_sent_message db direct_chat_id m1.id)) (λ y. pure m1) s1 s' m
          rest in
      let (id, is_row, rows, same_friend, same_tokens) =
        create_new_message_lem one client_id s s1 m1 made in
      let chats = create_new_message-chats one client_id s s1 m1 made in
      let (messages, kept_friend, kept_tokens, lasts) =
        update_lem direct_chat_id m1.id s1 s2 c updated in
      let same : m ≡ m1 = ground arith in
      let last : s' ≡ s2 = ground arith in
      rw (same, last)
        (
          rw is_row refl,
          rw is_row refl,
          rw is_row refl,
          messages ∙ rows,
          kept_friend ∙ same_friend,
          kept_tokens ∙ same_tokens,
          lasts ∙ ap (with_last direct_chat_id m1.id) chats,
        )

  pub handle_message_lem :
      (d : Draft) (client_id direct_chat_id receiver_id : ℕ) (s s' : SendingDb) (m : ChatMessage)
      → d.group_id ≡ none
      → handle_message db friends parse_int client_id
          (record d { direct_chat_id = some direct_chat_id; receiver_id = some receiver_id })
          s
        ≡ (ok m, s')
      → (m.author_id ≡ client_id)
        × (m.recipient_id ≡ some receiver_id)
        × (m.direct_chat_id ≡ some direct_chat_id)
        × (s'.chat.messages ≡ m ∷ s.chat.messages)
        × (s'.friend ≡ s.friend)
        × (s'.tokens ≡ s.tokens)
        × (s'.chat.direct_chats ≡ with_last direct_chat_id m.id s.chat.direct_chats)
  unfolding handle_message in_direct
  handle_message_lem d client_id direct_chat_id receiver_id s s' m no_group h =
      let full = record d {
        direct_chat_id = some direct_chat_id;
        receiver_id = some receiver_id;
      } in
      elim (Bool-cases (direct_chat_id == 0)) [
        | inl no_chat ↦ absurd (ground arith)
        | inr chat ↦ elim (Bool-cases (receiver_id == 0)) [
          | inl nobody ↦ absurd (ground arith)
          | inr somebody ↦
              in_direct_lem full client_id direct_chat_id receiver_id s s' m (ground arith)
        ]
      ]

  -- The message stands once more among the messages, from the client to the receiver, in a chat of
  -- the two that stands among the direct chats with it as its last message.
  abbrev pub IsSent : ℕ → ℕ → ChatMessage → SendingDb → SendingDb → Type 0
  IsSent client_id receiver_id m s s' =
      (m.author_id ≡ client_id)
      × (m.recipient_id ≡ some receiver_id)
      × ((c : DirectChat) × (chat_between client_id receiver_id c ≡ true)
          × Memᴰ c s'.chat.direct_chats
          × (c.last_sent_message_id ≡ some m.id)
          × (m.direct_chat_id ≡ some c.id))
      × (s'.chat.messages ≡ m ∷ s.chat.messages)
      × (s'.friend ≡ s.friend)
      × (s'.tokens ≡ s.tokens)

  deliver_lem :
      (socket : String) (client_id receiver_id : ℕ) (c : DirectChat) (is_new : Bool) (d : Draft)
      (s s' : SendingDb) (m : ChatMessage)
      → d.group_id ≡ none
      → chat_between client_id receiver_id c ≡ true
      → Memᴰ c s.chat.direct_chats
      → deliver db friends parse_int socket client_id receiver_id c is_new d s ≡ (ok m, s')
      → IsSent client_id receiver_id m s s'
  unfolding deliver emit_new_direct_message send_new_message_to_recipient
      handle_send_push_notification
  deliver_lem socket client_id receiver_id c is_new d s s' m no_group between member h =
      let full = record d { direct_chat_id = some c.id; receiver_id = some receiver_id } in
      let (m1, s1, handled, rest) =
        bind_ok (handle_message db friends parse_int client_id full)
          (λ x. modify (emit_new_direct_message socket receiver_id x is_new c) >> pure x) s s' m
          h in
      let (author, recipient, chat, messages, friend, tokens, chats) =
        handle_message_lem d client_id c.id receiver_id s s1 m1 no_group handled in
      let same : m ≡ m1 = ground arith in
      let told : s' ≡ emit_new_direct_message socket receiver_id m1 is_new c s1 = ground arith in
      let last = record c { last_sent_message_id = some m1.id } in
      let stands : Memᴰ last s1.chat.direct_chats = subst (Memᴰ last) (sym chats) (
        mem-map_if (has_direct_chat_id c.id) (λ x. record x { last_sent_message_id = some m1.id })
          (eq_refl c.id) member) in
      rw (same, told)
        (author, recipient, (last, between, stands, refl, chat), messages, friend, tokens)

  send_in_chat_lem :
      (socket : String) (client_id receiver_id : ℕ) (p : Payload) (c : DirectChat) (is_new : Bool)
      (s s' : SendingDb) (m : ChatMessage)
      → chat_between client_id receiver_id c ≡ true
      → Memᴰ c s.chat.direct_chats
      → send_in_chat db friends parse_int socket client_id receiver_id p (c, is_new) s ≡ (ok m, s')
      → IsSent client_id receiver_id m s s'
  unfolding send_in_chat
  send_in_chat_lem socket client_id receiver_id p c is_new s s' m between member h =
      elim (Bool-cases (is_some (friends.user.find_first (same_user client_id) s.friend.users))) [
        | inr unknown ↦ absurd (ground arith)
        | inl known ↦ elim (Result-cases (draft_of parse_int p)) [
          | inr (x, bad) ↦ absurd (ground arith)
          | inl (d, drafted) ↦
              deliver_lem socket client_id receiver_id c is_new d s s' m (draft_of_lem p d drafted)
                between member (ground arith)
        ]
      ]

  pub send_to_user_lem :
      (socket : String) (client_id receiver_id : ℕ) (p : Payload) (s s' : SendingDb)
      (m : ChatMessage)
      → send_to_user db friends parse_int socket client_id receiver_id p s ≡ (ok m, s')
      → IsSent client_id receiver_id m s s'
  unfolding send_to_user
  send_to_user_lem socket client_id receiver_id p s s' m h =
      let ((c, is_new), s1, chat, rest) =
        bind_ok (handle_direct_chat_not_exists db friends parse_int client_id receiver_id)
          (send_in_chat db friends parse_int socket client_id receiver_id p) s s' m h in
      let (between, member, messages, friend, tokens) =
        chat_lem client_id receiver_id s s1 c is_new chat in
      let v =
        send_in_chat_lem socket client_id receiver_id p c is_new s1 s' m between member rest in
      rw (← messages, ← friend, ← tokens) v
