-- ===== src/Messaging/Sending/Groups.antt =====
-- What a message that is sent to a group chat leaves behind.
use thunderchat_server.Base.{
  ℕ, ◌≡◌, refl, sym, ◌∙◌, ap, arith, String, true, Option, none, some, ◌∷◌, ◌==◌, nat_eq, string_eq,
  inl, inr, Bool-cases, Option-cases,
}
use thunderchat_server.Base.Action.{Result-cases, ok, bind_ok, pure, modify, ◌>>◌}
use thunderchat_server.Friend.{FriendClients}
use thunderchat_server.Group.{Member}
use thunderchat_server.Messages.{ChatMessage, ChatClients}
use thunderchat_server.Messaging.Tokens.{is_unique_token}
use thunderchat_server.Messaging.Presence.{check_can_send_message_in_group_chat}
use thunderchat_server.Messaging.Sending.{
  SendingDb, answered, check_unique_token, handle_message, handle_send_group_message, in_group,
  in_direct, emit_new_group_message, handle_send_push_notification, send_in_group, send_to_group,
}
use thunderchat_server.Messaging.Drafts.{Payload, Draft, draft_of, is_pin_notice}
use thunderchat_server.Messaging.Sending.Laws.{check_unique_token_ok, create_new_message_lem}

module _ (db : ChatClients) (friends : FriendClients) (parse_int : String → Option ℕ) where
  draft_direct : (p : Payload) (d : Draft) → draft_of parse_int p ≡ ok d → d.direct_chat_id ≡ none
  unfolding draft_of
  draft_direct p d h = elim (Option-cases (parse_int p.content)) [
    | inl nan ↦ ground arith
    | inr (id, parsed) ↦ ground arith
  ]

  group_message_lem :
      (d : Draft) (client_id group_chat_id : ℕ) (s s' : SendingDb) (m : ChatMessage)
      → d.direct_chat_id ≡ none
      → handle_message db friends parse_int client_id (record d { group_id = some group_chat_id }) s
        ≡ (ok m, s')
      → (m.author_id ≡ client_id)
        × (m.recipient_id ≡ none)
        × (m.group_chat_id ≡ some group_chat_id)
        × (s'.chat.messages ≡ m ∷ s.chat.messages)
        × (s'.tokens ≡ s.tokens)
  unfolding handle_message in_direct in_group
  group_message_lem d client_id group_chat_id s s' m no_chat h =
      let one = record d {
        group_id = some group_chat_id;
        direct_chat_id = none;
        receiver_id = none;
      } in
      elim (Bool-cases (group_chat_id == 0)) [
        | inl nowhere ↦ absurd (ground arith)
        | inr somewhere ↦
            let (id, is_row, rows, friend, tokens) =
              create_new_message_lem db friends parse_int one client_id s s' m (ground arith) in
            (rw is_row refl, rw is_row refl, rw is_row refl, rows, tokens)
      ]

  send_in_group_lem :
      (client_id group_chat_id : ℕ) (p : Payload) (member : Member) (s s' : SendingDb)
      (m : ChatMessage)
      → send_in_group db friends parse_int client_id group_chat_id p member s ≡ (ok m, s')
      → (m.author_id ≡ client_id)
        × (m.group_chat_id ≡ some group_chat_id)
        × (s'.chat.messages ≡ m ∷ s.chat.messages)
        × (s'.tokens ≡ s.tokens)
  unfolding send_in_group emit_new_group_message handle_send_push_notification
  send_in_group_lem client_id group_chat_id p member s s' m h =
      elim (Result-cases (draft_of parse_int p)) [
        | inr (x, bad) ↦ absurd (ground arith)
        | inl (d, drafted) ↦
            let (m1, s1, handled, rest) =
              bind_ok
                (handle_message db friends parse_int client_id
                  (record d { group_id = some group_chat_id }))
                (λ x.
                  modify
                    (emit_new_group_message db friends parse_int group_chat_id member.user_id x)
                  >> pure x)
                s s' m (ground arith) in
            let (author, nobody, chat, messages, tokens) =
              group_message_lem d client_id group_chat_id s s1 m1 (draft_direct p d drafted)
                handled in
            let same : m ≡ m1 = ground arith in
            let told : s'.chat.messages ≡ s1.chat.messages = ground arith in
            let used : s'.tokens ≡ s1.tokens = ground arith in
            (
              ap (λ x. x.author_id) same ∙ author,
              ap (λ x. x.group_chat_id) same ∙ chat,
              told ∙ messages ∙ ap (λ x. x ∷ s.chat.messages) (sym same),
              used ∙ tokens,
            )
      ]

  -- A message that is sent to a group chat had a new token, and its client may write there; it
  -- stands once more among the messages, from the client in that group chat.
  pub handle_send_group_message_lem :
      (client_id group_chat_id : ℕ) (p : Payload) (s s' : SendingDb) (m : ChatMessage)
      → handle_send_group_message db friends parse_int client_id group_chat_id p s ≡ (ok m, s')
      → (is_unique_token client_id p.token s.tokens ≡ (true, s'.tokens))
        × ((member : Member) × (check_can_send_message_in_group_chat db.group_clients client_id
                (is_pin_notice p.type)
                group_chat_id
                s.chat.group
              ≡ ok member))
        × (m.author_id ≡ client_id)
        × (m.group_chat_id ≡ some group_chat_id)
        × (s'.chat.messages ≡ m ∷ s.chat.messages)
  unfolding handle_send_group_message
  handle_send_group_message_lem client_id group_chat_id p s s' m h =
      let (u1, s1, unique, h1) =
        bind_ok (check_unique_token p.token client_id)
          (λ u. send_to_group db friends parse_int client_id group_chat_id p) s s' m h in
      let (member, s2, may, h2) =
        bind_ok
          (answered λ t.
            check_can_send_message_in_group_chat db.group_clients client_id (is_pin_notice p.type)
              group_chat_id t.chat.group)
          (send_in_group db friends parse_int client_id group_chat_id p) s1 s' m h1 in
      let (unused, same_chat, friend) = check_unique_token_ok p.token client_id s s1 u1 unique in
      let same : s2 ≡ s1 = ground arith in
      let allowed : check_can_send_message_in_group_chat db.group_clients client_id
            (is_pin_notice p.type) group_chat_id s.chat.group
          ≡ ok member =
        rw (← same_chat) (ground arith) in
      let (author, chat, messages, tokens) =
        send_in_group_lem client_id group_chat_id p member s2 s' m h2 in
      (rw (tokens, same) unused, (member, allowed), author, chat, rw (← same_chat, ← same) messages)
