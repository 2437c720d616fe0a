-- ===== src/Messaging/Sending/Direct.antt =====
-- What a direct message that is sent leaves behind.
use mathlib.Core.List.{Memᴰ}
use thunderchat_server.Base.{
  ℕ, ◌≡◌, arith, String, true, false, Option, some, ◌∷◌, nat_eq, string_eq, eq_refl, inl, inr,
}
use thunderchat_server.Base.Action.{
  message_overlaps, ws, Exception, Result-cases, ok, err, bind_ok, ◌>>◌,
}
use thunderchat_server.Friend.{FriendClients}
use thunderchat_server.Friend.MaySend.{check_can_send_message_in_direct_chat}
use thunderchat_server.Messages.{ChatMessage, ChatClients, DirectChat}
use thunderchat_server.Messages.DirectChats.{chat_between}
use thunderchat_server.Messaging.Tokens.{MessageTokens, is_unique_token}
use thunderchat_server.Messaging.Tokens.Replay.{checked_includes, is_unique_token_lem}
use thunderchat_server.Messaging.Sending.{
  answered, send_to_user, SendingDb, check_unique_token, handle_send_direct_message,
}
use thunderchat_server.Messaging.Drafts.{Payload}
use thunderchat_server.Messaging.Sending.Laws.{check_unique_token_ok, send_to_user_lem}

-- A token that was new is not new again.
is_unique_token_again :
    (token : String) (client_id : ℕ) (t t' : MessageTokens)
    → is_unique_token client_id token t ≡ (true, t')
    → is_unique_token client_id token t' ≡ (false, t')
unfolding is_unique_token
is_unique_token_again token client_id t t' h = ground (
  arith,
  checked_includes client_id client_id token token t,
  is_unique_token_lem client_id client_id token t',
  eq_refl client_id,
  eq_refl token,
)

module _ (db : ChatClients) (friends : FriendClients) (parse_int : String → Option ℕ) where
  -- A direct message that is sent was allowed, and its token was new; it stands once more among the
  -- messages, from the client to the receiver in a direct chat of the two, which is in the table with
  -- the message as its last one. Nothing else was added to the messages; friends and blocks are as they
  -- were.
  pub handle_send_direct_message_lem :
      (socket : String) (client_id receiver_id : ℕ) (p : Payload) (s s' : SendingDb)
      (m : ChatMessage)
      → handle_send_direct_message db friends parse_int socket client_id receiver_id p s
        ≡ (ok m, s')
      → (check_can_send_message_in_direct_chat friends client_id receiver_id s.friend ≡ ok tt)
        × (is_unique_token client_id p.token s.tokens ≡ (true, s'.tokens))
        × (m.author_id ≡ client_id)
        × (m.recipient_id ≡ some receiver_id)
        × ((c : DirectChat) × (chat_between client_id receiver_id c ≡ true)
            × Memᴰ c s'.chat.direct_chats
            × (c.last_sent_message_id ≡ some m.id)
            × (m.direct_chat_id ≡ some c.id))
        × (s'.chat.messages ≡ m ∷ s.chat.messages)
        × (s'.friend ≡ s.friend)
  unfolding handle_send_direct_message
  handle_send_direct_message_lem socket client_id receiver_id p s s' m h =
      let (u0, s0, may, h0) =
        bind_ok
          (answered
            (λ t. check_can_send_message_in_direct_chat friends client_id receiver_id t.friend))
          (λ u.
            check_unique_token p.token client_id
            >> send_to_user db friends parse_int socket client_id receiver_id p)
          s s' m h in
      let (u1, s1, unique, h1) =
        bind_ok (check_unique_token p.token client_id)
          (λ u. send_to_user db friends parse_int socket client_id receiver_id p) s0 s' m h0 in
      let v = send_to_user_lem db friends parse_int socket client_id receiver_id p s1 s' m h1 in
      let (unused, same_chat, friend) = check_unique_token_ok p.token client_id s0 s1 u1 unique in
      let (author, recipient, chat, stored, kept, tokens) = v in
      let same : s0 ≡ s = ground arith in
      let allowed : check_can_send_message_in_direct_chat friends client_id receiver_id s.friend
          ≡ ok tt =
        ground arith in
      (
        allowed,
        rw (← same, tokens) unused,
        author,
        recipient,
        chat,
        rw (← same, ← same_chat) stored,
        rw (← same, ← friend) kept,
      )

  -- After a direct message that is sent, no message with its token is sent by its client, whatever
  -- it says and whomever it goes to: an exception is thrown and everything stays as it is.
  pub handle_send_direct_message-once :
      (socket : String) (client_id receiver_id : ℕ) (p : Payload) (s s' : SendingDb)
      (m : ChatMessage) (next_socket : String) (next_receiver_id : ℕ) (q : Payload)
      → handle_send_direct_message db friends parse_int socket client_id receiver_id p s
        ≡ (ok m, s')
      → q.token ≡ p.token
      → (e : Exception) × (handle_send_direct_message db friends parse_int next_socket client_id
            next_receiver_id q s'
          ≡ (err e, s'))
  unfolding handle_send_direct_message check_unique_token
  handle_send_direct_message-once socket client_id receiver_id p s s' m next_socket next_receiver_id
        q h same =
      let sent = handle_send_direct_message_lem socket client_id receiver_id p s s' m h in
      let again = is_unique_token_again p.token client_id s.tokens s'.tokens sent.1 in
      elim (Result-cases
        (check_can_send_message_in_direct_chat friends client_id next_receiver_id s'.friend)) [
          | inr (e, refused) ↦ (e, ground arith)
          | inl (u, allowed) ↦ (ws message_overlaps, ground arith)
        ]
