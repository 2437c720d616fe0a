-- ===== src/Messages/RecallLaws.antt =====
-- What taking back a message changes, for whom it works, and who is told.
use thunderchat_server.Base.{
  ℕ, ◌≡◌, ◌≢◌, refl, ◌∙◌, Bool, true, false, not, ◌&&◌, none, some, List, [], ◌∷◌, map, arith, ◌==◌,
  if◌then◌else◌, ◌⊎◌, inl, inr, count, length, length-map, nat_eq, nat_beq_iff, Option-cases,
  Bool-cases,
}
use mathlib.Core.List.{Memᴰ}
use thunderchat_server.Base.Prisma.{mem-count}
use thunderchat_server.Connection.{get_connected_client}
use thunderchat_server.Messages.{
  ChatMessage, DirectChat, ChatDb, ChatClients, has_message_id, has_direct_chat_id, index_deleted,
}
use thunderchat_server.Messages.Recall.{
  recalled, transaction_error, recall_message, handle_reply_messages, prepare_update_data,
}

-- A change of the messages with an id leaves the others.
changed :
    (p : ChatMessage → Bool) (f : ChatMessage → ChatMessage) (q : ChatMessage → Bool)
    (ms : List ChatMessage)
    → ((m : ChatMessage) → p m ≡ true → q (f m) ≡ q m)
    → count q (map (λ m. if p m then f m else m) ms) ≡ count q ms
changed p f q [] same = refl
changed p f q (m ∷ ms) same = ground (arith, changed p f q ms same, same m)

none_left :
    (id : ℕ) (f : ChatMessage → ChatMessage) (ms : List ChatMessage)
    → ((m : ChatMessage) → (f m).is_deleted ≡ true)
    → count
        (λ m. has_message_id id m && not m.is_deleted)
        (map (λ m. if has_message_id id m then f m else m) ms)
      ≡ 0
none_left id f [] gone = refl
none_left id f (m ∷ ms) gone = ground (arith, none_left id f ms gone, gone m)

module _ (db : ChatClients) where
  open db use {message, direct_chat}

  handle_reply_messages-messages :
      (id : ℕ) (m : ChatMessage) (s : ChatDb)
      → (handle_reply_messages db id m s).messages ≡ s.messages
  unfolding handle_reply_messages
  handle_reply_messages-messages id m s = ground arith

  -- A message that is taken back is one that was in the table with the user as its author. It is
  -- deleted, with no text and no message that it answers; no message with its id is left that is
  -- not deleted, there are as many messages as before, and those with other ids are unchanged.
  pub recall_message_lem :
      (id u : ℕ) (s s' : ChatDb) (m : ChatMessage)
      → recall_message db id u s ≡ (recalled m, s')
      → ((old : ChatMessage) × Memᴰ old s.messages × (old.id ≡ id) × (old.author_id ≡ u))
        × (m.is_deleted ≡ true)
        × (m.content ≡ "")
        × (m.reply_to_id ≡ none)
        × (length s'.messages ≡ length s.messages)
        × (count (λ x. has_message_id id x && not x.is_deleted) s'.messages ≡ 0)
        × ((q : ChatMessage → Bool)
            → count (λ x. not (has_message_id id x) && q x) s'.messages
              ≡ count (λ x. not (has_message_id id x) && q x) s.messages)
  unfolding recall_message
  recall_message_lem id u s s' m e =
      elim (Option-cases (message.find_first (has_message_id id) s.messages)) [
        | inl absent ↦ absurd (ground arith)
        | inr (old, hit) ↦
            let (named, there) = message.find_first-some (has_message_id id) s.messages old hit in
            let f = prepare_update_data old.type in
            elim (Option-cases (message.update (has_message_id id) f s.messages)) [
              | inl failed ↦ absurd (ground arith)
              | inr ((x, ms), done) ↦
                  let (before, _, _, new, rows) =
                    message.update-some (has_message_id id) f s.messages x ms done in
                  let now : s'.messages
                      ≡ map (λ y. if has_message_id id y then f y else y) s.messages =
                    ground (arith, handle_reply_messages-messages id x (record s { messages = ms }))
                    ∙ rows in
                  let is : m ≡ f before = ground arith ∙ new in
                  (
                    (
                      old,
                      there,
                      ground (arith, nat_beq_iff old.id id),
                      ground (arith, nat_beq_iff old.author_id u),
                    ),
                    rw is refl,
                    rw is refl,
                    rw is refl,
                    rw now (length-map (λ y. if has_message_id id y then f y else y) s.messages),
                    rw now (none_left id f s.messages (λ y. refl)),
                    λ q. rw now (
                        changed (has_message_id id) f (λ x. not (has_message_id id x) && q x)
                          s.messages (λ y own. ground arith)),
                  )
            ]
      ]

  -- A user who wrote no message with the id gets an answer of failure and changes and sends
  -- nothing.
  pub recall_message-others :
      (id u : ℕ) (s : ChatDb)
      → count (λ m. has_message_id id m && m.author_id == u) s.messages ≡ 0
      → ((recall_message db id u s).0 ≢ transaction_error)
        × ((m : ChatMessage) → (recall_message db id u s).0 ≢ recalled m)
        × ((recall_message db id u s).1 ≡ s)
  unfolding recall_message
  recall_message-others id u s nobody =
      elim (Option-cases (message.find_first (has_message_id id) s.messages)) [
        | inl absent ↦ ground arith
        | inr (old, hit) ↦
            let (named, there) = message.find_first-some (has_message_id id) s.messages old hit in
            elim (Bool-cases (old.author_id == u)) [
              | inr other ↦ ground arith
              | inl own ↦ absurd (
                  omega (
                    arith,
                    mem-count (λ m. has_message_id id m && m.author_id == u) there (ground arith),
                  ))
            ]
      ]

  -- Where a message of a direct chat is taken back and one of the two users of the chat has no
  -- entry among the clients, no socket is told: the only new event is that to the search index.
  pub recall_message-offline :
      (id u : ℕ) (s s' : ChatDb) (m : ChatMessage) (d : ℕ) (chat : DirectChat)
      → recall_message db id u s ≡ (recalled m, s')
      → m.direct_chat_id ≡ some d
      → (d == 0) ≡ false
      → direct_chat.find_first (has_direct_chat_id d) s.direct_chats ≡ some chat
      → (get_connected_client s.clients chat.creator_id ≡ none)
        ⊎ (get_connected_client s.clients chat.recipient_id ≡ none)
      → (old : ChatMessage) × (s'.events ≡ index_deleted old ∷ s.events)
  unfolding recall_message handle_reply_messages
  recall_message-offline id u s s' m d chat e in_chat given found off =
      elim (Option-cases (message.find_first (has_message_id id) s.messages)) [
        | inl absent ↦ absurd (ground arith)
        | inr (old, hit) ↦ (old, ground arith)
      ]
