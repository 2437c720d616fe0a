-- ===== src/Moderation/Reports/Sent.antt =====
-- What the clients are told of the messages that a ban deletes.
use thunderchat_server.Base.{
  ℕ, ◌≡◌, refl, ◌∙◌, arith, String, Bool, false, Option, none, some, List, [], ◌∷◌, ◌&&◌, count,
  All, inl, inr, Option-cases,
}
use thunderchat_server.Base.Action.{ok}
use thunderchat_server.Connection.{Clients, get_connected_client}
use thunderchat_server.Messages.{DirectChat}
use thunderchat_server.Moderation.{
  ViolationActionType, ReportedRow, ModerationDb, ModerationClients,
}
use thunderchat_server.Moderation.Reports.{Until, success, ban_reported_user}
use thunderchat_server.Moderation.Violations.{
  in_ids, send_each_row, send_both, chat_of, emit_message, emit_each, emit_deleted_messages_update,
  ban_messages,
}
use thunderchat_server.Moderation.Reports.Laws.{ban_cases}

abbrev pub says_deleted : ReportedRow → Bool
says_deleted m = m.is_deleted

-- None of the messages sent says that it is deleted.
abbrev pub IsStale : List (String × ReportedRow) → Type 0
IsStale = All (λ e. says_deleted e.1 ≡ false)

count_zero :
    (ms : List ReportedRow) → count says_deleted ms ≡ 0 → All (λ m. says_deleted m ≡ false) ms
count_zero [] h = tt
count_zero (m ∷ ms) h = (ground arith, count_zero ms (ground arith))

count_both :
    (p : ReportedRow → Bool) (ms : List ReportedRow)
    → count says_deleted ms ≡ 0
    → count (λ m. p m && says_deleted m) ms ≡ 0
count_both p [] h = refl
count_both p (m ∷ ms) h = ground (arith, count_both p ms)

send_each_row-IsStale :
    (sockets : List String) (m : ReportedRow) (sent : List (String × ReportedRow))
    → says_deleted m ≡ false
    → IsStale sent
    → IsStale (send_each_row sockets m sent)
send_each_row-IsStale [] m sent h v = v
send_each_row-IsStale (socket ∷ sockets) m sent h v = send_each_row-IsStale sockets m _ h (h, v)

send_both-IsStale :
    (a b : Option (List String)) (m : ReportedRow) (sent : List (String × ReportedRow))
    → says_deleted m ≡ false
    → IsStale sent
    → IsStale (send_both a b m sent)
send_both-IsStale none b m sent h v = v
send_both-IsStale (some a) none m sent h v = v
send_both-IsStale (some a) (some b) m sent h v =
    send_each_row-IsStale b m _ h (send_each_row-IsStale a m sent h v)

module _ (db : ModerationClients) where
  emit_each-IsStale :
      (clients : Clients) (chats : List DirectChat) (ms : List ReportedRow)
      (sent : List (String × ReportedRow))
      → All (λ m. says_deleted m ≡ false) ms
      → IsStale sent
      → IsStale (emit_each db clients chats ms sent)
  unfolding emit_each emit_message get_connected_client
  emit_each-IsStale clients chats [] sent h v = v
  emit_each-IsStale clients chats (m ∷ ms) sent h v =
      emit_each-IsStale clients chats ms _ h.1
        (elim (Option-cases (chat_of db chats m.direct_chat_id)) [
          | inl none_there ↦ rw (emit_message, none_there) v
          | inr (chat, there) ↦
              rw (emit_message, there)
                (send_both-IsStale (get_connected_client clients chat.creator_id)
                  (get_connected_client clients chat.recipient_id) m sent h.0 v)
        ])

  ban_messages-IsStale :
      (ids : List ℕ) (before s s' : ModerationDb)
      → ban_messages db ids before s ≡ (ok tt, s')
      → count says_deleted before.messages ≡ 0
      → IsStale s.sent
      → IsStale s'.sent
  unfolding ban_messages emit_deleted_messages_update
  ban_messages-IsStale [] before s s' h fresh v = let same : s' ≡ s = ground arith in rw same v
  ban_messages-IsStale (id ∷ ids) before s s' h fresh v =
      let reads = db.message.find_many (in_ids (id ∷ ids)) before.messages in
      let all : count says_deleted reads ≡ 0 =
        db.message.count-find_many (in_ids (id ∷ ids)) says_deleted before.messages
        ∙ count_both (in_ids (id ∷ ids)) before.messages fresh in
      let sent : s'.sent ≡ emit_each db before.clients before.direct_chats reads s.sent =
        ground arith in
      rw sent
        (emit_each-IsStale before.clients before.direct_chats reads s.sent (count_zero reads all) v)

  -- Where no message is deleted yet, a ban that deletes messages and succeeds tells the clients of
  -- none of them that it is deleted.
  pub ban_reported_user-IsStale :
      (report_id : ℕ) (ban_type : ViolationActionType) (reason : String) (duration : Option ℕ)
      (given : Until) (ids : List ℕ) (now : ℕ) (s s' : ModerationDb)
      → ban_reported_user db report_id ban_type reason duration given ids now s ≡ (ok success, s')
      → count says_deleted s.messages ≡ 0
      → IsStale s.sent
      → IsStale s'.sent
  ban_reported_user-IsStale report_id ban_type reason duration given ids now s s' h fresh v =
      elim (ban_cases db report_id ban_type reason duration given ids now s s' (ok success) h) [
        | inl (same, no_success) ↦ absurd (no_success refl)
        | inr (inr (thrown, done)) ↦ absurd (ground (arith, thrown))
        | inr (inl (_, done)) ↦ ban_messages-IsStale ids s _ s' done.messages_done fresh v
      ]
