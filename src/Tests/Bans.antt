-- ===== src/Tests/Bans.antt =====
-- A user who was reported twice, and the messages of a ban.
use thunderchat_server.Base.{◌≡◌, ◌⊎◌, refl, true, false, none, some, [], ◌∷◌, nat_eq}
use thunderchat_server.Base.Action.{Result, ok, err, db_error}
use thunderchat_server.Base.Prisma.InMemory.{in_memory}
use thunderchat_server.Base.Prisma.Ordered.{in_memory_latest}
use thunderchat_server.Account.{Account, user}
use thunderchat_server.Messages.{text, DirectChat}
use thunderchat_server.Moderation.{
  ViolationReport, ViolationAction, ReportedRow, ModerationDb, ModerationClients, pending, resolved,
  dismissed, permanent_ban, temporary_ban,
}
use thunderchat_server.Moderation.Reports.{
  absent, Failure, Response, success, failure, ban_reported_user, update_violation_report_status,
}
use thunderchat_server.Moderation.Reports.Laws.{
  IsBanned, ban_reported_user-unchanged, ban_reported_user-once,
}
use thunderchat_server.Moderation.Reports.Sent.{IsStale, ban_reported_user-IsStale}

abbrev tables : ModerationClients
tables = record {
  user = in_memory _;
  violation_report = in_memory _;
  violation_action = in_memory _;
  latest_action = in_memory_latest;
  message = in_memory _;
  message_media = in_memory _;
  direct_chat = in_memory _;
  commits = λ s. true;
}

abbrev bob : Account
bob = record { id = 2; email = "bob"; password = "secret"; role = user }

abbrev first_report : ViolationReport
first_report = record {
  id = 1;
  reporter_user_id = 1;
  reported_user_id = 2;
  report_status = resolved;
  created_at = 10;
}

abbrev second_report : ViolationReport
second_report = record first_report { id = 2; report_status = pending }

abbrev for_ever : ViolationAction
for_ever = record {
  id = 1;
  action_reason = "spam";
  action_type = permanent_ban;
  banned_until = none;
  report_id = 1;
  created_at = 20;
}

abbrev for_a_while : ViolationAction
for_a_while = record {
  id = 2;
  action_reason = "spam";
  action_type = temporary_ban;
  banned_until = some 100;
  report_id = 2;
  created_at = 30;
}

abbrev row : ReportedRow
row = record {
  id = 7;
  content = "bad";
  type = text;
  sticker_id = none;
  media_id = none;
  direct_chat_id = some 3;
  is_deleted = false;
  is_violated = false;
}

abbrev chat : DirectChat
chat = record { id = 3; creator_id = 1; recipient_id = 2; last_sent_message_id = none }

abbrev reported : ModerationDb
reported = record {
  users = bob ∷ [];
  reports = second_report ∷ first_report ∷ [];
  actions = for_ever ∷ [];
  messages = row ∷ [];
  media = [];
  direct_chats = chat ∷ [];
  clients = (1, "a" ∷ []) ∷ (2, "b" ∷ []) ∷ [];
  deleted_files = [];
  sent = [];
  sessions = [];
}

abbrev twice : ModerationDb
twice = record reported { actions = for_a_while ∷ for_ever ∷ [] }

abbrev after_ban : ModerationDb
after_ban = (ban_reported_user tables 2 temporary_ban "spam" (some 1) absent (7 ∷ []) 40 reported).1

-- A database that takes no transaction.
abbrev refusing : ModerationClients
refusing = record tables { commits = λ s. false }

abbrev not_committed : ModerationDb
not_committed =
    (ban_reported_user refusing 2 temporary_ban "spam" (some 1) absent (7 ∷ []) 40 reported).1

ban_reported_user-unchanged_example :
    (◌≡◌ {A = Result Response} (err db_error) (ok success))
    ⊎ ((not_committed ≡ record reported {
      deleted_files = not_committed.deleted_files;
      sent = not_committed.sent;
    })
        × (((not_committed.deleted_files ≡ reported.deleted_files)
              × (not_committed.sent ≡ reported.sent))
            ⊎ ((◌≡◌ {A = Result Response} (err db_error) (err db_error))
                × ((done : ModerationDb) × (refusing.commits done ≡ false)
                    × IsBanned refusing 2 temporary_ban "spam"
                        (some 1)
                        absent
                        (7 ∷ [])
                        40
                        reported
                        done
                    × (not_committed.deleted_files ≡ done.deleted_files)
                    × (not_committed.sent ≡ done.sent)))))
unfolding ban_reported_user
ban_reported_user-unchanged_example =
    ban_reported_user-unchanged refusing 2 temporary_ban "spam" (some 1) absent (7 ∷ []) 40 reported
      not_committed (err db_error) refl

ban_reported_user-once_example :
    ((f : Failure) × (ban_reported_user tables 2 permanent_ban "more" none absent [] 50 after_ban
        ≡ (ok (failure f), after_ban)))
    × ((f : Failure) × (update_violation_report_status tables 2 dismissed after_ban
          ≡ (ok (failure f), after_ban)))
unfolding ban_reported_user
ban_reported_user-once_example =
    ban_reported_user-once tables 2 temporary_ban "spam" (some 1) absent (7 ∷ []) 40 reported
      after_ban permanent_ban "more" none absent [] 50 dismissed refl

ban_reported_user-IsStale_example : IsStale after_ban.sent
unfolding ban_reported_user
ban_reported_user-IsStale_example =
    ban_reported_user-IsStale tables 2 temporary_ban "spam" (some 1) absent (7 ∷ []) 40 reported
      after_ban refl refl tt
