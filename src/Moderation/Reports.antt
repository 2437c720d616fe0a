-- ===== src/Moderation/Reports.antt =====
-- admin/admin.service.ts: what an administrator does about a report. A transaction whose query is
-- rejected, or whose commit is, throws and changes no table; the files and the sockets are outside of
-- it.
pub mod Laws
pub mod Sent
use Prim.Native.Nat.{◌*◌}
use thunderchat_server.Base.{
  ℕ, ◌+◌, String, Bool, true, false, not, Option, none, some, List, [], ◌∷◌, ◌++◌, ◌==◌,
  if◌then◌else◌, find, map, is_some, nat_eq, string_eq, includes,
}
use thunderchat_server.Base.Action.{
  db_error, Result, ok, err, Action, pure, throw, gets, query, modify, ◌>>=◌, ◌>>◌,
}
use thunderchat_server.Account.{Account, has_account_id, has_email}
use thunderchat_server.Connection.{Clients, get_connected_client}
use thunderchat_server.Messages.{MessageType, sticker, media, DirectChat, has_direct_chat_id}
use thunderchat_server.Moderation.{
  ReportStatus, pending, resolved, dismissed, ViolationActionType, warning, temporary_ban,
  permanent_ban, ViolationReport, ViolationAction, ReportedRow, MessageMedia, ModerationDb,
  ModerationClients, has_report_id,
}
use thunderchat_server.Moderation.Violations.{ban_messages}

-- The codes of a response that is no success.
pub data Failure : Type 0 where
  report_not_found user_not_found report_already_processed invalid_banned_until : Failure
  email_already_exists : Failure

pub data Response : Type 0 where
  success : Response
  failure : Failure → Response

abbrev pub is_unprocessed : ViolationReport → Bool
is_unprocessed r = elim r.report_status [ pending ↦ true | _ ↦ false ]

-- `bannedUntilIso`, where it is no empty string: the time that it reads as, if any.
pub data Until : Type 0 where
  absent invalid : Until
  at : ℕ → Until

-- `new Date(Date.now() + banDuration * 24 * 60 * 60 * 1000)`, where the duration is not 0.
abbrev from_duration : Option ℕ → ℕ → Option ℕ
from_duration none now = none
from_duration (some d) now = if d == 0 then none else some (now + d * 86400000)

-- The end of a ban; `none` where the answer is that the value is invalid.
unfoldable pub banned_until_of : ViolationActionType → Until → Option ℕ → ℕ → Option (Option ℕ)
banned_until_of temporary_ban invalid duration now = none
banned_until_of temporary_ban (at t) duration now = some (some t)
banned_until_of temporary_ban absent duration now = some (from_duration duration now)
banned_until_of _ given duration now = some none

abbrev pub new_action : ℕ → ViolationActionType → String → Option ℕ → ℕ → ℕ → ViolationAction
new_action report_id ban_type reason banned_until now id = record {
  id = id;
  action_reason = reason;
  action_type = ban_type;
  banned_until = banned_until;
  report_id = report_id;
  created_at = now;
}

abbrev pub with_status : ReportStatus → ViolationReport → ViolationReport
with_status status r = record r { report_status = status }

module _ (db : ModerationClients) where
  open db use {user, violation_report, violation_action, commits}

  abbrev record_action :
      (ℕ → ViolationAction) → ModerationDb → Option (ViolationAction × ModerationDb)
  record_action mk s = elim (violation_action.create mk s.actions) [
    | none ↦ none
    | some (a, actions) ↦ some (a, record s { actions = actions })
  ]

  abbrev store_status : ℕ → ReportStatus → ModerationDb → Option (ViolationReport × ModerationDb)
  store_status report_id status s =
      elim (violation_report.update (has_report_id report_id) (with_status status) s.reports) [
        | none ↦ none
        | some (r, reports) ↦ some (r, record s { reports = reports })
      ]

  abbrev take_action :
      ℕ → ViolationActionType → String → Option ℕ → List ℕ → ℕ → Action ModerationDb Response
  unfolding ban_messages
  take_action report_id ban_type reason banned_until message_ids now = do
    before ← gets (λ s. s)
    query (record_action (new_action report_id ban_type reason banned_until now))
    query (store_status report_id resolved)
    ban_messages db message_ids before
    pure success

  abbrev with_end :
      ℕ
      → ViolationActionType
      → String
      → Option (Option ℕ)
      → List ℕ
      → ℕ
      → Action ModerationDb Response
  unfolding ban_messages
  with_end report_id ban_type reason none message_ids now = pure (failure invalid_banned_until)
  with_end report_id ban_type reason (some banned_until) message_ids now =
      take_action report_id ban_type reason banned_until message_ids now

  abbrev on_report :
      Option ViolationReport
      → ℕ
      → ViolationActionType
      → String
      → Option (Option ℕ)
      → List ℕ
      → ℕ
      → Action ModerationDb Response
  unfolding ban_messages
  on_report none report_id ban_type reason end message_ids now s =
      (ok (failure report_not_found), s)
  on_report (some r) report_id ban_type reason end message_ids now s =
      let found = user.find_first (has_account_id r.reported_user_id) s.users in
      if not (is_some found)
      then (ok (failure user_not_found), s)
      else (if is_unprocessed r
          then with_end report_id ban_type reason end message_ids now s
          else (ok (failure report_already_processed), s))

  -- Files that are deleted and events that are sent are not undone.
  abbrev pub tables_back : ModerationDb → ModerationDb → ModerationDb
  tables_back before s = record before { deleted_files = s.deleted_files; sent = s.sent }

  -- A transaction that has failed, or lasted too long, is not committed. One that answers a failure
  -- has written nothing.
  abbrev pub committed :
      ModerationDb → Result Response × ModerationDb → Result Response × ModerationDb
  committed before (ok success, s) =
      if commits s then (ok success, s) else (err db_error, tables_back before s)
  committed before (ok (failure f), s) = (ok (failure f), s)
  committed before (err e, s) = (err e, tables_back before s)

  abbrev pub in_transaction : Action ModerationDb Response → Action ModerationDb Response
  in_transaction f s = committed s (f s)

  unfoldable pub ban_reported_user :
      ℕ
      → ViolationActionType
      → String
      → Option ℕ
      → Until
      → List ℕ
      → ℕ
      → Action ModerationDb Response
  unfolding ban_messages banned_until_of
  ban_reported_user report_id ban_type reason ban_duration given message_ids now s =
      in_transaction
        (on_report (violation_report.find_first (has_report_id report_id) s.reports) report_id
          ban_type reason (banned_until_of ban_type given ban_duration now) message_ids now)
        s

  unfoldable pub update_violation_report_status : ℕ → ReportStatus → Action ModerationDb Response
  update_violation_report_status report_id status s =
      elim (violation_report.find_first (has_report_id report_id) s.reports) [
        | none ↦ (ok (failure report_not_found), s)
        | some r ↦
            if is_unprocessed r
            then (query (store_status report_id status) >> pure success) s
            else (ok (failure report_already_processed), s)
      ]

  -- `canProcess` and `currentStatus`
  unfoldable pub check_report_processability : ℕ → ModerationDb → Bool × Option ReportStatus
  check_report_processability report_id s =
      elim (violation_report.find_first (has_report_id report_id) s.reports) [
        | none ↦ (false, none)
        | some r ↦ (is_unprocessed r, some r.report_status)
      ]

  abbrev other_account : Option Account → ℕ → Bool
  other_account none user_id = false
  other_account (some a) user_id = not (a.id == user_id)

  abbrev set_email : ℕ → String → ModerationDb → Option (Account × ModerationDb)
  set_email user_id new_email s =
      elim (user.update (has_account_id user_id) (λ a. record a { email = new_email }) s.users) [
        | none ↦ none
        | some (a, users) ↦ some (a, record s { users = users })
      ]

  unfoldable pub update_user_email : ℕ → String → Action ModerationDb Response
  update_user_email user_id new_email s =
      let account = user.find_first (has_account_id user_id) s.users in
      let existing = user.find_first (has_email new_email) s.users in
      if not (is_some account)
      then (ok (failure user_not_found), s)
      else (if other_account existing user_id
          then (ok (failure email_already_exists), s)
          else (query (set_email user_id new_email) >> pure success) s)
