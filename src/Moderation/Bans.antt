-- ===== src/Moderation/Bans.antt =====
-- auth/auth.service.ts: whether a user is banned, and logging in. `bcryptjs` compares the passwords;
-- the token that is sent to the client stands as the id of its user.
pub mod Laws
use Prim.Native.Nat.{◌*◌, ◌/◌, ◌%◌}
use thunderchat_server.Base.{
  ℕ, ◌-◌, String, Bool, true, false, not, ◌&&◌, ◌||◌, Option, none, some, List, [], ◌∷◌, ◌++◌, ◌==◌,
  if◌then◌else◌, any, nat_eq, string_eq, ltb,
}
use thunderchat_server.Base.Action.{
  incorrect_email_password, invalid_admin_credentials, auth_message, user_not_found, user_message,
  account_banned, unauthorized, not_found, Result, ok, err, Action, pure, throw, gets, modify,
  throw_if, ◌>>=◌, ◌>>◌,
}
use thunderchat_server.Account.{AppRole, admin, user as plain_user, Account, Libraries, has_email}
use thunderchat_server.Moderation.{
  ViolationActionType, warning, temporary_ban, permanent_ban, ViolationReport, ViolationAction,
  ModerationDb, ModerationClients,
}

-- The parts of a remaining time that the message shows.
pub data Part : Type 0 where
  days hours minutes : ℕ → Part

abbrev pub day_ms : ℕ
day_ms = 24 * 60 * 60 * 1000

abbrev pub hour_ms : ℕ
hour_ms = 60 * 60 * 1000

abbrev pub minute_ms : ℕ
minute_ms = 60 * 1000

abbrev positive : (ℕ → Part) → ℕ → List Part
positive part n = if ltb 0 n then part n ∷ [] else []

-- Minutes also where they are 0, if nothing else is shown.
abbrev with_minutes : ℕ → List Part → List Part
with_minutes n [] = minutes n ∷ []
with_minutes n (p ∷ ps) = (p ∷ ps) ++ positive minutes n

unfoldable pub remaining_parts : ℕ → List Part
remaining_parts remaining =
    with_minutes (remaining % hour_ms / minute_ms)
      (positive days (remaining / day_ms) ++ positive hours (remaining % day_ms / hour_ms))

pub data BanStatus : Type 0 where
  not_banned : BanStatus
  permanently : (ban_reason : String) → BanStatus
  temporarily : (ban_reason : String) → (banned_until : ℕ) → List Part → BanStatus

abbrev pub is_banned : BanStatus → Bool
is_banned not_banned = false
is_banned _ = true

abbrev is_ban : ViolationActionType → Bool
is_ban warning = false
is_ban temporary_ban = true
is_ban permanent_ban = true

-- `Report: { reportedUserId }` and `actionType: { in: [...] }`
abbrev pub bans_user : List ViolationReport → ℕ → ViolationAction → Bool
bans_user reports user_id a =
    any (λ r. r.id == a.report_id && r.reported_user_id == user_id) reports && is_ban a.action_type

abbrev until : Option ℕ → String → ℕ → BanStatus
until none reason now = not_banned
until (some banned_until) reason now =
    if ltb now banned_until
    then temporarily reason banned_until (remaining_parts (banned_until - now))
    else not_banned

abbrev pub status_of : ViolationAction → ℕ → BanStatus
unfolding remaining_parts
status_of a now = elim a.action_type [
  | permanent_ban ↦ permanently a.action_reason
  | temporary_ban ↦ until a.banned_until a.action_reason now
  | warning ↦ not_banned
]

-- A query that is rejected is caught: then the user is not banned.
abbrev pub status_found : Option (Option ViolationAction) → ℕ → BanStatus
unfolding remaining_parts
status_found (some (some a)) now = status_of a now
status_found _ now = not_banned

abbrev has_admin_role : Account → Bool
has_admin_role a = elim a.role [ admin ↦ true | plain_user ↦ false ]

abbrev account_or_not_found : Option Account → Action ModerationDb Account
account_or_not_found none = throw (not_found (user_message user_not_found))
account_or_not_found (some a) = pure a

module _ (db : ModerationClients) where
  open db use {user, latest_action}

  unfoldable pub check_user_ban_status : ℕ → ℕ → ModerationDb → BanStatus
  unfolding remaining_parts
  check_user_ban_status user_id now s =
      status_found
        (latest_action.find_latest (λ a. a.created_at) (bans_user s.reports user_id) s.actions) now

  abbrev pub get_user_by_email : String → Action ModerationDb Account
  get_user_by_email email = do
    account ← gets (λ s. user.find_first (has_email email) s.users)
    account_or_not_found account

  abbrev send_client_jwt : ℕ → ModerationDb → ModerationDb
  send_client_jwt user_id s = record s { sessions = user_id ∷ s.sessions }

  module _ (lib : Libraries) where
    open lib use {compare}

    unfoldable pub login_user : String → String → ℕ → Action ModerationDb (Unit {0})
    unfolding check_user_ban_status
    login_user email password now = do
      account ← get_user_by_email email
      throw_if (not (compare password account.password))
          (unauthorized (auth_message incorrect_email_password))
      banned ← gets (λ s. is_banned (check_user_ban_status account.id now s))
      throw_if banned (unauthorized account_banned)
      modify (send_client_jwt account.id)

    unfoldable pub login_admin : String → String → ℕ → Action ModerationDb (Unit {0})
    unfolding check_user_ban_status
    login_admin email password now = do
      account ← get_user_by_email email
      throw_if (not (compare password account.password))
          (unauthorized (auth_message incorrect_email_password))
      throw_if (not (has_admin_role account))
          (unauthorized (auth_message invalid_admin_credentials))
      banned ← gets (λ s. is_banned (check_user_ban_status account.id now s))
      throw_if banned (unauthorized account_banned)
      modify (send_client_jwt account.id)
