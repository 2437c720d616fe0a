-- ===== src/Account/Passwords.antt =====
-- user/user.service.ts: resetting a password with a code and a token, changing it, and new accounts.
-- The codes and tokens that `crypto` draws, and the salts, are arguments.
pub mod Laws
pub mod Tries
pub mod Tokens
use Prim.Native.Nat.{◌*◌, ◌/◌}
use thunderchat_server.Base.{
  ℕ, ◌-◌, ◌+◌, String, Bool, true, false, not, Option, none, some, List, [], ◌∷◌, ◌==◌, ◌&&◌,
  if◌then◌else◌, is_some, nat_eq, string_eq, ltb, leb,
}
use thunderchat_server.Base.JsMap.{get}
use thunderchat_server.Base.Action.{
  AuthMessage, user_existed, auth_message, PasswordMessage, otp_invalid_or_expired,
  otp_attempts_exceeded, reset_token_invalid_or_expired, old_password_incorrect, password_message,
  user_message, UserMessage, Exception, bad_request, not_found, conflict, internal_error, Result,
  ok, err, Action, pure, throw, gets, query, modify, throw_if, ◌>>=◌, ◌>>◌,
}
use thunderchat_server.Account.{
  AppRole, user, Account, AccountDb, AccountClient, Libraries, has_account_id, has_email,
}
use thunderchat_server.Account.Store.{
  Key, otp_key, token_key, Field, otp_hash, expires_at, attempts, max_attempts, last_sent_at,
  Stored, text, number, Bucket, KeyStore, number_of, store_set_ex, store_get, store_del,
  store_hget_all, store_hset, store_hincr_by, store_expire, field_eq, key_eq,
}

abbrev pub otp_ttl_ms : ℕ
otp_ttl_ms = 10 * 60 * 1000

abbrev pub reset_token_ttl_ms : ℕ
reset_token_ttl_ms = 15 * 60 * 1000

-- `Math.ceil(… / 1000)`
abbrev pub seconds : ℕ → ℕ
seconds ms = (ms + 999) / 1000

abbrev pub on_store : (KeyStore → KeyStore) → AccountDb → AccountDb
on_store f s = record s { store = f s.store }

-- Comparisons of numbers that may be NaN.
abbrev pub less : Option ℕ → Option ℕ → Bool
less (some a) (some b) = ltb a b
less _ _ = false

abbrev pub at_least : Option ℕ → Option ℕ → Bool
at_least (some a) (some b) = leb b a
at_least _ _ = false

-- `now - Number(existing.lastSentAt) < 60 * 1000`
abbrev pub sent_recently : Option Stored → ℕ → Bool
sent_recently (some (number n)) now = ltb (now - n) (60 * 1000)
sent_recently _ now = false

-- `record.otpHash`, where what is missing is an empty string too.
abbrev pub hash_in : Option Stored → String
hash_in (some (text h)) = h
hash_in _ = ""

abbrev pub is_token : Option String → String → Bool
is_token none reset_token = false
is_token (some t) reset_token = t == reset_token

-- An exception after the state has been changed.
abbrev pub fail_if : Bool → (AccountDb → AccountDb) → Exception → Action AccountDb (Unit {0})
fail_if c f e s = if c then (err e, f s) else (ok tt, s)

-- The first of the emails that has the token.
abbrev pub matched_email : List Account → String → KeyStore → Option String
unfolding store_get
matched_email [] reset_token s = none
matched_email (a ∷ users) reset_token s =
    if is_token (store_get (token_key a.email) s) reset_token
    then some a.email
    else matched_email users reset_token s

abbrev pub all_accounts : Account → Bool
all_accounts a = true

module _ (lib : Libraries) where
  open lib use {hash}

  abbrev pub issue_otp : String → String → String → ℕ → KeyStore → KeyStore
  unfolding store_hset store_expire
  issue_otp email otp salt now s = store_expire (otp_key email) (seconds otp_ttl_ms) now (
      store_hset (otp_key email)
        ((otp_hash, text (hash otp salt))
          ∷ (expires_at, number (now + otp_ttl_ms))
          ∷ (attempts, number 0)
          ∷ (max_attempts, number 5)
          ∷ (last_sent_at, number now)
          ∷ [])
        s)

module _ (lib : Libraries) (user_client : AccountClient) where
  open lib use {hash, compare, send_mail}
  open user_client use {find_first, find_many, update, create}

  unfoldable pub request_password_reset : String → String → String → ℕ → Action AccountDb (Unit {0})
  unfolding store_hget_all store_hset store_expire
  request_password_reset email otp salt now s =
      let existing = store_hget_all (otp_key email) s.store in
      if not (is_some (find_first (has_email email) s.users))
      then (ok tt, s)
      else (if sent_recently (get existing last_sent_at) now
          then (ok tt, s)
          else (if send_mail email otp
              then (
                ok tt,
                record s {
                  store = issue_otp lib email otp salt now s.store;
                  mails = (email, otp) ∷ s.mails;
                },
              )
              else (
                err internal_error,
                record s { store = issue_otp lib email otp salt now s.store },
              )))

  unfoldable pub verify_password_reset_otp : String → String → ℕ → String → Action AccountDb String
  unfolding store_hget_all store_hincr_by store_set_ex store_del
  verify_password_reset_otp email otp now reset_token = do
    found ← gets (λ s. store_hget_all (otp_key email) s.store)
    throw_if (hash_in (get found otp_hash) == "")
        (bad_request (password_message otp_invalid_or_expired))
    fail_if (less (number_of (get found expires_at)) (some now))
        (on_store (store_del (otp_key email)))
        (bad_request (password_message otp_invalid_or_expired))
    fail_if (at_least (number_of (get found attempts)) (number_of (get found max_attempts)))
        (on_store (store_del (otp_key email)))
        (bad_request (password_message otp_attempts_exceeded))
    fail_if (not (compare otp (hash_in (get found otp_hash))))
        (on_store (store_hincr_by (otp_key email) attempts 1))
        (bad_request (password_message otp_invalid_or_expired))
    modify (on_store (store_set_ex (token_key email) (seconds reset_token_ttl_ms) reset_token now))
    modify (on_store (store_del (otp_key email)))
    pure reset_token

  abbrev set_password : ℕ → String → Action AccountDb Account
  set_password id hashed = query λ s.
      elim (update (has_account_id id) (λ a. record a { password = hashed }) s.users) [
        | none ↦ none
        | some (a, users) ↦ some (a, record s { users = users })
      ]

  abbrev reset_account : String → String → Option Account → Action AccountDb (Unit {0})
  unfolding store_del
  reset_account email hashed none = do
    modify (on_store (store_del (token_key email)))
    throw (not_found (user_message UserMessage.user_not_found))
  reset_account email hashed (some a) = do
    set_password a.id hashed
    modify (on_store (store_del (token_key email)))

  abbrev reset_matched : Option String → String → Action AccountDb (Unit {0})
  unfolding store_del
  reset_matched none hashed = throw (bad_request (password_message reset_token_invalid_or_expired))
  reset_matched (some email) hashed = do
    account ← gets (λ s. find_first (has_email email) s.users)
    reset_account email hashed account

  unfoldable pub reset_password_with_token : String → String → String → Action AccountDb (Unit {0})
  unfolding store_get store_del
  reset_password_with_token reset_token new_password salt = do
    email ← gets (λ s. matched_email (find_many all_accounts s.users) reset_token s.store)
    reset_matched email (hash new_password salt)

  abbrev change_found : String → String → String → Option Account → Action AccountDb (Unit {0})
  change_found old_password new_password salt none =
      throw (bad_request (password_message PasswordMessage.user_not_found))
  change_found old_password new_password salt (some a) = do
    throw_if (not (compare old_password a.password))
        (bad_request (password_message old_password_incorrect))
    set_password a.id (hash new_password salt)
    pure tt

  unfoldable pub change_password : ℕ → String → String → String → Action AccountDb (Unit {0})
  change_password user_id old_password new_password salt = do
    account ← gets (λ s. find_first (has_account_id user_id) s.users)
    change_found old_password new_password salt account

  -- The profile of the new account is left out.
  unfoldable pub create_user : String → String → String → Action AccountDb Account
  create_user email password salt = do
    existing ← gets (λ s. find_first (has_email email) s.users)
    throw_if (is_some existing) (conflict (auth_message user_existed))
    query λ s.
        elim (create
          (λ id. record {
            id = id;
            email = email;
            password = hash password salt;
            role = AppRole.user;
          })
          s.users) [ none ↦ none | some (a, users) ↦ some (a, record s { users = users }) ]
