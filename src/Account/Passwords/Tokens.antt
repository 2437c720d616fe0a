-- ===== src/Account/Passwords/Tokens.antt =====
-- What a token can reset, and how often.
use thunderchat_server.Base.{
  ℕ, ◌≡◌, refl, ap, ◌∙◌, arith, String, true, false, none, some, List, [], ◌∷◌, ◌==◌, if◌then◌else◌,
  map, nat_eq, string_eq, eq_iff, inl, inr, Bool-cases, Option-cases,
}
use thunderchat_server.Base.JsMap.{get, set, delete, get-delete, get-set}
use thunderchat_server.Base.Action.{
  reset_token_invalid_or_expired, password_message, bad_request, ok, err,
}
use thunderchat_server.Account.{
  Account, AccountDb, AccountClient, Libraries, has_email, has_account_id,
}
use thunderchat_server.Account.Store.{
  Key, otp_key, token_key, KeyStore, store_get, store_del, store_set_ex, key_eq, same_key_iff,
}
use thunderchat_server.Account.Passwords.{
  all_accounts, matched_email, is_token, verify_password_reset_otp, reset_password_with_token,
}

-- Where no key has the token, no email matches it.
matched_email-none :
    (users : List Account) (reset_token : String) (s : KeyStore)
    → ((k : Key) → is_token (get s.key_values k) reset_token ≡ false)
    → matched_email users reset_token s ≡ none
unfolding matched_email store_get
matched_email-none [] reset_token s free = refl
matched_email-none (a ∷ users) reset_token s free =
    rw (free (token_key a.email)) (matched_email-none users reset_token s free)

-- The email that matches has the token.
matched_email-some :
    (users : List Account) (reset_token email : String) (s : KeyStore)
    → matched_email users reset_token s ≡ some email
    → is_token (get s.key_values (token_key email)) reset_token ≡ true
unfolding matched_email store_get
matched_email-some [] reset_token email s h = absurd (ground arith)
matched_email-some (a ∷ users) reset_token email s h =
    elim (Bool-cases (is_token (get s.key_values (token_key a.email)) reset_token)) [
      | inl here ↦ ground arith
      | inr other ↦ matched_email-some users reset_token email s (ground arith)
    ]

module _ (lib : Libraries) (user_client : AccountClient) where
  open user_client use {find_first, find_many, update}

  -- What a reset that succeeds has done.
  record IsReset (reset_token hashed : String) (s s' : AccountDb) : Type 0 where
    email : String
    account : Account
    matched : matched_email (find_many all_accounts s.users) reset_token s.store ≡ some email
    found : find_first (has_email email) s.users ≡ some account
    users :
        s'.users
        ≡ map (λ a. if a.id == account.id then record a { password = hashed } else a) s.users
    store : s'.store ≡ store_del (token_key email) s.store

  reset_lem :
      (reset_token new_password salt : String) (s s' : AccountDb)
      → reset_password_with_token lib user_client reset_token new_password salt s ≡ (ok tt, s')
      → IsReset reset_token (lib.hash new_password salt) s s'
  unfolding reset_password_with_token
  reset_lem reset_token new_password salt s s' h =
      let hashed = lib.hash new_password salt in
      elim (Option-cases (matched_email (find_many all_accounts s.users) reset_token s.store)) [
        | inl nobody ↦ absurd (ground arith)
        | inr (email, matched) ↦ elim (Option-cases (find_first (has_email email) s.users)) [
          | inl missing ↦ absurd (ground arith)
          | inr (account, found) ↦
              elim (Option-cases (
                update (has_account_id account.id) (λ a. record a { password = hashed }) s.users)) [
                  | inl rejected ↦ absurd (ground arith)
                  | inr ((row, users), updated) ↦
                      let (old, member, passes, row_is, rows) =
                        user_client.update-some _ _ _ _ _ updated in
                      record {
                        email = email;
                        account = account;
                        matched = matched;
                        found = found;
                        users = ground arith;
                        store = ground arith;
                      }
                ]
        ]
      ]

  -- A token that stands under one key only is taken once: after a reset it resets nothing.
  pub reset_password_with_token-once :
      (reset_token : String) (first first_salt second second_salt : String) (s s' : AccountDb)
      → ((j k : Key)
          → is_token (get s.store.key_values j) reset_token ≡ true
          → is_token (get s.store.key_values k) reset_token ≡ true
          → j ≡ k)
      → reset_password_with_token lib user_client reset_token first first_salt s ≡ (ok tt, s')
      → reset_password_with_token lib user_client reset_token second second_salt s'
        ≡ (err (bad_request (password_message reset_token_invalid_or_expired)), s')
  unfolding reset_password_with_token store_del
  reset_password_with_token-once reset_token first first_salt second second_salt s s' unique h =
      let done = reset_lem reset_token first first_salt s s' h in
      let here = matched_email-some _ reset_token done.email s.store done.matched in
      let key = token_key done.email in
      let rows : s'.store.key_values ≡ delete s.store.key_values key =
        ap (λ t. t.key_values) done.store in
      let free : (k : Key) → is_token (get s'.store.key_values k) reset_token ≡ false = λ k.
        elim (Bool-cases (key == k)) [
          | inl same ↦ rw (rows, get-delete s.store.key_values key k, same) refl
          | inr other ↦ elim (Bool-cases (is_token (get s.store.key_values k) reset_token)) [
            | inl also ↦ absurd (ground (arith, unique key k here also, same_key_iff key k))
            | inr lacks ↦ rw (rows, get-delete s.store.key_values key k, other) lacks
          ]
        ] in
      rw (matched_email-none (find_many all_accounts s'.users) reset_token s'.store free) refl

  verify_ok :
      (email otp drawn : String) (now : ℕ) (s s1 : AccountDb) (r : String)
      → verify_password_reset_otp lib user_client email otp now drawn s ≡ (ok r, s1)
      → (r ≡ drawn)
        × (s1.users ≡ s.users)
        × (s1.store.key_values
            ≡ delete (set s.store.key_values (token_key email) drawn) (otp_key email))
  unfolding verify_password_reset_otp store_set_ex store_del
  verify_ok email otp drawn now s s1 r h = ground arith

  -- A code that was accepted for an email, with a token that no key had: what the token then resets
  -- is the password of the account of that email, and of no other account.
  pub verify_password_reset_otp-reset :
      (email otp drawn new_password salt : String) (now : ℕ) (s s1 s2 : AccountDb) (r : String)
      → ((k : Key) → is_token (get s.store.key_values k) drawn ≡ false)
      → verify_password_reset_otp lib user_client email otp now drawn s ≡ (ok r, s1)
      → reset_password_with_token lib user_client r new_password salt s1 ≡ (ok tt, s2)
      → (account : Account) × (find_first (has_email email) s.users ≡ some account)
        × (s2.users
            ≡ map
                (λ a.
                  if a.id == account.id
                  then record a { password = lib.hash new_password salt }
                  else a)
                s.users)
  unfolding verify_password_reset_otp store_set_ex store_del
  verify_password_reset_otp-reset email otp drawn new_password salt now s s1 s2 r fresh h k =
      let (drawn_is, same_users, values) = verify_ok email otp drawn now s s1 r h in
      let done = reset_lem r new_password salt s1 s2 k in
      let here = matched_email-some _ r done.email s1.store done.matched in
      let mine : email ≡ done.email = elim (Bool-cases (email == done.email)) [
        | inl same ↦ (eq_iff email done.email).0 same
        | inr other ↦ absurd (
            ground (
              arith,
              get-delete (set s.store.key_values (token_key email) drawn) (otp_key email)
                  (token_key done.email),
              get-set s.store.key_values (token_key email) (token_key done.email) drawn,
              fresh (token_key done.email),
            ))
      ] in
      (done.account, rw (← same_users, mine) done.found, done.users ∙ rw same_users refl)
