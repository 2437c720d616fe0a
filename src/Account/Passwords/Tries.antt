-- ===== src/Account/Passwords/Tries.antt =====
-- How many wrong codes the service takes, and when it sends another one.
use thunderchat_server.Base.{
  ℕ, suc, ◌+◌, ◌≤◌, ◌<◌, ◌≡◌, refl, subst, ◌∙◌, arith, String, true, false, none, some, List, [],
  ◌∷◌, ◌==◌, if◌then◌else◌, is_some, nat_eq, string_eq, ltb, length, All, inl, inr, ◌⊎◌, Bool-cases,
}
use thunderchat_server.Base.JsMap.{get, get-delete_self, get-set_self}
use thunderchat_server.Base.Action.{
  otp_invalid_or_expired, otp_attempts_exceeded, password_message, bad_request, Result, ok, err,
}
use thunderchat_server.Account.{AccountDb, AccountClient, Libraries, has_email}
use thunderchat_server.Account.Store.{
  otp_key, number, last_sent_at, KeyStore, store_hget_all, store_del, store_hset, store_expire,
  field_eq, key_eq,
}
use thunderchat_server.Account.Passwords.{
  otp_ttl_ms, sent_recently, issue_otp, request_password_reset, verify_password_reset_otp,
}
use thunderchat_server.Account.Passwords.Laws.{
  IsSent, issue_otp-IsSent, store_hincr_by-IsSent, verify_gone, verify_exceeded, verify_wrong,
  verify_right,
}

-- The answer to the right code after wrong tries in time.
abbrev pub answer_after : ℕ → String → Result String
answer_after tries reset_token =
    if ltb tries 5
    then ok reset_token
    else (if tries == 5
        then err (bad_request (password_message otp_attempts_exceeded))
        else err (bad_request (password_message otp_invalid_or_expired)))

-- A try: the code, the time, and the token that was drawn.
pub record Try : Type 0 where
  pub code : String
  pub tried_at : ℕ
  pub new_token : String

-- What the store says after so many wrong tries.
abbrev IsAfter : String → String → ℕ → ℕ → KeyStore → Type 0
IsAfter email h ends tries s =
    (tries ≤ 5) × IsSent email h ends tries s ⊎ (6 ≤ tries) × (get s.hashes (otp_key email) ≡ none)

module _ (lib : Libraries) (email otp salt : String) (sent : ℕ) (s : KeyStore) where
  stamp_of :
      get (store_hget_all (otp_key email) (issue_otp lib email otp salt sent s)) last_sent_at
      ≡ some (number sent)
  unfolding store_hget_all store_hset store_expire
  stamp_of =
      rw (get-set_self s.hashes (otp_key email) _) (get-set_self _ last_sent_at (number sent))

module _ (lib : Libraries) (user_client : AccountClient) (email : String) where
  abbrev pub after_tries : List Try → AccountDb → AccountDb
  unfolding verify_password_reset_otp
  after_tries [] s = s
  after_tries (t ∷ ts) s =
      after_tries ts
        (verify_password_reset_otp lib user_client email t.code t.tried_at t.new_token s).1

  -- A wrong code in time.
  abbrev pub IsWrong : String → ℕ → Try → Type 0
  IsWrong h ends t = (lib.compare t.code h ≡ false) × (t.tried_at ≤ ends)

  module _ (h : String) (ends : ℕ) (nonempty : (h == "") ≡ false) where
    one_try :
        (tries : ℕ) (t : Try) (s : AccountDb)
        → IsWrong h ends t
        → IsAfter email h ends tries s.store
        → IsAfter email h ends
            (suc tries)
            (verify_password_reset_otp lib user_client email t.code t.tried_at t.new_token
              s).1.store
    unfolding store_del
    one_try tries t s wrong (inr (many, gone)) =
        rw (verify_gone lib user_client email t.code t.new_token t.tried_at s gone)
          (inr (omega arith, gone))
    one_try tries t s wrong (inl (few, v)) = elim (Bool-cases (ltb tries 5)) [
      | inl less ↦
          rw
            (verify_wrong lib user_client email t.code t.new_token h ends tries t.tried_at s
              nonempty wrong.1 v less wrong.0)
            (inl (ground arith, store_hincr_by-IsSent email h ends tries s.store v))
      | inr five ↦
          rw
            (verify_exceeded lib user_client email t.code t.new_token h ends tries t.tried_at s
              nonempty wrong.1 v five)
            (inr (ground arith, get-delete_self s.store.hashes (otp_key email)))
    ]

    after_tries-IsAfter :
        (tries : ℕ) (ts : List Try) (s : AccountDb)
        → All (IsWrong h ends) ts
        → IsAfter email h ends tries s.store
        → IsAfter email h ends (tries + length ts) (after_tries ts s).store
    unfolding after_tries
    after_tries-IsAfter tries [] s wrong v =
        let same : tries ≡ tries + 0 = omega arith in
        subst (λ n. IsAfter email h ends n s.store) same v
    after_tries-IsAfter tries (t ∷ ts) s wrong v =
        let same : suc tries + length ts ≡ tries + suc (length ts) = omega arith in
        subst (λ n. IsAfter email h ends n (after_tries (t ∷ ts) s).store) same
          (after_tries-IsAfter (suc tries) ts _ wrong.1 (one_try tries t s wrong.0 v))

    right_try :
        (tries now : ℕ) (otp drawn : String) (s : AccountDb)
        → lib.compare otp h ≡ true
        → now ≤ ends
        → IsAfter email h ends tries s.store
        → (verify_password_reset_otp lib user_client email otp now drawn s).0
          ≡ answer_after tries drawn
    right_try tries now otp drawn s right early (inr (many, gone)) =
        rw (verify_gone lib user_client email otp drawn now s gone) (ground arith)
    right_try tries now otp drawn s right early (inl (few, v)) = elim (Bool-cases (ltb tries 5)) [
      | inl less ↦
          rw
            (verify_right lib user_client email otp drawn h ends tries now s nonempty early v less
              right)
            (ground arith)
      | inr five ↦
          rw
            (verify_exceeded lib user_client email otp drawn h ends tries now s nonempty early v
              five)
            (ground arith)
    ]

  unfoldable pub requested : String → String → ℕ → AccountDb → AccountDb
  unfolding request_password_reset
  requested otp salt sent s = (request_password_reset lib user_client email otp salt sent s).1

  module _ (otp salt : String) (now : ℕ) (s : AccountDb) where
    request_recent :
        sent_recently (get (store_hget_all (otp_key email) s.store) last_sent_at) now ≡ true
        → request_password_reset lib user_client email otp salt now s ≡ (ok tt, s)
    unfolding request_password_reset
    request_recent recent = ground arith

    request_new :
        is_some (user_client.find_first (has_email email) s.users) ≡ true
        → sent_recently (get (store_hget_all (otp_key email) s.store) last_sent_at) now ≡ false
        → lib.send_mail email otp ≡ true
        → (request_password_reset lib user_client email otp salt now s).1.mails
          ≡ (email, otp) ∷ s.mails
    unfolding request_password_reset
    request_new known later accepted = ground arith

    requested_users : (requested otp salt now s).users ≡ s.users
    unfolding requested request_password_reset
    requested_users = ground arith

  verify_users :
      (otp drawn : String) (now : ℕ) (s : AccountDb)
      → (verify_password_reset_otp lib user_client email otp now drawn s).1.users ≡ s.users
  unfolding verify_password_reset_otp
  verify_users otp drawn now s = ground arith

  after_tries_users : (ts : List Try) (s : AccountDb) → (after_tries ts s).users ≡ s.users
  unfolding after_tries
  after_tries_users [] s = refl
  after_tries_users (t ∷ ts) s =
      after_tries_users ts _ ∙ verify_users t.code t.new_token t.tried_at s

  module _ (otp salt : String) (sent : ℕ) (s : AccountDb)
      (known : is_some (user_client.find_first (has_email email) s.users) ≡ true)
      (later : sent_recently (get (store_hget_all (otp_key email) s.store) last_sent_at) sent
        ≡ false) where
    requested_store : (requested otp salt sent s).store ≡ issue_otp lib email otp salt sent s.store
    unfolding requested request_password_reset
    requested_store = ground arith

    requested-IsAfter :
        IsAfter email (lib.hash otp salt) (sent + otp_ttl_ms) 0 (requested otp salt sent s).store
    requested-IsAfter =
        rw requested_store (inl (omega arith, issue_otp-IsSent lib email otp salt sent s.store))

    sent_tries_lem :
        (ts : List Try)
        → All (IsWrong (lib.hash otp salt) (sent + otp_ttl_ms)) ts
        → IsAfter email
            (lib.hash otp salt)
            (sent + otp_ttl_ms)
            (length ts)
            (after_tries ts (requested otp salt sent s)).store
    sent_tries_lem ts wrong =
        let h = lib.hash otp salt in
        let s1 = requested otp salt sent s in
        let ends = sent + otp_ttl_ms in
        subst (λ n. IsAfter email h ends n (after_tries ts s1).store) (omega arith)
          (after_tries-IsAfter h ends (lib.hash_nonempty otp salt) 0 ts s1 wrong requested-IsAfter)

    -- After a request for an account, and not within a minute of the last code, the code is accepted
    -- after less than five wrong ones and refused after five or more, whatever time within the ten
    -- minutes each of them comes at.
    pub verify_password_reset_otp-after_tries :
        (ts : List Try) (now : ℕ) (drawn : String)
        → All (IsWrong (lib.hash otp salt) (sent + otp_ttl_ms)) ts
        → now ≤ sent + otp_ttl_ms
        → (verify_password_reset_otp lib user_client email otp now drawn
            (after_tries ts (requested otp salt sent s))).0
          ≡ answer_after (length ts) drawn
    verify_password_reset_otp-after_tries ts now drawn wrong early =
        right_try (lib.hash otp salt) (sent + otp_ttl_ms) (lib.hash_nonempty otp salt) (length ts)
          now otp drawn (after_tries ts (requested otp salt sent s)) (lib.compare-hash otp salt)
          early (sent_tries_lem ts wrong)

    -- After a request for an account, and not within a minute of the code before it, another request
    -- within a minute changes nothing and sends no mail.
    pub request_password_reset-cooldown :
        (next_otp next_salt : String) (now : ℕ)
        → now < sent + 60000
        → request_password_reset lib user_client email next_otp next_salt now
            (requested otp salt sent s)
          ≡ (ok tt, requested otp salt sent s)
    unfolding request_password_reset
    request_password_reset-cooldown next_otp next_salt now soon =
        let stamp = stamp_of lib email otp salt sent s.store in
        request_recent next_otp next_salt now (requested otp salt sent s)
          (rw (requested_store, stamp) (ground arith))

    -- After a request for an account, and not within a minute of the code before it, and after six
    -- or more wrong codes within the ten minutes, a request sends another code at once, at any time,
    -- where the mail is accepted.
    pub request_password_reset-after_tries :
        (ts : List Try) (next_otp next_salt : String) (now : ℕ)
        → All (IsWrong (lib.hash otp salt) (sent + otp_ttl_ms)) ts
        → 6 ≤ length ts
        → lib.send_mail email next_otp ≡ true
        → (request_password_reset lib user_client email next_otp next_salt now
            (after_tries ts (requested otp salt sent s))).1.mails
          ≡ (email, next_otp) ∷ (after_tries ts (requested otp salt sent s)).mails
    unfolding request_password_reset store_hget_all get
    request_password_reset-after_tries ts next_otp next_salt now wrong many accepted =
        let s1 = after_tries ts (requested otp salt sent s) in
        let users : s1.users ≡ s.users =
          after_tries_users ts (requested otp salt sent s) ∙ requested_users otp salt sent s in
        let gone : get s1.store.hashes (otp_key email) ≡ none = elim (sent_tries_lem ts wrong) [
          | inl (few, v) ↦ absurd (omega arith)
          | inr (over, gone) ↦ gone
        ] in
        request_new next_otp next_salt now s1 (rw users known) (rw gone refl) accepted
