-- ===== src/Account/Passwords/Laws.antt =====
-- The tries that a code allows, and the codes that are sent.
use thunderchat_server.Base.{
  ℕ, suc, ◌+◌, ◌≤◌, ◌≡◌, refl, ap, ◌∙◌, arith, String, true, false, none, some, ◌==◌, nat_eq,
  string_eq, ltb, leb,
}
use thunderchat_server.Base.JsMap.{get, set, get-set, get-set_self}
use thunderchat_server.Base.Action.{
  otp_invalid_or_expired, otp_attempts_exceeded, password_message, bad_request, ok, err,
}
use thunderchat_server.Account.{AccountDb, AccountClient, Libraries}
use thunderchat_server.Account.Store.{
  otp_key, token_key, otp_hash, expires_at, attempts, max_attempts, last_sent_at, text, number,
  Bucket, KeyStore, store_hget_all, store_hset, store_hincr_by, store_expire, store_del,
  store_set_ex, field_eq, key_eq, bucket_or_empty,
}
use thunderchat_server.Account.Passwords.{
  otp_ttl_ms, reset_token_ttl_ms, seconds, on_store, issue_otp, verify_password_reset_otp,
}

-- A code that was sent: its hash, the time it ends at, and the wrong tries so far.
pub record IsSent (email h : String) (ends tries : ℕ) (s : KeyStore) : Type 0 where
  pub bucket : Bucket
  pub here : get s.hashes (otp_key email) ≡ some bucket
  pub hashed : get bucket otp_hash ≡ some (text h)
  pub expires : get bucket expires_at ≡ some (number ends)
  pub tried : get bucket attempts ≡ some (number tries)
  pub most : get bucket max_attempts ≡ some (number 5)

pub issue_otp-IsSent :
    (lib : Libraries) (email otp salt : String) (now : ℕ) (s : KeyStore)
    → IsSent email (lib.hash otp salt) (now + otp_ttl_ms) 0 (issue_otp lib email otp salt now s)
unfolding store_hset store_expire get set
issue_otp-IsSent lib email otp salt now s =
    let old = bucket_or_empty (get s.hashes (otp_key email)) in
    let h = text (lib.hash otp salt) in
    let b1 = set old otp_hash h in
    let b2 = set b1 expires_at (number (now + otp_ttl_ms)) in
    let b3 = set b2 attempts (number 0) in
    let b4 = set b3 max_attempts (number 5) in
    record {
      bucket = set b4 last_sent_at (number now);
      here = get-set_self s.hashes (otp_key email) _;
      hashed =
          get-set b4 last_sent_at otp_hash _
          ∙ get-set b3 max_attempts otp_hash _
          ∙ get-set b2 attempts otp_hash _
          ∙ get-set b1 expires_at otp_hash _
          ∙ get-set_self old otp_hash h;
      expires =
          get-set b4 last_sent_at expires_at _
          ∙ get-set b3 max_attempts expires_at _
          ∙ get-set b2 attempts expires_at _
          ∙ get-set_self b1 expires_at _;
      tried =
          get-set b4 last_sent_at attempts _
          ∙ get-set b3 max_attempts attempts _
          ∙ get-set_self b2 attempts _;
      most = get-set b4 last_sent_at max_attempts _ ∙ get-set_self b3 max_attempts _;
    }

-- A wrong try, and what becomes of the tries.
pub store_hincr_by-IsSent :
    (email h : String) (ends tries : ℕ) (s : KeyStore)
    → IsSent email h ends tries s
    → IsSent email h ends (suc tries) (store_hincr_by (otp_key email) attempts 1 s)
unfolding store_hincr_by
store_hincr_by-IsSent email h ends tries s v = record {
  bucket = set v.bucket attempts (number (suc tries));
  here =
      rw (v.here, v.tried)
        (get-set_self s.hashes (otp_key email) _
          ∙ ap some (ap (λ n. set v.bucket attempts (number n)) (omega arith)));
  hashed = get-set v.bucket attempts otp_hash _ ∙ v.hashed;
  expires = get-set v.bucket attempts expires_at _ ∙ v.expires;
  tried = get-set_self v.bucket attempts _;
  most = get-set v.bucket attempts max_attempts _ ∙ v.most;
}

module _ (lib : Libraries) (user_client : AccountClient) where
  pub verify_gone :
      (email otp drawn : String) (now : ℕ) (s : AccountDb)
      → get s.store.hashes (otp_key email) ≡ none
      → verify_password_reset_otp lib user_client email otp now drawn s
        ≡ (err (bad_request (password_message otp_invalid_or_expired)), s)
  unfolding verify_password_reset_otp store_hget_all get
  verify_gone email otp drawn now s gone = rw gone refl

  module _ (email otp drawn h : String) (ends tries now : ℕ) (s : AccountDb)
      (nonempty : (h == "") ≡ false) (early : now ≤ ends)
      (v : IsSent email h ends tries s.store) where
    pub verify_exceeded :
        ltb tries 5 ≡ false
        → verify_password_reset_otp lib user_client email otp now drawn s ≡ (
          err (bad_request (password_message otp_attempts_exceeded)),
          on_store (store_del (otp_key email)) s,
        )
    unfolding verify_password_reset_otp store_hget_all
    verify_exceeded many =
        let late : ltb ends now ≡ false = ground arith in
        let over : leb 5 tries ≡ true = ground arith in
        rw (v.here, v.hashed, v.expires, v.tried, v.most, nonempty, late, over) refl

    pub verify_wrong :
        ltb tries 5 ≡ true
        → lib.compare otp h ≡ false
        → verify_password_reset_otp lib user_client email otp now drawn s ≡ (
          err (bad_request (password_message otp_invalid_or_expired)),
          on_store (store_hincr_by (otp_key email) attempts 1) s,
        )
    unfolding verify_password_reset_otp store_hget_all
    verify_wrong few wrong =
        let late : ltb ends now ≡ false = ground arith in
        let over : leb 5 tries ≡ false = ground arith in
        ground (arith, v.here, v.hashed, v.expires, v.tried, v.most)

    pub verify_right :
        ltb tries 5 ≡ true
        → lib.compare otp h ≡ true
        → verify_password_reset_otp lib user_client email otp now drawn s ≡ (
          ok drawn,
          on_store
              (λ k.
                store_del
                  (otp_key email)
                  (store_set_ex (token_key email) (seconds reset_token_ttl_ms) drawn now k))
              s,
        )
    unfolding verify_password_reset_otp store_hget_all
    verify_right few right =
        let late : ltb ends now ≡ false = ground arith in
        let over : leb 5 tries ≡ false = ground arith in
        rw (v.here, v.hashed, v.expires, v.tried, v.most, nonempty, late, over, right) refl
