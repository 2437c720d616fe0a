-- ===== src/Tests/Accounts.antt =====
-- A password that is reset with a code and a token.
use thunderchat_server.Base.{
  ℕ, ◌+◌, ◌≡◌, refl, arith, String, Bool, true, false, List, [], ◌∷◌, ◌==◌, if◌then◌else◌, map,
  some, eq_refl, string_eq, nat_eq, Bool-cases, inl, inr,
}
use thunderchat_server.Base.JsMap.{Map, get, set}
use thunderchat_server.Base.Action.{
  ok, err, bad_request, password_message, reset_token_invalid_or_expired,
}
use thunderchat_server.Base.Prisma.InMemory.{in_memory}
use thunderchat_server.Account.{
  AppRole, user, Account, AccountDb, AccountClient, Libraries, has_email,
}
use thunderchat_server.Account.Store.{Key, token_key, new_store, KeyStore, key_eq, same_key_iff}
use thunderchat_server.Account.Passwords.{
  is_token, verify_password_reset_otp, reset_password_with_token,
}
use thunderchat_server.Account.Passwords.Tries.{
  Try, after_tries, requested, verify_password_reset_otp-after_tries,
}
use thunderchat_server.Account.Passwords.Tokens.{
  reset_password_with_token-once, verify_password_reset_otp-reset,
}

-- A hash that only replaces the empty password.
abbrev pub hash_of : String → String
hash_of p = if p == "" then "nothing" else p

pub hash_of_nonempty : (p : String) → (hash_of p == "") ≡ false
hash_of_nonempty p = elim (Bool-cases (p == "")) [ inl e ↦ rw e refl | inr e ↦ rw e e ]

abbrev pub libraries : Libraries
libraries = record {
  hash = λ p salt. hash_of p;
  compare = λ p h. h == hash_of p;
  compare-hash = λ p salt. eq_refl (hash_of p);
  hash_nonempty = λ p salt. hash_of_nonempty p;
  send_mail = λ email otp. true;
}

abbrev accounts : AccountClient
accounts = in_memory _

abbrev ann : Account
ann = record { id = 1; email = "ann"; password = "old"; role = user }

abbrev start : AccountDb
start = record { users = ann ∷ []; store = new_store; mails = [] }

abbrev wrong_code : Try
wrong_code = record { code = "000000"; tried_at = 70000; new_token = "never" }

abbrev two : List Try
two = wrong_code ∷ wrong_code ∷ []

abbrev six : List Try
six = wrong_code ∷ wrong_code ∷ wrong_code ∷ wrong_code ∷ two

verify_password_reset_otp-after_tries_example :
    (verify_password_reset_otp libraries accounts "ann" "123456" 80000 "token" (
      after_tries libraries accounts "ann" two
        (requested libraries accounts "ann" "123456" "salt" 60000 start))).0
    ≡ ok "token"
unfolding get thunderchat_server.Account.Store.store_hget_all
verify_password_reset_otp-after_tries_example =
    verify_password_reset_otp-after_tries libraries accounts "ann" "123456" "salt" 60000 start refl
      refl two 80000 "token" ((refl, ground arith), ((refl, ground arith), tt)) (ground arith)

abbrev exhausted : AccountDb
exhausted =
    after_tries libraries accounts "ann" six
      (requested libraries accounts "ann" "123456" "salt" 60000 start)

-- The token stands in the store.
abbrev with_token : AccountDb
with_token = record start {
  store = record new_store { key_values = (token_key "ann", "token") ∷ [] };
}

abbrev reset : AccountDb
reset = (reset_password_with_token libraries accounts "token" "new" "salt" with_token).1

one_key :
    (j k : Key)
    → is_token (get with_token.store.key_values j) "token" ≡ true
    → is_token (get with_token.store.key_values k) "token" ≡ true
    → j ≡ k
unfolding get
one_key j k hj hk =
    ground (arith, same_key_iff (token_key "ann") j, same_key_iff (token_key "ann") k)

reset_password_with_token-once_example :
    reset_password_with_token libraries accounts "token" "newer" "salt" reset
    ≡ (err (bad_request (password_message reset_token_invalid_or_expired)), reset)
unfolding reset_password_with_token get
reset_password_with_token-once_example =
    reset_password_with_token-once libraries accounts "token" "new" "salt" "newer" "salt" with_token
      reset one_key refl

abbrev asked : AccountDb
asked = requested libraries accounts "ann" "123456" "salt" 60000 start

abbrev verified : AccountDb
verified = (verify_password_reset_otp libraries accounts "ann" "123456" 80000 "token" asked).1

abbrev renewed : AccountDb
renewed = (reset_password_with_token libraries accounts "token" "new" "salt" verified).1

verify_password_reset_otp-reset_example :
    (account : Account) × (accounts.find_first (has_email "ann") asked.users ≡ some account)
    × (renewed.users
        ≡ map (λ a. if a.id == account.id then record a { password = "new" } else a) asked.users)
unfolding get requested verify_password_reset_otp set reset_password_with_token
    thunderchat_server.Base.JsMap.delete
verify_password_reset_otp-reset_example =
    verify_password_reset_otp-reset libraries accounts "ann" "123456" "token" "new" "salt" 80000
      asked verified renewed "token" (λ k. refl) refl refl
