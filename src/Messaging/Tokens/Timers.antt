-- ===== src/Messaging/Tokens/Timers.antt =====
-- The timers that make the server forget a token.
use thunderchat_server.Base.{
  ℕ, String, ◌≡◌, refl, ap, true, false, none, some, List, [], ◌∷◌, arith, if◌then◌else◌, includes,
  nat_eq, string_eq, eq_refl, Option,
}
use thunderchat_server.Base.JsMap.{get}
use thunderchat_server.Messaging.Tokens.{
  MessageTokens, clean_token_automatically, check_token, is_unique_token, remove_all_tokens,
  remove_single_token,
}
use thunderchat_server.Messaging.Tokens.Replay.{
  tokens_of, stored, is_unique_token_lem, tokens_of-remove_all, expired_includes,
}

check_token-timers :
    (o : Option (List String)) (u : ℕ) (t : String) (m : MessageTokens)
    → (check_token o u t m).1.timers
      ≡ (if includes (stored o) t then m.timers else (u, t) ∷ m.timers)
unfolding clean_token_automatically
check_token-timers none u t m = refl
check_token-timers (some []) u t m = ground arith
check_token-timers (some (x ∷ xs)) u t m = ground arith

is_unique_token-timers :
    (u : ℕ) (t : String) (m : MessageTokens)
    → (is_unique_token u t m).1.timers
      ≡ (if includes (tokens_of m u) t then m.timers else (u, t) ∷ m.timers)
unfolding is_unique_token
is_unique_token-timers u t m = check_token-timers (get m.unique_msg_tokens u) u t m

-- A user who sends a token that is not stored, leaves, and sends it again has it accepted both
-- times, with two timers; once the callback of one of them has run, it is accepted a third time.
pub stale_timer :
    (m : MessageTokens) (u : ℕ) (t : String)
    → includes (tokens_of m u) t ≡ false
    → let (first, sent) = is_unique_token u t m in
      let (second, again) = is_unique_token u t (remove_all_tokens u sent) in
      (first ≡ true)
      × (second ≡ true)
      × (again.timers ≡ (u, t) ∷ (u, t) ∷ m.timers)
      × ((is_unique_token u t (remove_single_token u t again)).0 ≡ true)
unfolding remove_all_tokens
stale_timer m u t new =
    let sent = (is_unique_token u t m).1 in
    let left = remove_all_tokens u sent in
    let again = (is_unique_token u t left).1 in
    let gone : includes (tokens_of left u) t ≡ false =
      rw (tokens_of-remove_all u u sent, eq_refl u) in
    let expired : includes (tokens_of (remove_single_token u t again) u) t ≡ false =
      rw (expired_includes u u t t again, eq_refl u, eq_refl t) in
    (
      rw ((is_unique_token_lem u u t m).0, new),
      rw ((is_unique_token_lem u u t left).0, gone),
      rw (is_unique_token-timers u t left, gone)
          (ap (◌∷◌ (u, t)) (rw (is_unique_token-timers u t m, new))),
      rw ((is_unique_token_lem u u t (remove_single_token u t again)).0, expired),
    )
