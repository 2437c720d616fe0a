-- ===== src/Messaging/Tokens/Replay.antt =====
-- When a token counts as already used, after any history.
use thunderchat_server.Base.{
  ℕ, String, ◌≡◌, refl, Bool, false, not, ◌&&◌, ◌||◌, Option, none, some, List, [], ◌∷◌, ◌++◌,
  arith, ◌==◌, if◌then◌else◌, filter, includes, includes-append, includes-filter_ne,
  includes-filter_other, nat_eq, string_eq, nat_beq_iff, eq_iff, eq_refl, Bool-cases, inl, inr,
}
use thunderchat_server.Base.JsMap.{get, get-set, get-delete}
use thunderchat_server.Messaging.Tokens.{
  MessageTokens, new_tokens, clean_token_automatically, check_token, is_unique_token,
  remove_all_tokens, without_token, remove_single_token,
}

-- `expired` is the callback of a timer, `left` the disconnection of a user.
pub data TokenEvent : Type 0 where
  checked expired : ℕ → String → TokenEvent
  left : ℕ → TokenEvent

-- The tokens after a history, the newest event first.
pub tokens_after : List TokenEvent → MessageTokens
tokens_after [] = new_tokens
tokens_after (checked u t ∷ h) = (is_unique_token u t (tokens_after h)).1
tokens_after (expired u t ∷ h) = remove_single_token u t (tokens_after h)
tokens_after (left u ∷ h) = remove_all_tokens u (tokens_after h)

-- The token was given after the last event that made the server forget it.
abbrev pub is_used : List TokenEvent → ℕ → String → Bool
is_used [] u t = false
is_used (checked v k ∷ h) u t = v == u && k == t || is_used h u t
is_used (expired v k ∷ h) u t = not (v == u && k == t) && is_used h u t
is_used (left v ∷ h) u t = not (v == u) && is_used h u t

abbrev pub stored : Option (List String) → List String
stored none = []
stored (some tokens) = tokens

abbrev pub tokens_of : MessageTokens → ℕ → List String
tokens_of m u = stored (get m.unique_msg_tokens u)

-- A token is accepted exactly when it is not among the user's, which then have it at their end.
check_token_lem :
    (o : Option (List String)) (u v : ℕ) (t : String) (m : MessageTokens)
    → get m.unique_msg_tokens u ≡ o
    → let (accepted, m') = check_token o u t m in
      (accepted ≡ not (includes (stored o) t))
      × (tokens_of m' v
          ≡ (if u == v && not (includes (stored o) t) then stored o ++ t ∷ [] else tokens_of m v))
unfolding clean_token_automatically
check_token_lem none u v t m h = (refl, ground (arith, get-set m.unique_msg_tokens u v (t ∷ [])))
check_token_lem (some []) u v t m h =
    (ground arith, ground (arith, get-set m.unique_msg_tokens u v (t ∷ [])))
check_token_lem (some (x ∷ xs)) u v t m h =
    (ground arith, ground (arith, get-set m.unique_msg_tokens u v ((x ∷ xs) ++ t ∷ [])))

pub is_unique_token_lem :
    (u v : ℕ) (t : String) (m : MessageTokens)
    → let (accepted, m') = is_unique_token u t m in
      (accepted ≡ not (includes (tokens_of m u) t))
      × (tokens_of m' v ≡ (
          if u == v && not (includes (tokens_of m u) t)
          then tokens_of m u ++ t ∷ []
          else tokens_of m v))
unfolding is_unique_token
is_unique_token_lem u v t m = check_token_lem (get m.unique_msg_tokens u) u v t m refl

without_token_lem :
    (o : Option (List String)) (u v : ℕ) (t : String) (m : MessageTokens)
    → get m.unique_msg_tokens u ≡ o
    → tokens_of (without_token o u t m) v
      ≡ (if u == v then filter (λ k. not (k == t)) (stored o) else tokens_of m v)
without_token_lem none u v t m h = ground (arith, nat_beq_iff u v)
without_token_lem (some []) u v t m h = ground (arith, nat_beq_iff u v)
without_token_lem (some (x ∷ xs)) u v t m h =
    ground (arith, get-set m.unique_msg_tokens u v (filter (λ k. not (k == t)) (x ∷ xs)))

pub tokens_of-remove_single :
    (u v : ℕ) (t : String) (m : MessageTokens)
    → tokens_of (remove_single_token u t m) v
      ≡ (if u == v then filter (λ k. not (k == t)) (tokens_of m u) else tokens_of m v)
unfolding remove_single_token
tokens_of-remove_single u v t m = without_token_lem (get m.unique_msg_tokens u) u v t m refl

pub tokens_of-remove_all :
    (u v : ℕ) (m : MessageTokens)
    → tokens_of (remove_all_tokens u m) v ≡ (if u == v then [] else tokens_of m v)
unfolding remove_all_tokens
tokens_of-remove_all u v m = ground (arith, get-delete m.unique_msg_tokens u v)

pub checked_includes :
    (u v : ℕ) (k t : String) (m : MessageTokens)
    → includes (tokens_of (is_unique_token v k m).1 u) t
      ≡ (v == u && k == t || includes (tokens_of m u) t)
checked_includes u v k t m = ground (
  arith,
  is_unique_token_lem v u k m,
  includes-append (tokens_of m v) (k ∷ []) t,
  nat_beq_iff v u,
  eq_iff k t,
)

pub expired_includes :
    (u v : ℕ) (k t : String) (m : MessageTokens)
    → includes (tokens_of (remove_single_token v k m) u) t
      ≡ (not (v == u && k == t) && includes (tokens_of m u) t)
expired_includes u v k t m = elim (Bool-cases (t == k)) [
  | inl hit ↦ ground (
    arith,
    tokens_of-remove_single v u k m,
    includes-filter_ne (tokens_of m v) k,
    nat_beq_iff v u,
    eq_iff t k,
    eq_refl k,
  )
  | inr miss ↦ ground (
    arith,
    tokens_of-remove_single v u k m,
    includes-filter_other (tokens_of m v) k t miss,
    nat_beq_iff v u,
    eq_iff t k,
    eq_iff k t,
  )
]

includes-is_used :
    (h : List TokenEvent) (u : ℕ) (t : String)
    → includes (tokens_of (tokens_after h) u) t ≡ is_used h u t
unfolding tokens_after get
includes-is_used [] u t = refl
includes-is_used (checked v k ∷ h) u t =
    rw (checked_includes u v k t (tokens_after h), includes-is_used h u t)
includes-is_used (expired v k ∷ h) u t =
    rw (expired_includes u v k t (tokens_after h), includes-is_used h u t)
includes-is_used (left v ∷ h) u t =
    ground (arith, tokens_of-remove_all v u (tokens_after h), includes-is_used h u t)

-- After any history a token of a user is accepted exactly when it was not given since the last
-- expiry of that token and the last disconnection of that user.
pub is_unique_token-is_used :
    (h : List TokenEvent) (u : ℕ) (t : String)
    → (is_unique_token u t (tokens_after h)).0 ≡ not (is_used h u t)
is_unique_token-is_used h u t =
    rw ((is_unique_token_lem u u t (tokens_after h)).0, includes-is_used h u t)
