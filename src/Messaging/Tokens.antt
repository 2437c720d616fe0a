-- ===== src/Messaging/Tokens.antt =====
-- messaging/helpers/message-tokens.helper.ts: the tokens of the messages that each user has sent
-- in the last hour. A timer is the user and the token that its callback removes.
pub mod Replay
pub mod Timers
use thunderchat_server.Base.{
  ℕ, String, Bool, true, false, not, Option, none, some, List, [], ◌∷◌, ◌++◌, ◌==◌, if◌then◌else◌,
  ltb, length, filter, includes, nat_eq, string_eq,
}
use thunderchat_server.Base.JsMap.{Map, get, set, delete}

pub record MessageTokens : Type 0 where
  pub unique_msg_tokens : Map ℕ (List String)
  pub timers : List (ℕ × String)

abbrev pub new_tokens : MessageTokens
new_tokens = record { unique_msg_tokens = []; timers = [] }

unfoldable pub clean_token_automatically : ℕ → String → MessageTokens → MessageTokens
clean_token_automatically user_id token m = record m { timers = (user_id, token) ∷ m.timers }

abbrev put : ℕ → List String → MessageTokens → MessageTokens
put user_id tokens m = record m { unique_msg_tokens = set m.unique_msg_tokens user_id tokens }

abbrev accept : ℕ → String → List String → MessageTokens → Bool × MessageTokens
unfolding clean_token_automatically
accept user_id token tokens m =
    (true, clean_token_automatically user_id token (put user_id tokens m))

abbrev check_token : Option (List String) → ℕ → String → MessageTokens → Bool × MessageTokens
unfolding clean_token_automatically
check_token none user_id token m = accept user_id token (token ∷ []) m
check_token (some pre_tokens) user_id token m =
    if ltb 0 (length pre_tokens)
    then (if includes pre_tokens token
        then (false, m)
        else accept user_id token (pre_tokens ++ token ∷ []) m)
    else accept user_id token (token ∷ []) m

-- Whether the token is new, and the tokens with it added.
unfoldable pub is_unique_token : ℕ → String → MessageTokens → Bool × MessageTokens
unfolding clean_token_automatically
is_unique_token user_id token m = check_token (get m.unique_msg_tokens user_id) user_id token m

unfoldable pub remove_all_tokens : ℕ → MessageTokens → MessageTokens
remove_all_tokens user_id m = record m { unique_msg_tokens = delete m.unique_msg_tokens user_id }

abbrev without_token : Option (List String) → ℕ → String → MessageTokens → MessageTokens
without_token none user_id token m = m
without_token (some tokens) user_id token m =
    if ltb 0 (length tokens) then put user_id (filter (λ tk. not (tk == token)) tokens) m else m

unfoldable pub remove_single_token : ℕ → String → MessageTokens → MessageTokens
remove_single_token user_id token m =
    without_token (get m.unique_msg_tokens user_id) user_id token m
