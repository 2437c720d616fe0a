-- ===== src/Tests/Calls.antt =====
-- The calls of two users on one chat.
use thunderchat_server.Base.{
  ℕ, ◌≡◌, ◌≢◌, ◌⊎◌, ◌<◌, refl, String, Bool, true, false, none, some, List, [], ◌∷◌, ◌++◌,
  if◌then◌else◌, zero, suc, ◌==◌, nat_eq, string_eq,
}
use thunderchat_server.Base.JsMap.{get}
use thunderchat_server.Base.Action.{ok, err, bad_request, CallMessage, call_message}
use thunderchat_server.Connection.{check_user_is_connected, add_connected_client}
use thunderchat_server.Call.{
  CallSession, CallService, new_call_service, busy, init_active_call_session, draw_id, new_session,
  max_retry_count, is_user_busy,
}
use thunderchat_server.Call.Gateway.{
  CallGateway, CallEvent, connects, requests, accepts, step, after, on_call_request,
  handle_connection, reply,
}
use thunderchat_server.Call.Lifecycle.{Evolves, step-Evolves, never_busy}
use thunderchat_server.Call.Events.{Started, TakenBelow, init_active_call_session_lem}

abbrev draws : ℕ → String
draws zero = "a"
draws (suc n) = "b"

-- Users 1 and 2 connect, and 1 calls 2 on chat 7.
abbrev calling : List CallEvent
calling = requests draws (some 1) 2 7 false ∷ connects "s2" (some 2) ∷ connects "s1" (some 1) ∷ []

abbrev session : CallSession
session = new_session "a" 1 2 7 false

abbrev waiting : CallService
waiting = record new_call_service { active_call_sessions = ("a", session) ∷ [] }

abbrev gateway : CallGateway
gateway = after calling

calls_run : get (after calling).service.active_call_sessions "a" ≡ some session
unfolding after get step on_call_request check_user_is_connected handle_connection
    add_connected_client thunderchat_server.Base.JsMap.set is_user_busy
    thunderchat_server.Base.JsMap.has init_active_call_session draw_id
calls_run = refl

step-Evolves_example :
    Evolves
      (get (after calling).service.active_call_sessions "a")
      (get (step (accepts "a") (after calling)).service.active_call_sessions "a")
step-Evolves_example = step-Evolves (accepts "a") (after calling) "a"

never_busy_example :
    (on_call_request draws (some 1) 2 7 true (after calling)).0 ≢ ok (reply busy none)
never_busy_example = never_busy calling draws (some 1) 2 7 true none

init_active_call_session_lem_example :
    let (r, t) = init_active_call_session draws 1 2 7 false waiting in
    Started draws 1 2 7 false waiting t r
    ⊎ (TakenBelow waiting draws max_retry_count
        × (r ≡ err (bad_request (call_message CallMessage.something_went_wrong)))
        × (t ≡ waiting))
init_active_call_session_lem_example = init_active_call_session_lem draws 1 2 7 false waiting
