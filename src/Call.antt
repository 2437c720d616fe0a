-- ===== src/Call.antt =====
-- call/call.service.ts: the sessions of the calls that are going on. What the service asks of the
-- database is a log, the newest query first: its failures are caught and change nothing else.
pub mod Gateway
pub mod Invariant
pub mod Lifecycle
pub mod Events
use thunderchat_server.Base.{
  ℕ, zero, suc, String, Bool, true, false, ◌&&◌, ◌||◌, not, Option, none, some, List, [], ◌∷◌, ◌==◌,
  if◌then◌else◌, find, nat_eq, string_eq,
}
use thunderchat_server.Base.JsMap.{Map, get, has, set, delete, values}
use thunderchat_server.Base.Action.{
  CallMessage, call_message, bad_request, not_found, Result, ok, err, Action, pure, throw, modify,
  ◌>>=◌, ◌>>◌,
}

pub data CallStatus : Type 0 where
  requesting ringing accepted connected ended rejected cancelled timeout busy offline : CallStatus

pub data HangupReason : Type 0 where
  normal network_error ice_failed peer_left unknown : HangupReason

pub record CallSession : Type 0 where
  pub id : String
  pub status : CallStatus
  pub caller_user_id : ℕ
  pub callee_user_id : ℕ
  pub direct_chat_id : ℕ
  pub is_video_call : Bool

-- An update that ends a call stores a reason, and the time, which is left out.
pub data DbQuery : Type 0 where
  create_session : CallSession → DbQuery
  update_status : String → CallStatus → Option HangupReason → DbQuery

pub record CallService : Type 0 where
  pub active_call_sessions : Map String CallSession
  pub users_calling : Map ℕ String
  pub queries : List DbQuery

abbrev pub new_call_service : CallService
new_call_service = record { active_call_sessions = []; users_calling = []; queries = [] }

unfoldable pub get_active_call_session : CallService → String → Option CallSession
get_active_call_session s session_id = get s.active_call_sessions session_id

-- How the loop that draws an id ends.
pub data Draw : Type 0 where
  drawn : String → Draw
  gave_up out_of_fuel : Draw

abbrev pub max_retry_count : ℕ
max_retry_count = 3

-- The loop; `uuid n` is the id that the call's draw number `n` gives.
unfoldable pub draw_id : Map String CallSession → (ℕ → String) → ℕ → ℕ → Draw
draw_id sessions uuid zero retry_count = out_of_fuel
draw_id sessions uuid (suc fuel) retry_count =
    let rest = draw_id sessions uuid fuel (suc retry_count) in
    if has sessions (uuid retry_count)
    then (if suc retry_count == max_retry_count then gave_up else rest)
    else drawn (uuid retry_count)

abbrev with_id : {A : Type 0} → Draw → (String → Action CallService A) → Action CallService A
with_id (drawn id) k = k id
with_id gave_up k = throw (bad_request (call_message CallMessage.something_went_wrong))
with_id out_of_fuel k = throw (bad_request (call_message CallMessage.something_went_wrong))

abbrev pub log : DbQuery → CallService → CallService
log q s = record s { queries = q ∷ s.queries }

unfoldable pub create_db_session : CallSession → Action CallService (Unit {0})
create_db_session session = modify (log (create_session session))

abbrev pub new_session : String → ℕ → ℕ → ℕ → Bool → CallSession
new_session id caller_user_id callee_user_id direct_chat_id is_video_call = record {
  id = id;
  status = requesting;
  caller_user_id = caller_user_id;
  callee_user_id = callee_user_id;
  direct_chat_id = direct_chat_id;
  is_video_call = is_video_call;
}

abbrev put_session : String → CallSession → CallService → CallService
put_session id session s = record s { active_call_sessions = set s.active_call_sessions id session }

unfoldable pub init_active_call_session :
    (ℕ → String) → ℕ → ℕ → ℕ → Bool → Action CallService CallSession
unfolding create_db_session
init_active_call_session uuid caller callee direct_chat_id is_video_call s =
    with_id (draw_id s.active_call_sessions uuid max_retry_count 0)
      (λ id. do
        let session = new_session id caller callee direct_chat_id is_video_call
        create_db_session session
        modify (put_session id session)
        pure session)
      s

abbrev pub ends : CallStatus → Bool
ends ended = true
ends rejected = true
ends timeout = true
ends _ = false

abbrev or_normal : Option HangupReason → HangupReason
or_normal none = normal
or_normal (some reason) = reason

unfoldable pub update_db_session_status :
    String → CallStatus → Option HangupReason → Action CallService (Unit {0})
update_db_session_status session_id status hangup_reason = modify (
    log (
      update_status session_id status
        (if ends status then some (or_normal hangup_reason) else none)))

abbrev found : Option CallSession → Action CallService CallSession
found none = throw (not_found (call_message CallMessage.session_not_found))
found (some session) = pure session

abbrev pub is_requesting : CallStatus → Bool
is_requesting requesting = true
is_requesting _ = false

abbrev pub is_ringing : CallStatus → Bool
is_ringing ringing = true
is_ringing _ = false

abbrev check_waiting : CallStatus → Action CallService (Unit {0})
check_waiting status s =
    if not (is_requesting status) && not (is_ringing status)
    then (err (bad_request (call_message CallMessage.invalid_status)), s)
    else (ok tt, s)

-- The session object is shared with the map: a change of its status is a write to the map.
unfoldable pub accept_call : String → Action CallService CallSession
unfolding get_active_call_session update_db_session_status
accept_call session_id s =
    (do
      session ← found (get_active_call_session s session_id)
      check_waiting session.status
      let session' = record session { status = accepted }
      modify (put_session session_id session')
      update_db_session_status session_id accepted none
      pure session')
      s

abbrev is_connected_or_ended : CallStatus → Bool
is_connected_or_ended connected = true
is_connected_or_ended ended = true
is_connected_or_ended _ = false

unfoldable pub update_call_status : String → CallStatus → Action CallService CallSession
unfolding get_active_call_session update_db_session_status
update_call_status session_id status s =
    (do
      session ← found (get_active_call_session s session_id)
      let session' = record session { status = status }
      modify (put_session session_id session')
      (if is_connected_or_ended status
          then update_db_session_status session_id status none
          else pure tt)
      pure session')
      s

abbrev pub takes_part : ℕ → CallSession → Bool
takes_part user_id session = session.caller_user_id == user_id || session.callee_user_id == user_id

-- The first session, in the order of the map, in which the user takes part.
unfoldable pub find_session_by_user_id : CallService → ℕ → Option CallSession
find_session_by_user_id s user_id = find (takes_part user_id) (values s.active_call_sessions)

abbrev drop_session : String → CallService → CallService
drop_session id s = record s { active_call_sessions = delete s.active_call_sessions id }

abbrev is_id : Option String → String → Bool
is_id none id = false
is_id (some other) id = other == id

abbrev free_user : ℕ → String → CallService → CallService
free_user user_id id s =
    if is_id (get s.users_calling user_id) id
    then record s { users_calling = delete s.users_calling user_id }
    else s

unfoldable pub end_call : String → HangupReason → Action CallService CallSession
unfolding get_active_call_session update_db_session_status
end_call session_id reason s =
    (do
      session ← found (get_active_call_session s session_id)
      update_db_session_status session_id ended (some reason)
      modify (drop_session session_id)
      modify (free_user session.caller_user_id session_id)
      modify (free_user session.callee_user_id session_id)
      pure session)
      s

unfoldable pub is_user_busy : CallService → ℕ → Bool
is_user_busy s user_id = has s.users_calling user_id
