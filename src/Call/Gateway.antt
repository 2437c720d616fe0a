-- ===== src/Call/Gateway.antt =====
-- call/call.gateway.ts, with connection/voice-call-connection.service.ts: the events of the call
-- sockets. A handler runs as one step. The user that the handshake of a socket names is an
-- argument (`none` where the validation of the handshake throws), and so are the ids that `uuid`
-- draws. A timer that `setTimeout` starts is a session id; when it fires is up to the environment.
use thunderchat_server.Base.{
  ℕ, String, Bool, true, false, ◌||◌, Option, none, some, List, [], ◌∷◌, ◌++◌, ◌==◌, if◌then◌else◌,
  nat_eq,
}
use thunderchat_server.Base.Action.{
  call_message, CallMessage, GatewayMessage, gateway_message, ws, not_found, ok, err, Action, pure,
  throw, gets, modify, ◌>>=◌, ◌>>◌,
}
use thunderchat_server.Connection.{
  Socket, Clients, add_connected_client, check_user_is_connected, emit_to_user,
}
use thunderchat_server.Call.{
  CallStatus, requesting, accepted, ended, rejected, timeout, busy, offline, HangupReason, normal,
  CallSession, CallService, new_call_service, get_active_call_session, init_active_call_session,
  accept_call, find_session_by_user_id, end_call, is_user_busy, is_requesting, is_ringing,
}

-- What a client is sent. The texts of offers and candidates are passed on unread.
pub data Emission : Type 0 where
  server_hello disconnect : Emission
  call_request : CallSession → Emission
  call_status : CallStatus → CallSession → Emission
  call_offer_answer : String → String → Emission
  call_ice : String → Option String → Option ℕ → Emission
  call_hangup : Option HangupReason → Emission

pub record CallGateway : Type 0 where
  pub service : CallService
  pub connected_clients : Clients
  pub emitted : List (Socket × Emission)
  pub timers : List String

abbrev pub new_call_gateway : CallGateway
new_call_gateway = record {
  service = new_call_service;
  connected_clients = [];
  emitted = [];
  timers = [];
}

-- A call of the service within a handler.
abbrev in_service : {A : Type 0} → Action CallService A → Action CallGateway A
in_service m g = let (r, s) = m g.service in (r, record g { service = s })

-- The latest emissions come first.
abbrev emit_to : ℕ → Emission → CallGateway → CallGateway
emit_to user_id e g = record g { emitted = emit_to_user g.connected_clients user_id e ++ g.emitted }

unfoldable pub announce_call_request_to_callee : CallSession → CallGateway → CallGateway
announce_call_request_to_callee session = emit_to session.callee_user_id (call_request session)

unfoldable pub announce_call_status : ℕ → CallStatus → CallSession → CallGateway → CallGateway
announce_call_status user_id status session = emit_to user_id (call_status status session)

unfoldable pub announce_sdp_offer_answer : ℕ → String → String → CallGateway → CallGateway
announce_sdp_offer_answer user_id sdp type = emit_to user_id (call_offer_answer sdp type)

unfoldable pub announce_ice_candidate :
    ℕ → String → Option String → Option ℕ → CallGateway → CallGateway
announce_ice_candidate user_id candidate mid line = emit_to user_id (call_ice candidate mid line)

unfoldable pub announce_call_hangup : ℕ → Option HangupReason → CallGateway → CallGateway
announce_call_hangup user_id reason = emit_to user_id (call_hangup reason)

abbrev pub add_client : ℕ → Socket → CallGateway → CallGateway
add_client user_id client g = record g {
  connected_clients = add_connected_client g.connected_clients user_id client;
}

abbrev emit_one : Socket → Emission → CallGateway → CallGateway
emit_one client e g = record g { emitted = (client, e) ∷ g.emitted }

-- An exception closes the socket, and is not passed on.
unfoldable pub handle_connection : Socket → Option ℕ → Action CallGateway (Unit {0})
handle_connection client none = modify (emit_one client disconnect)
handle_connection client (some user_id) = do
  modify (add_client user_id client)
  modify (emit_one client server_hello)

abbrev pub peer_of : ℕ → CallSession → ℕ
peer_of user_id session =
    if user_id == session.caller_user_id then session.callee_user_id else session.caller_user_id

-- The `try` block: an exception of `endCall` is caught.
abbrev end_for : ℕ → Option CallSession → Action CallGateway (Unit {0})
end_for user_id none g = (ok tt, g)
end_for user_id (some session) g =
    let (r, g') = in_service (end_call session.id normal) g in
    elim r [
      | ok _ ↦ (
        ok tt,
        announce_call_status
            (if session.caller_user_id == user_id
              then session.callee_user_id
              else session.caller_user_id)
            ended session g',
      )
      | err _ ↦ (ok tt, g')
    ]

unfoldable pub handle_disconnect : Option ℕ → Action CallGateway (Unit {0})
unfolding announce_call_status
handle_disconnect none g = (ok tt, g)
handle_disconnect (some user_id) g =
    if user_id == 0
    then (ok tt, g)
    else end_for user_id (find_session_by_user_id g.service user_id) g

abbrev time_out : String → CallSession → CallGateway → CallGateway
time_out session_id session g =
    let (_, g') = in_service (end_call session_id normal) g in
    announce_call_status session.callee_user_id timeout session
      (announce_call_status session.caller_user_id timeout session g')

abbrev cancel : String → Option CallSession → CallGateway → CallGateway
cancel session_id none g = g
cancel session_id (some session) g =
    if is_requesting session.status || is_ringing session.status
    then time_out session_id session g
    else g

-- The callback of the timer that `autoCancelCall` starts.
unfoldable pub auto_cancel_call : String → Action CallGateway (Unit {0})
unfolding announce_call_status
auto_cancel_call session_id g =
    (ok tt, cancel session_id (get_active_call_session g.service session_id) g)

abbrev start_timer : String → CallGateway → CallGateway
start_timer session_id g = record g { timers = session_id ∷ g.timers }

pub data CallReply : Type 0 where
  no_reply : CallReply
  reply : CallStatus → Option CallSession → CallReply

-- The user of the handshake, or the exception of its validation.
abbrev authenticated : Option ℕ → Action CallGateway ℕ
authenticated none = throw (ws (gateway_message GatewayMessage.invalid_message_format))
authenticated (some user_id) = pure user_id

abbrev request_call : (ℕ → String) → ℕ → ℕ → ℕ → Bool → Bool → Bool → Action CallGateway CallReply
request_call uuid caller callee chat video false is_busy = pure (reply offline none)
request_call uuid caller callee chat video true true = pure (reply busy none)
request_call uuid caller callee chat video true false = do
  session ← in_service (init_active_call_session uuid caller callee chat video)
  modify (announce_call_request_to_callee session)
  modify (start_timer session.id)
  pure (reply requesting (some session))

unfoldable pub on_call_request :
    (ℕ → String) → Option ℕ → ℕ → ℕ → Bool → Action CallGateway CallReply
unfolding announce_call_request_to_callee
on_call_request uuid auth callee chat video = do
  caller ← authenticated auth
  online ← gets (λ g. check_user_is_connected g.connected_clients callee)
  is_busy ← gets (λ g. is_user_busy g.service callee)
  request_call uuid caller callee chat video online is_busy

unfoldable pub on_accept : String → Action CallGateway CallReply
unfolding announce_call_status
on_accept session_id = do
  session ← in_service (accept_call session_id)
  modify (announce_call_status session.caller_user_id accepted session)
  pure no_reply

unfoldable pub on_reject : String → Action CallGateway CallReply
unfolding announce_call_status
on_reject session_id = do
  session ← in_service (end_call session_id normal)
  modify (announce_call_status session.caller_user_id rejected session)
  pure no_reply

abbrev active : String → Action CallGateway CallSession
active session_id g = elim (get_active_call_session g.service session_id) [
  | none ↦ (err (not_found (call_message CallMessage.session_not_found)), g)
  | some session ↦ (ok session, g)
]

unfoldable pub on_offer_answer : Option ℕ → String → String → String → Action CallGateway CallReply
unfolding announce_sdp_offer_answer
on_offer_answer auth session_id sdp type = do
  session ← active session_id
  user_id ← authenticated auth
  modify (announce_sdp_offer_answer (peer_of user_id session) sdp type)
  pure no_reply

unfoldable pub on_ice :
    Option ℕ → String → String → Option String → Option ℕ → Action CallGateway CallReply
unfolding announce_ice_candidate
on_ice auth session_id candidate mid line = do
  session ← active session_id
  user_id ← authenticated auth
  modify (announce_ice_candidate (peer_of user_id session) candidate mid line)
  pure no_reply

abbrev ignore : {A : Type 0} → Action CallGateway A → CallGateway → CallGateway
ignore m g = (m g).1

unfoldable pub on_hangup : Option ℕ → String → Option HangupReason → Action CallGateway CallReply
unfolding announce_call_hangup
on_hangup auth session_id reason = do
  session ← active session_id
  user_id ← authenticated auth
  modify (ignore (in_service (end_call session.id normal)))
  modify (announce_call_hangup (peer_of user_id session) reason)
  pure no_reply

-- What can happen to the gateway.
pub data CallEvent : Type 0 where
  connects : Socket → Option ℕ → CallEvent
  disconnects : Option ℕ → CallEvent
  requests : (ℕ → String) → Option ℕ → ℕ → ℕ → Bool → CallEvent
  accepts rejects fires : String → CallEvent
  offers : Option ℕ → String → String → String → CallEvent
  sends_ice : Option ℕ → String → String → Option String → Option ℕ → CallEvent
  hangs_up : Option ℕ → String → Option HangupReason → CallEvent

unfoldable pub step : CallEvent → CallGateway → CallGateway
step (connects client auth) g = (handle_connection client auth g).1
step (disconnects user_id) g = (handle_disconnect user_id g).1
step (requests uuid auth callee chat video) g = (on_call_request uuid auth callee chat video g).1
step (accepts session_id) g = (on_accept session_id g).1
step (rejects session_id) g = (on_reject session_id g).1
step (fires session_id) g = (auto_cancel_call session_id g).1
step (offers auth session_id sdp type) g = (on_offer_answer auth session_id sdp type g).1
step (sends_ice auth session_id candidate mid line) g =
    (on_ice auth session_id candidate mid line g).1
step (hangs_up auth session_id reason) g = (on_hangup auth session_id reason g).1

-- A history, the newest event first.
unfoldable pub after : List CallEvent → CallGateway
after [] = new_call_gateway
after (e ∷ events) = step e (after events)
