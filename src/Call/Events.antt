-- ===== src/Call/Events.antt =====
-- The single events of a call: answering, running out of time, hanging up, leaving.
use thunderchat_server.Base.{
  ℕ, suc, length-append, ◌<◌, dec_lt, ◌⊎◌, String, ◌≡◌, refl, Bool, true, false, Option, none, some,
  [], ◌∷◌, ◌++◌, arith, ◌==◌, if◌then◌else◌, Option-cases, Bool-cases, inl, inr, string_eq, nat_eq,
  eq_refl,
}
use thunderchat_server.Base.JsMap.{get, has, get-set, get-delete, get-set_self, get-delete_self}
use thunderchat_server.Base.Action.{
  Result, ok, err, bad_request, not_found, call_message, CallMessage,
}
use thunderchat_server.Connection.{
  emit_to_user, check_user_is_connected, Socket, Clients, add_connected_client,
}
use thunderchat_server.Connection.Sockets.{sockets_of, sockets_of-add}
use thunderchat_server.Call.{
  accepted, timeout, ended, CallSession, CallService, get_active_call_session, accept_call,
  end_call, find_session_by_user_id, init_active_call_session, takes_part, HangupReason, draw_id,
  new_session, max_retry_count,
}
use thunderchat_server.Call.Gateway.{
  CallGateway, call_status, handle_disconnect, auto_cancel_call, on_hangup, no_reply, step,
  connects, disconnects, handle_connection,
}
use thunderchat_server.Call.Invariant.{is_waiting, IsValid, find-get, get-own_id}

-- The ids that the draws before the number `n` give are taken.
abbrev pub TakenBelow : CallService → (ℕ → String) → ℕ → Type 0
TakenBelow s uuid n = (k : ℕ) → k < n → has s.active_call_sessions (uuid k) ≡ true

-- The call of the service has stored a request under the first free id of three draws.
pub record Started (uuid : ℕ → String) (caller callee chat : ℕ) (video : Bool) (s t : CallService)
    (r : Result CallSession) : Type 0 where
  pub draw : ℕ
  pub soon : draw < max_retry_count
  pub free : has s.active_call_sessions (uuid draw) ≡ false
  pub first : TakenBelow s uuid draw
  pub answer : r ≡ ok (new_session (uuid draw) caller callee chat video)
  pub stored :
      (j : String)
      → get t.active_call_sessions j ≡ (
          if uuid draw == j
          then some (new_session (uuid draw) caller callee chat video)
          else get s.active_call_sessions j)

taken_more :
    (s : CallService) (uuid : ℕ → String) (n : ℕ)
    → TakenBelow s uuid n
    → has s.active_call_sessions (uuid n) ≡ true
    → TakenBelow s uuid (suc n)
taken_more s uuid n below top k h = elim (dec_lt k n) [
  | yes l ↦ below k l
  | no l ↦ rw (last k n h l) top
]
  where
    last : (i m : ℕ) → i < suc m → ¬ (i < m) → i ≡ m
    last i m h l = omega arith

-- A call starts under the first free id of at most three draws, and touches no other session; it
-- fails only if all three are taken, and then changes nothing.
pub init_active_call_session_lem :
    (uuid : ℕ → String) (caller callee chat : ℕ) (video : Bool) (s : CallService)
    → let (r, t) = init_active_call_session uuid caller callee chat video s in
      Started uuid caller callee chat video s t r
      ⊎ (TakenBelow s uuid max_retry_count
          × (r ≡ err (bad_request (call_message CallMessage.something_went_wrong)))
          × (t ≡ s))
unfolding init_active_call_session draw_id
init_active_call_session_lem uuid caller callee chat video s =
    elim (Bool-cases (has s.active_call_sessions (uuid 0))) [
      | inr a ↦ inl (record {
        draw = 0;
        soon = omega arith;
        free = a;
        first = λ k h. absurd (omega arith);
        answer = ground arith;
        stored = λ j. ground (
          arith,
          get-set s.active_call_sessions (uuid 0) j (new_session (uuid 0) caller callee chat video),
        );
      })
      | inl a ↦ elim (Bool-cases (has s.active_call_sessions (uuid 1))) [
        | inr b ↦ inl (record {
          draw = 1;
          soon = omega arith;
          free = b;
          first = taken_more s uuid 0 (λ k h. absurd (omega arith)) a;
          answer = ground arith;
          stored = λ j. ground (
            arith,
            get-set s.active_call_sessions (uuid 1) j
                (new_session (uuid 1) caller callee chat video),
          );
        })
        | inl b ↦ elim (Bool-cases (has s.active_call_sessions (uuid 2))) [
          | inr c ↦ inl (record {
            draw = 2;
            soon = omega arith;
            free = c;
            first = taken_more s uuid 1 (taken_more s uuid 0 (λ k h. absurd (omega arith)) a) b;
            answer = ground arith;
            stored = λ j. ground (
              arith,
              get-set s.active_call_sessions (uuid 2) j
                  (new_session (uuid 2) caller callee chat video),
            );
          })
          | inl c ↦ inr (
            taken_more s uuid 2
                (taken_more s uuid 1 (taken_more s uuid 0 (λ k h. absurd (omega arith)) a) b) c,
            ground arith,
            ground arith,
          )
        ]
      ]
    ]

-- A call that has been answered cannot be answered again, and its timer does nothing any more.
pub accept_call_once :
    (id : String) (s t : CallService) (session : CallSession) (g : CallGateway)
    → accept_call id s ≡ (ok session, t)
    → g.service ≡ t
    → (accept_call id t ≡ (err (bad_request (call_message CallMessage.invalid_status)), t))
      × ((auto_cancel_call id g).1 ≡ g)
unfolding accept_call auto_cancel_call get_active_call_session
accept_call_once id s t session g h e =
    ground (arith, get-set_self s.active_call_sessions id (record session { status = accepted }))

-- A closed session is gone: it cannot be closed again, and every other session is as before.
pub end_call_once :
    (id : String) (reason again : HangupReason) (s t : CallService) (session : CallSession)
    → end_call id reason s ≡ (ok session, t)
    → (end_call id again t ≡ (err (not_found (call_message CallMessage.session_not_found)), t))
      × ((j : String)
          → get t.active_call_sessions j ≡ (if id == j then none else get s.active_call_sessions j))
unfolding end_call
end_call_once id reason again s t session h = (
  ground (arith, get-delete_self s.active_call_sessions id),
  λ j. ground (arith, get-delete s.active_call_sessions id j),
)

module _ (g : CallGateway) (session : CallSession) where
  open g use {connected_clients, emitted}

  -- A call that still waits when its timer fires is closed, and the only emissions are those to
  -- the sockets of its two users, that it timed out.
  pub auto_cancel_call-timeout :
      (id : String)
      → get g.service.active_call_sessions id ≡ some session
      → is_waiting session.status ≡ true
      → let g' = (auto_cancel_call id g).1 in
        (get g'.service.active_call_sessions id ≡ none)
        × (g'.emitted
            ≡ emit_to_user connected_clients session.callee_user_id (call_status timeout session)
              ++ (emit_to_user connected_clients session.caller_user_id
                    (call_status timeout session)
                  ++ emitted))
  unfolding auto_cancel_call get_active_call_session end_call
  auto_cancel_call-timeout id there waits =
      ground (arith, get-delete_self g.service.active_call_sessions id)

  -- In a gateway with valid sessions, when a socket of a user whose id is not 0 closes, the first
  -- session in which the user takes part is closed, and exactly the sockets of the other side are
  -- told that the call has ended.
  pub handle_disconnect-closes :
      (user_id : ℕ)
      → IsValid g.service
      → (user_id == 0) ≡ false
      → find_session_by_user_id g.service user_id ≡ some session
      → let g' = (handle_disconnect (some user_id) g).1 in
        (takes_part user_id session ≡ true)
        × (get g'.service.active_call_sessions session.id ≡ none)
        × (g'.emitted
            ≡ emit_to_user connected_clients
                (if session.caller_user_id == user_id
                  then session.callee_user_id
                  else session.caller_user_id)
                (call_status ended session)
              ++ emitted)
  unfolding handle_disconnect find_session_by_user_id end_call get_active_call_session
  handle_disconnect-closes user_id v positive first = ground (
    arith,
    find-get (takes_part user_id) g.service.active_call_sessions session v.keys v.own_ids,
    get-delete_self g.service.active_call_sessions session.id,
  )

  -- In a gateway with valid sessions, any user who names a session that is going on can hang it
  -- up.
  pub on_hangup-anyone :
      (user_id : ℕ) (id : String) (reason : Option HangupReason)
      → IsValid g.service
      → get g.service.active_call_sessions id ≡ some session
      → let (r, g') = on_hangup (some user_id) id reason g in
        (r ≡ ok no_reply) × (get g'.service.active_call_sessions id ≡ none)
  unfolding on_hangup get_active_call_session end_call
  on_hangup-anyone user_id id reason v there = ground (
    arith,
    get-own_id g.service.active_call_sessions id session v.own_ids there,
    get-delete_self g.service.active_call_sessions id,
  )

disconnect-clients :
    (user_id : Option ℕ) (g : CallGateway)
    → (handle_disconnect user_id g).1.connected_clients ≡ g.connected_clients
unfolding handle_disconnect
disconnect-clients none g = refl
disconnect-clients (some u) g = elim (Option-cases (find_session_by_user_id g.service u)) [
  | inl e ↦ ground arith
  | inr (session, e) ↦ ground arith
]

connected_after_add :
    (m : Clients) (u : ℕ) (c : Socket)
    → check_user_is_connected (add_connected_client m u c) u ≡ true
unfolding check_user_is_connected
connected_after_add m u c =
    rw (sockets_of-add m u u c, eq_refl u) (ground (arith, length-append (sockets_of m u) (c ∷ [])))

-- A user who has connected to the call gateway and then disconnected is still reported as
-- connected.
pub connected_after_disconnect :
    (g : CallGateway) (client : Socket) (user_id : ℕ)
    → let g' = step (connects client (some user_id)) g in
      let g'' = step (disconnects (some user_id)) g' in
      check_user_is_connected g''.connected_clients user_id ≡ true
unfolding step handle_connection
connected_after_disconnect g client user_id =
    rw (disconnect-clients (some user_id) (step (connects client (some user_id)) g))
      (connected_after_add g.connected_clients user_id client)
