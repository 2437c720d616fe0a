-- ===== src/Call/Lifecycle.antt =====
-- What each event of the call gateway can do to the sessions, and what follows for every history.
use thunderchat_server.Base.{
  ℕ, String, ◌≡◌, ◌≢◌, refl, sym, subst, Bool, true, Option, none, some, List, [], ◌∷◌, arith, ◌==◌,
  Option-cases, Bool-cases, inl, inr, string_eq, nat_eq, eq_iff, ◌⊎◌,
}
use thunderchat_server.Base.JsMap.{get, has, get-set, get-delete}
use thunderchat_server.Base.Action.{ok}
use thunderchat_server.Call.{
  requesting, accepted, CallSession, CallService, get_active_call_session, end_call, accept_call,
  init_active_call_session, HangupReason, is_user_busy, normal, find_session_by_user_id, busy,
}
use thunderchat_server.Call.Gateway.{
  CallGateway, CallEvent, connects, disconnects, requests, accepts, rejects, fires, offers,
  sends_ice, hangs_up, step, after, handle_connection, handle_disconnect, on_call_request,
  on_accept, on_reject, auto_cancel_call, on_offer_answer, on_ice, on_hangup, reply,
}
use thunderchat_server.Call.Invariant.{
  Change, unchanged, opened, answered, closed, IsValid, Change-IsValid, init-Change, accept-Change,
  end-Change, is_waiting,
}

-- A handler leaves the service as it is, or makes one call of it.
abbrev Either : CallService → CallService → CallService → Type 0
Either s called t = (t ≡ s) ⊎ (t ≡ called)

Either-Change : {s called t : CallService} → Change s called → Either s called t → Change s t
Either-Change {s} c (inl e) = subst (Change s) (sym e) (unchanged refl refl)
Either-Change {s} c (inr e) = subst (Change s) (sym e) c

request-Either :
    (uuid : ℕ → String) (caller callee chat : ℕ) (video : Bool) (g : CallGateway)
    → Either g.service
        (init_active_call_session uuid caller callee chat video g.service).1
        (on_call_request uuid (some caller) callee chat video g).1.service
unfolding on_call_request
request-Either uuid caller callee chat video g = ground arith

request-Change :
    (uuid : ℕ → String) (auth : Option ℕ) (callee chat : ℕ) (video : Bool) (g : CallGateway)
    → Change g.service (on_call_request uuid auth callee chat video g).1.service
unfolding on_call_request
request-Change uuid none callee chat video g = unchanged refl refl
request-Change uuid (some caller) callee chat video g =
    Either-Change (init-Change uuid caller callee chat video g.service)
      (request-Either uuid caller callee chat video g)

disconnect-Change :
    (u : ℕ) (g : CallGateway) → Change g.service (handle_disconnect (some u) g).1.service
unfolding handle_disconnect
disconnect-Change u g = elim (Option-cases (find_session_by_user_id g.service u)) [
  | inl e ↦ unchanged (ground arith) (ground arith)
  | inr (session, e) ↦ Either-Change (end-Change session.id normal g.service) (ground arith)
]

accept-service :
    (id : String) (g : CallGateway) → (on_accept id g).1.service ≡ (accept_call id g.service).1
unfolding on_accept
accept-service id g = ground arith

reject-service :
    (id : String) (g : CallGateway) → (on_reject id g).1.service ≡ (end_call id normal g.service).1
unfolding on_reject
reject-service id g = ground arith

fire-Either :
    (id : String) (g : CallGateway)
    → Either g.service (end_call id normal g.service).1 (auto_cancel_call id g).1.service
unfolding auto_cancel_call
fire-Either id g = ground arith

offer-service :
    (auth : Option ℕ) (id sdp type : String) (g : CallGateway)
    → (on_offer_answer auth id sdp type g).1.service ≡ g.service
unfolding on_offer_answer
offer-service auth id sdp type g = ground arith

ice-service :
    (auth : Option ℕ) (id candidate : String) (mid : Option String) (line : Option ℕ)
    (g : CallGateway)
    → (on_ice auth id candidate mid line g).1.service ≡ g.service
unfolding on_ice
ice-service auth id candidate mid line g = ground arith

hangup-Change :
    (auth : Option ℕ) (id : String) (reason : Option HangupReason) (g : CallGateway)
    → Change g.service (on_hangup auth id reason g).1.service
unfolding on_hangup
hangup-Change auth id reason g = elim (Option-cases (get_active_call_session g.service id)) [
  | inl e ↦ unchanged (ground arith) (ground arith)
  | inr (session, e) ↦ Either-Change (end-Change session.id normal g.service) (ground arith)
]

-- Each event opens a session, answers one, closes one, or leaves all as they are.
pub step-Change : (e : CallEvent) (g : CallGateway) → Change g.service (step e g).service
unfolding step handle_connection handle_disconnect
step-Change (connects client none) g = unchanged refl refl
step-Change (connects client (some u)) g = unchanged refl refl
step-Change (disconnects none) g = unchanged refl refl
step-Change (disconnects (some u)) g = disconnect-Change u g
step-Change (requests uuid auth callee chat video) g = request-Change uuid auth callee chat video g
step-Change (accepts id) g = rw (accept-service id g) (accept-Change id g.service)
step-Change (rejects id) g = rw (reject-service id g) (end-Change id normal g.service)
step-Change (fires id) g = Either-Change (end-Change id normal g.service) (fire-Either id g)
step-Change (offers auth id sdp type) g =
    rw (offer-service auth id sdp type g) (unchanged refl refl)
step-Change (sends_ice auth id candidate mid line) g =
    rw (ice-service auth id candidate mid line g) (unchanged refl refl)
step-Change (hangs_up auth id reason) g = hangup-Change auth id reason g

-- After every history each session stands under its own id, no id twice, and nobody is
-- registered as calling.
pub after-IsValid : (events : List CallEvent) → IsValid (after events).service
unfolding after
after-IsValid [] = record { keys = tt; own_ids = tt; idle = refl }
after-IsValid (e ∷ events) = Change-IsValid (after-IsValid events) (step-Change e (after events))

-- After any history a call request is not answered with the status of a busy user, whoever is
-- called.
pub never_busy :
    (events : List CallEvent) (uuid : ℕ → String) (auth : Option ℕ) (callee chat : ℕ) (video : Bool)
    (session : Option CallSession)
    → (on_call_request uuid auth callee chat video (after events)).0 ≢ ok (reply busy session)
unfolding on_call_request is_user_busy has get
never_busy events uuid none callee chat video session h = cc
never_busy events uuid (some caller) callee chat video session h =
    ground (arith, (after-IsValid events).idle)

-- What one event may do to the session under an id.
pub data Evolves : Option CallSession → Option CallSession → Type 0 where
  stays : (o : Option CallSession) → Evolves o o
  begins : (session : CallSession) → session.status ≡ requesting → Evolves none (some session)
  is_answered :
      (session : CallSession)
      → is_waiting session.status ≡ true
      → Evolves (some session) (some (record session { status = accepted }))
  is_closed : (session : CallSession) → Evolves (some session) none

Change-Evolves :
    {s t : CallService} (id : String)
    → Change s t
    → Evolves (get s.active_call_sessions id) (get t.active_call_sessions id)
Change-Evolves {s} id (unchanged e _) = rw e (stays _)
Change-Evolves {s} id (opened x free status e _) = elim (Bool-cases (x.id == id)) [
  | inl same ↦
      rw (e, get-set s.active_call_sessions x.id id x, same)
        (rw (← (eq_iff x.id id).0 same) (rw free (begins x status)))
  | inr other ↦ rw (e, get-set s.active_call_sessions x.id id x, other) (stays _)
]
Change-Evolves {s} id (answered id' x there waits e _) = elim (Bool-cases (id' == id)) [
  | inl same ↦
      rw (e, get-set s.active_call_sessions id' id (record x { status = accepted }), same)
        (rw (← (eq_iff id' id).0 same) (rw there (is_answered x waits)))
  | inr other ↦
      rw (e, get-set s.active_call_sessions id' id (record x { status = accepted }), other)
        (stays _)
]
Change-Evolves {s} id (closed id' x there e _) = elim (Bool-cases (id' == id)) [
  | inl same ↦
      rw (e, get-delete s.active_call_sessions id' id, same)
        (rw (← (eq_iff id' id).0 same) (rw there (is_closed x)))
  | inr other ↦ rw (e, get-delete s.active_call_sessions id' id, other) (stays _)
]

-- Whatever event comes, the session under an id stays as it is, begins as a request, is answered
-- while it waits, or is closed; its users and its chat never change.
pub step-Evolves :
    (e : CallEvent) (g : CallGateway) (id : String)
    → Evolves
        (get g.service.active_call_sessions id)
        (get (step e g).service.active_call_sessions id)
step-Evolves e g id = Change-Evolves id (step-Change e g)
