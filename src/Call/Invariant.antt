-- ===== src/Call/Invariant.antt =====
-- What the operations of the call service do to its two maps, and the invariant that follows.
use thunderchat_server.Base.{
  ℕ, zero, suc, String, ◌≡◌, refl, ◌∙◌, Bool, true, ◌||◌, none, some, [], ◌∷◌, arith, find, All,
  Option-cases, Bool-cases, inl, inr, string_eq, nat_eq, eq_refl, eq_iff, ◌⊎◌,
}
use thunderchat_server.Base.JsMap.{
  Map, get, has, set, delete, values, IsMap, set-IsMap, delete-IsMap,
}
use thunderchat_server.Call.{
  CallStatus, requesting, accepted, HangupReason, CallSession, CallService, Draw, drawn, gave_up,
  out_of_fuel, new_session, is_requesting, is_ringing, draw_id, init_active_call_session,
  accept_call, end_call, max_retry_count,
}

abbrev pub is_waiting : CallStatus → Bool
is_waiting status = is_requesting status || is_ringing status

pub data Change (s t : CallService) : Type 0 where
  unchanged :
      t.active_call_sessions ≡ s.active_call_sessions
      → t.users_calling ≡ s.users_calling
      → Change s t
  opened :
      (session : CallSession)
      → get s.active_call_sessions session.id ≡ none
      → session.status ≡ requesting
      → t.active_call_sessions ≡ set s.active_call_sessions session.id session
      → t.users_calling ≡ s.users_calling
      → Change s t
  answered :
      (id : String) (session : CallSession)
      → get s.active_call_sessions id ≡ some session
      → is_waiting session.status ≡ true
      → t.active_call_sessions
        ≡ set s.active_call_sessions id (record session { status = accepted })
      → t.users_calling ≡ s.users_calling
      → Change s t
  closed :
      (id : String) (session : CallSession)
      → get s.active_call_sessions id ≡ some session
      → t.active_call_sessions ≡ delete s.active_call_sessions id
      → (s.users_calling ≡ [] → t.users_calling ≡ [])
      → Change s t

draw_id-free :
    (m : Map String CallSession) (uuid : ℕ → String) (fuel n : ℕ) (id : String)
    → draw_id m uuid fuel n ≡ drawn id
    → get m id ≡ none
unfolding draw_id has
draw_id-free m uuid zero n id h = cc
draw_id-free m uuid (suc fuel) n id h =
    ground (arith, draw_id-free m uuid fuel (suc n) id, Option-cases (get m (uuid n)))

Draw-cases : (d : Draw) → ((id : String) × (d ≡ drawn id)) ⊎ ((d ≡ gave_up) ⊎ (d ≡ out_of_fuel))
Draw-cases (drawn id) = inl (id, refl)
Draw-cases gave_up = inr (inl refl)
Draw-cases out_of_fuel = inr (inr refl)

pub init-Change :
    (uuid : ℕ → String) (caller callee chat : ℕ) (video : Bool) (s : CallService)
    → Change s (init_active_call_session uuid caller callee chat video s).1
unfolding init_active_call_session
init-Change uuid caller callee chat video s =
    elim (Draw-cases (draw_id s.active_call_sessions uuid max_retry_count 0)) [
      | inl (id, e) ↦
          opened (new_session id caller callee chat video)
            (draw_id-free s.active_call_sessions uuid max_retry_count 0 id e) refl (ground arith)
            (ground arith)
      | inr (inl e) ↦ unchanged (ground arith) (ground arith)
      | inr (inr e) ↦ unchanged (ground arith) (ground arith)
    ]

pub accept-Change : (id : String) (s : CallService) → Change s (accept_call id s).1
unfolding accept_call
accept-Change id s = elim (Option-cases (get s.active_call_sessions id)) [
  | inl e ↦ unchanged (ground arith) (ground arith)
  | inr (session, e) ↦ elim (Bool-cases (is_waiting session.status)) [
    | inl w ↦ answered id session e w (ground arith) (ground arith)
    | inr w ↦ unchanged (ground arith) (ground arith)
  ]
]

pub end-Change :
    (id : String) (reason : HangupReason) (s : CallService) → Change s (end_call id reason s).1
unfolding end_call get delete
end-Change id reason s = elim (Option-cases (get s.active_call_sessions id)) [
  | inl e ↦ unchanged (ground arith) (ground arith)
  | inr (session, e) ↦ closed id session e (ground arith) (λ empty. ground arith)
]

-- Every session stands under its own id, no id twice, and no user is registered as calling.
pub record IsValid (s : CallService) : Type 0 where
  pub keys : IsMap s.active_call_sessions
  pub own_ids : All (λ e. e.1.id ≡ e.0) s.active_call_sessions
  pub idle : s.users_calling ≡ []

module _ {V : Type 0} (P : String × V → Type 0) where
  set-All : (m : Map String V) (k : String) (v : V) → All P m → P (k, v) → All P (set m k v)
  unfolding set
  set-All [] k v h p = (p, tt)
  set-All ((j, w) ∷ m) k v h p = ground (arith, set-All m k v h.1 p)

  delete-All : (m : Map String V) (k : String) → All P m → All P (delete m k)
  unfolding delete
  delete-All [] k h = tt
  delete-All ((j, w) ∷ m) k h = ground (arith, delete-All m k h.1)

pub get-own_id :
    (m : Map String CallSession) (id : String) (session : CallSession)
    → All (λ e. e.1.id ≡ e.0) m
    → get m id ≡ some session
    → session.id ≡ id
unfolding get
get-own_id [] id session h g = cc
get-own_id ((j, x) ∷ m) id session h g = ground (arith, get-own_id m id session h.1, eq_iff j id)

-- A session that a search of the values gives is the one under its id.
pub find-get :
    (p : CallSession → Bool) (m : Map String CallSession) (session : CallSession)
    → IsMap m
    → All (λ e. e.1.id ≡ e.0) m
    → find p (values m) ≡ some session
    → (get m session.id ≡ some session) × (p session ≡ true)
unfolding get
find-get p [] session k o h = (cc, cc)
find-get p ((j, x) ∷ m) session k o h = elim (Bool-cases (p x)) [
  | inl e ↦ (ground (arith, eq_refl j, eq_iff x.id j, eq_iff j x.id), ground arith)
  | inr e ↦ ground (arith, find-get p m session k.1 o.1 (ground arith), eq_iff j session.id)
]

pub Change-IsValid : {s t : CallService} → IsValid s → Change s t → IsValid t
Change-IsValid v (unchanged e c) = record {
  keys = rw e v.keys;
  own_ids = rw e v.own_ids;
  idle = c ∙ v.idle;
}
Change-IsValid {s} v (opened x _ _ e c) = record {
  keys = rw e (set-IsMap s.active_call_sessions x.id x v.keys);
  own_ids = rw e (set-All _ s.active_call_sessions x.id x v.own_ids refl);
  idle = c ∙ v.idle;
}
Change-IsValid {s} v (answered id x g _ e c) = record {
  keys = rw e (set-IsMap s.active_call_sessions id _ v.keys);
  own_ids = rw e (
      set-All _ s.active_call_sessions id _ v.own_ids
        (get-own_id s.active_call_sessions id x v.own_ids g));
  idle = c ∙ v.idle;
}
Change-IsValid {s} v (closed id x _ e c) = record {
  keys = rw e (delete-IsMap s.active_call_sessions id v.keys);
  own_ids = rw e (delete-All _ s.active_call_sessions id v.own_ids);
  idle = c v.idle;
}
