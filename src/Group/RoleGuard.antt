-- ===== src/Group/RoleGuard.antt =====
-- auth/role/group-chat/group-chat-role.guard.ts: who passes the guard of a route of a group chat.
use thunderchat_server.Base.{
  ℕ, String, Bool, true, false, ◌≡◌, Option, none, some, List, [], ◌∷◌, ◌==◌, if◌then◌else◌, nat_eq,
  string_eq, arith, any, Option-cases, inl, inr,
}
use mathlib.Core.List.{Memᴰ}
use thunderchat_server.Base.Action.{
  RoleMessage, role_message, GroupChatMessage, group_chat_message, bad_request, not_found,
  unauthorized, internal_error, Result, ok, err,
}
use thunderchat_server.Group.{Role, admin, member, Member, GroupDb, GroupClients, is_member}
use thunderchat_server.Group.Members.{find_member_in_group_chat}

-- The places of a request that can hold the id of the group chat, in the order of the guard, and
-- the user that the authentication has put there.
pub record GuardedRequest : Type 0 where
  pub query_group_chat_id : Option String
  pub body_group_chat_id : Option String
  pub params_group_chat_id : Option String
  pub user_id : Option ℕ

-- `||`: the first place that holds a text which is not empty.
abbrev first_given : Option String → Option String → Option String
first_given none other = other
first_given (some s) other = if s == "" then other else some s

abbrev pub same_role : Role → Role → Bool
same_role admin admin = true
same_role member member = true
same_role _ _ = false

-- `parseInt`, with neither `NaN` nor 0 let through.
abbrev nonzero : Option ℕ → Option ℕ
nonzero none = none
nonzero (some n) = if n == 0 then none else some n

module _ (parse_int : String → Option ℕ) (db : GroupClients) where
  abbrev check_role : List Role → Option Member → Result (Unit {0})
  check_role required none = err (not_found (group_chat_message GroupChatMessage.member_not_found))
  check_role required (some m) =
      if any (same_role m.role) required
      then ok tt
      else err (unauthorized (role_message RoleMessage.member_has_no_permission))

  abbrev check_user : List Role → ℕ → Option ℕ → GroupDb → Result (Unit {0})
  check_user required group_chat_id none s = err internal_error
  check_user required group_chat_id (some user_id) s =
      check_role required (find_member_in_group_chat db group_chat_id user_id s)

  abbrev check_id : List Role → Option ℕ → Option ℕ → GroupDb → Result (Unit {0})
  check_id required none user_id s =
      err (bad_request (role_message RoleMessage.group_chat_id_is_not_valid))
  check_id required (some group_chat_id) user_id s = check_user required group_chat_id user_id s

  abbrev check_given : List Role → Option String → Option ℕ → GroupDb → Result (Unit {0})
  check_given required none user_id s =
      err (bad_request (role_message RoleMessage.group_chat_id_not_found))
  check_given required (some text) user_id s =
      check_id required (nonzero (parse_int text)) user_id s

  abbrev pub given_id : GuardedRequest → Option String
  given_id r =
      first_given r.query_group_chat_id
        (first_given r.body_group_chat_id (first_given r.params_group_chat_id none))

  unfoldable pub authorize_user : List Role → GuardedRequest → GroupDb → Result (Unit {0})
  unfolding find_member_in_group_chat
  authorize_user [] r s = ok tt
  authorize_user (x ∷ required) r s = check_given (x ∷ required) (given_id r) r.user_id s

  -- A request that passes a guard with roles comes from a user who stands, with one of these roles,
  -- in the group chat whose number the request gives; that number is not 0.
  pub authorize_user_sound :
      (x : Role) (required : List Role) (r : GuardedRequest) (s : GroupDb)
      → authorize_user (x ∷ required) r s ≡ ok tt
      → (text : String) × (group_chat_id user_id : ℕ) × (m : Member) × (given_id r ≡ some text)
        × (parse_int text ≡ some group_chat_id)
        × ((group_chat_id == 0) ≡ false)
        × (r.user_id ≡ some user_id)
        × Memᴰ m s.members
        × (is_member group_chat_id user_id m ≡ true)
        × (any (same_role m.role) (x ∷ required) ≡ true)
  unfolding authorize_user
  authorize_user_sound x required r s h = elim (Option-cases (given_id r)) [
    | inl a ↦ absurd (ground arith)
    | inr (text, a) ↦ elim (Option-cases (parse_int text)) [
      | inl b ↦ absurd (ground arith)
      | inr (g, b) ↦ elim (Option-cases r.user_id) [
        | inl c ↦ absurd (ground arith)
        | inr (u, c) ↦ elim (Option-cases (find_member_in_group_chat db g u s)) [
          | inl d ↦ absurd (ground arith)
          | inr (m, d) ↦
              let (is, there) =
                db.group_chat_member.find_first-some (is_member g u) s.members m d in
              (text, g, u, m, a, b, ground arith, c, there, is, ground arith)
        ]
      ]
    ]
  ]
