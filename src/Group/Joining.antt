-- ===== src/Group/Joining.antt =====
-- group-chat/join-requests.service.ts and group-chat/invite-code.service.ts: the two ways into a
-- group chat that do not start from its admin.
use Prim.Native.String.{◌++◌ as append}
use thunderchat_server.Base.{
  ℕ, String, Bool, true, false, ◌&&◌, Option, none, some, List, [], ◌∷◌, ◌==◌, if◌then◌else◌,
  is_some, nat_eq, string_eq,
}
use thunderchat_server.Base.Action.{
  GroupMemberMessage, group_member_message, GroupChatMessage, group_chat_message, bad_request,
  not_found, Action, pure, throw, gets, query, modify, throw_if, ◌>>=◌, ◌>>◌,
}
use thunderchat_server.Group.{
  member, Member, GroupChat, JoinStatus, pending, approved, JoinRequest, GroupDb, GroupClients,
  is_member, has_group_id, emit, new_conversation,
}
use thunderchat_server.Group.Members.{add_members_to_group_chat}

abbrev is_pending : JoinStatus → Bool
is_pending pending = true
is_pending _ = false

abbrev is_approved : JoinStatus → Bool
is_approved approved = true
is_approved _ = false

abbrev is_from : ℕ → ℕ → JoinRequest → Bool
is_from group_chat_id user_id r = r.group_chat_id == group_chat_id && r.user_id == user_id

abbrev pub has_request_id : ℕ → JoinRequest → Bool
has_request_id id r = r.id == id

abbrev waits : Option JoinRequest → Bool
waits none = false
waits (some r) = is_pending r.status

abbrev new_request : ℕ → ℕ → ℕ → JoinRequest
new_request group_chat_id user_id id = record {
  id = id;
  group_chat_id = group_chat_id;
  user_id = user_id;
  status = pending;
}

abbrev with_requests : {A : Type 0} → Option (A × List JoinRequest) → GroupDb → Option (A × GroupDb)
with_requests none s = none
with_requests (some (a, rs)) s = some (a, record s { join_requests = rs })

abbrev pub set_status : JoinStatus → JoinRequest → JoinRequest
set_status status r = record r { status = status }

-- Each added member is told, at each socket, of the new conversation.
abbrev tell_members : List Member → ℕ → ℕ → GroupDb → GroupDb
tell_members [] group_chat_id executor_id s = s
tell_members (m ∷ ms) group_chat_id executor_id s =
    tell_members ms group_chat_id executor_id
      (emit (new_conversation m.user_id group_chat_id executor_id) s)

abbrev pub has_code : String → GroupChat → Bool
has_code token g = elim g.invite_code [ none ↦ false | some code ↦ code == token ]

abbrev set_code : String → GroupChat → GroupChat
set_code token g = record g { invite_code = some token }

abbrev with_groups : {A : Type 0} → Option (A × List GroupChat) → GroupDb → Option (A × GroupDb)
with_groups none s = none
with_groups (some (a, gs)) s = some (a, record s { groups = gs })

abbrev with_member_rows : {A : Type 0} → Option (A × List Member) → GroupDb → Option (A × GroupDb)
with_member_rows none s = none
with_member_rows (some (a, ms)) s = some (a, record s { members = ms })

-- A member that joined by itself.
abbrev pub self_member : ℕ → ℕ → ℕ → Member
self_member group_chat_id user_id row_id = record {
  group_chat_id = group_chat_id;
  user_id = user_id;
  role = member;
  joined_by = user_id;
}

abbrev or_not_found : {A : Type 0} → Option A → GroupChatMessage → Action GroupDb A
or_not_found none message = throw (not_found (group_chat_message message))
or_not_found (some a) message = pure a

-- `user_already` says that nothing had to be done.
pub data Joined : Type 0 where
  joined user_already : ℕ → Joined

module _ (db : GroupClients) where
  open db use {group_chat, group_chat_member, group_join_request}

  unfoldable pub create_join_request : ℕ → ℕ → Action GroupDb JoinRequest
  create_join_request group_chat_id user_id = do
    found ← gets (λ s. group_chat_member.find_first (is_member group_chat_id user_id) s.members)
    throw_if (is_some found)
        (bad_request (group_member_message GroupMemberMessage.user_already_a_member_of_group))
    existing ←
        gets (λ s. group_join_request.find_first (is_from group_chat_id user_id) s.join_requests)
    throw_if (waits existing)
        (bad_request (group_chat_message GroupChatMessage.user_already_has_requested_to_join_group))
    query (λ s.
        with_requests
          (group_join_request.create (new_request group_chat_id user_id) s.join_requests) s)

  abbrev approve : JoinRequest → ℕ → Action GroupDb JoinRequest
  approve request executor_id = do
    added ←
        add_members_to_group_chat db request.group_chat_id (request.user_id ∷ []) request.user_id
    modify (tell_members added request.group_chat_id executor_id)
    pure request

  -- The member is added in the name of the requester.
  unfoldable pub process_join_request : ℕ → JoinStatus → ℕ → Action GroupDb JoinRequest
  process_join_request join_request_id status executor_id = do
    request ← query (λ s.
        with_requests
          (group_join_request.update (has_request_id join_request_id) (set_status status)
            s.join_requests)
          s)
    if is_approved request.status then approve request executor_id else pure request

  -- `random_hash` is what `crypto` gives, `show` the digits of a number.
  unfoldable pub generate_invite_code : String → (ℕ → String) → ℕ → String
  generate_invite_code random_hash show group_chat_id =
      append random_hash (append "-" (show group_chat_id))

  unfoldable pub create_new_invite_code_for_group_chat :
      String → (ℕ → String) → ℕ → Action GroupDb String
  unfolding generate_invite_code
  create_new_invite_code_for_group_chat random_hash show group_chat_id = do
    group ← gets (λ s. group_chat.find_first (has_group_id group_chat_id) s.groups)
    or_not_found group GroupChatMessage.group_chat_not_found
    let token = generate_invite_code random_hash show group_chat_id
    query (λ s.
        with_groups (group_chat.update (has_group_id group_chat_id) (set_code token) s.groups) s)
    pure token

  abbrev join_as : ℕ → ℕ → Option Member → Action GroupDb Joined
  join_as group_chat_id user_id (some _) = pure (user_already group_chat_id)
  join_as group_chat_id user_id none = do
    query (λ s.
        with_member_rows (group_chat_member.create (self_member group_chat_id user_id) s.members) s)
    pure (joined group_chat_id)

  unfoldable pub join_group_chat_by_invite_code : String → ℕ → Action GroupDb Joined
  join_group_chat_by_invite_code token user_id = do
    found ← gets (λ s. group_chat.find_first (has_code token) s.groups)
    group ← or_not_found found GroupChatMessage.invalid_invite_link
    exists ← gets (λ s. group_chat_member.find_first (is_member group.id user_id) s.members)
    join_as group.id user_id exists
