-- ===== src/Group/Members.antt =====
-- group-member/group-member.service.ts: who is in a group chat.
use thunderchat_server.Base.{
  ℕ, ◌+◌, Bool, false, not, ◌&&◌, Option, none, some, List, [], ◌∷◌, map, ◌==◌, ltb, length,
  includes, nat_eq,
}
use thunderchat_server.Base.Action.{
  GroupMemberMessage, group_member_message, bad_request, internal, ok, err, Action, pure, gets,
  query, modify, throw_if, ◌>>=◌, ◌>>◌,
}
use thunderchat_server.Group.{
  member, Member, GroupChat, GroupDb, GroupClients, in_group, is_member, has_group_id, emit,
  members_removed, members_added, member_left,
}

abbrev pub max_add_member_at_once : ℕ
max_add_member_at_once = 10

abbrev pub max_add_member_total : ℕ
max_add_member_total = 1000

abbrev pub min_member_in_group_chat : ℕ
min_member_in_group_chat = 2

abbrev pub is_one_of : ℕ → List ℕ → Member → Bool
is_one_of group_chat_id member_ids m = in_group group_chat_id m && includes member_ids m.user_id

abbrev pub new_member : ℕ → ℕ → ℕ → Member
new_member group_chat_id executor_id member_id = record {
  group_chat_id = group_chat_id;
  user_id = member_id;
  role = member;
  joined_by = executor_id;
}

abbrev pub is_created_by : ℕ → ℕ → GroupChat → Bool
is_created_by group_chat_id user_id g = g.id == group_chat_id && g.creator_id == user_id

abbrev pub is_creator : Option GroupChat → ℕ → Bool
is_creator none user_id = false
is_creator (some g) user_id = g.creator_id == user_id

abbrev with_members : Option (List Member) → GroupDb → Option (Unit {0} × GroupDb)
with_members none s = none
with_members (some ms) s = some (tt, record s { members = ms })

module _ (db : GroupClients) where
  open db use {group_chat, group_chat_member}

  unfoldable pub find_group_chat_member_ids : ℕ → GroupDb → List ℕ
  find_group_chat_member_ids group_chat_id s =
      map (λ m. m.user_id) (group_chat_member.find_many (in_group group_chat_id) s.members)

  unfoldable pub find_member_in_group_chat : ℕ → ℕ → GroupDb → Option Member
  find_member_in_group_chat group_chat_id user_id s =
      group_chat_member.find_first (is_member group_chat_id user_id) s.members

  abbrev delete_member : ℕ → ℕ → GroupDb → Option (Unit {0} × GroupDb)
  delete_member group_chat_id user_id s =
      with_members (group_chat_member.delete (is_member group_chat_id user_id) s.members) s

  -- The `try` block: a rejected query is another exception.
  abbrev delete_or_fail : ℕ → ℕ → Action GroupDb (Unit {0})
  delete_or_fail group_chat_id member_id s = elim (delete_member group_chat_id member_id s) [
    | none ↦ (err (internal (group_member_message GroupMemberMessage.failed_to_remove_member)), s)
    | some (_, s') ↦ (ok tt, s')
  ]

  unfoldable pub remove_group_chat_member : ℕ → ℕ → Action GroupDb (Unit {0})
  remove_group_chat_member group_chat_id member_id = do
    total_members ← gets (λ s. group_chat_member.count (in_group group_chat_id) s.members)
    throw_if (not (total_members == 0) && ltb total_members (min_member_in_group_chat + 1))
        (bad_request (group_member_message GroupMemberMessage.min_member_in_group_chat))
    delete_or_fail group_chat_id member_id
    chat ← gets (λ s. group_chat.find_first (has_group_id group_chat_id) s.groups)
    modify (emit (members_removed chat (member_id ∷ [])))

  unfoldable pub check_if_members_in_group_chat : ℕ → List ℕ → GroupDb → Bool
  check_if_members_in_group_chat group_chat_id member_ids s =
      ltb 0 (length (group_chat_member.find_many (is_one_of group_chat_id member_ids) s.members))

  -- One query: the group chat is updated, which it has to be there for, and the members are
  -- created, or nothing is.
  abbrev create_members : ℕ → List ℕ → ℕ → GroupDb → Option (Unit {0} × GroupDb)
  create_members group_chat_id member_ids executor_id s =
      elim (group_chat.update (has_group_id group_chat_id) (λ g. g) s.groups) [
        | none ↦ none
        | some _ ↦
            with_members
              (group_chat_member.create_many (map (new_member group_chat_id executor_id) member_ids)
                s.members)
              s
      ]

  unfoldable pub add_members_to_group_chat : ℕ → List ℕ → ℕ → Action GroupDb (List Member)
  unfolding check_if_members_in_group_chat
  add_members_to_group_chat group_chat_id member_ids executor_id = do
    throw_if (ltb max_add_member_at_once (length member_ids))
        (bad_request (group_member_message GroupMemberMessage.max_add_member_at_once))
    total_members ← gets (λ s. group_chat_member.count (in_group group_chat_id) s.members)
    throw_if (ltb max_add_member_total (total_members + length member_ids))
        (bad_request (group_member_message GroupMemberMessage.max_add_member_total))
    present ← gets (check_if_members_in_group_chat group_chat_id member_ids)
    throw_if present
        (bad_request (group_member_message GroupMemberMessage.members_already_in_group_chat))
    query (create_members group_chat_id member_ids executor_id)
    added ← gets (λ s. group_chat_member.find_many (is_one_of group_chat_id member_ids) s.members)
    modify (emit (members_added group_chat_id member_ids executor_id))
    pure added

  unfoldable pub leave_group_chat : ℕ → ℕ → Action GroupDb (Unit {0})
  leave_group_chat group_chat_id user_id = do
    chat ← gets (λ s. group_chat.find_first (is_created_by group_chat_id user_id) s.groups)
    throw_if (is_creator chat user_id)
        (bad_request (group_member_message GroupMemberMessage.admin_cannot_leave_group_chat))
    query (delete_member group_chat_id user_id)
    modify (emit (member_left group_chat_id user_id))
