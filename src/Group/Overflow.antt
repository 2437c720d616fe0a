-- ===== src/Group/Overflow.antt =====
-- Where a group chat that is full gets a member all the same, and what a failed approval leaves.
use thunderchat_server.Base.{
  ℕ, ◌+◌, String, ◌≤◌, ◌<◌, ◌≡◌, none, some, List, ◌∷◌, map, arith, if◌then◌else◌, count, nat_eq,
  nat_beq_iff,
}
use thunderchat_server.Base.Action.{ok, err, bad_request, group_member_message, GroupMemberMessage}
use thunderchat_server.Group.{
  GroupChat, Member, GroupDb, GroupClients, in_group, is_member, approved, JoinRequest,
}
use thunderchat_server.Group.Members.{add_members_to_group_chat, max_add_member_total}
use thunderchat_server.Group.Joining.{
  joined, join_group_chat_by_invite_code, self_member, process_join_request, has_request_id,
  set_status, has_code,
}

module _ (db : GroupClients) where
  open db use {group_chat, group_chat_member, group_join_request}

  -- Where a group chat has the code and a thousand members or more, and the user is none of them,
  -- the user joins it wherever the database takes the row: the answer is a success, and the group
  -- chat has one member more, which is the user.
  pub join_group_chat_by_invite_code-unbounded :
      (token : String) (u : ℕ) (s : GroupDb) (chat : GroupChat) (row : Member) (rows : List Member)
      → group_chat.find_first (has_code token) s.groups ≡ some chat
      → group_chat_member.find_first (is_member chat.id u) s.members ≡ none
      → group_chat_member.create (self_member chat.id u) s.members ≡ some (row, rows)
      → max_add_member_total ≤ count (in_group chat.id) s.members
      → let (r, s') = join_group_chat_by_invite_code db token u s in
        (r ≡ ok (joined chat.id))
        × (max_add_member_total < count (in_group chat.id) s'.members)
        × (count (in_group chat.id) s'.members ≡ count (in_group chat.id) s.members + 1)
        × (count (is_member chat.id u) s'.members ≡ 1)
  unfolding join_group_chat_by_invite_code
  join_group_chat_by_invite_code-unbounded token u s chat row rows found absent made full =
      let (id, same, grown, _) =
        group_chat_member.create-some (self_member chat.id u) s.members row rows made in
      let none_before = group_chat_member.find_first-none (is_member chat.id u) s.members absent in
      let now : (join_group_chat_by_invite_code db token u s).1.members
          ≡ self_member chat.id u id ∷ s.members =
        ground arith in
      (
        ground arith,
        rw now (ground (arith, nat_beq_iff chat.id chat.id)),
        rw now (ground (arith, nat_beq_iff chat.id chat.id)),
        rw now (ground (arith, none_before, nat_beq_iff chat.id chat.id, nat_beq_iff u u)),
      )

  -- Approving a request that is in the table, for a group chat with a thousand members, throws the
  -- exception of the maximum; no member is added, and the request is stored as approved.
  pub process_join_request-full :
      (id x : ℕ) (s : GroupDb) (request : JoinRequest) (rows : List JoinRequest)
      → group_join_request.update (has_request_id id) (set_status approved) s.join_requests
        ≡ some (request, rows)
      → count (in_group request.group_chat_id) s.members ≡ max_add_member_total
      → let (r, s') = process_join_request db id approved x s in
        (r ≡ err (bad_request (group_member_message GroupMemberMessage.max_add_member_total)))
        × (s'.members ≡ s.members)
        × (request.status ≡ approved)
        × (s'.join_requests
            ≡ map (λ q. if has_request_id id q then set_status approved q else q) s.join_requests)
  unfolding process_join_request add_members_to_group_chat
  process_join_request-full id x s request rows updated full =
      let (old, _, _, same, stored) =
        group_join_request.update-some (has_request_id id) (set_status approved) s.join_requests
          request rows updated in
      let total = group_chat_member.count_lem (in_group request.group_chat_id) s.members in
      let status : request.status ≡ approved = ground arith in
      (ground arith, ground arith, status, ground arith)
