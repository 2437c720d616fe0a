-- ===== src/Tests/Groups.antt =====
-- A group chat with three members, one with a thousand, and requests that pass the guard.
use thunderchat_server.Base.{
  ℕ, zero, suc, ◌≡◌, ◌≤◌, ◌<◌, ◌+◌, ◌⊎◌, refl, String, true, false, Option, none, some, List, [],
  ◌∷◌, ◌==◌, if◌then◌else◌, count, includes, any, arith, nat_eq, string_eq,
}
use mathlib.Core.List.{Memᴰ}
use thunderchat_server.Base.Prisma.{Distinct}
use thunderchat_server.Base.Action.{ok, err, bad_request, GroupMemberMessage, group_member_message}
use thunderchat_server.Group.{
  admin, member, Member, GroupChat, JoinRequest, pending, approved, GroupDb, empty_group_db,
  in_group, is_member, same_member,
}
use thunderchat_server.Group.Members.{
  remove_group_chat_member, add_members_to_group_chat, max_add_member_total,
}
use thunderchat_server.Group.Chats.{create_group_chat}
use thunderchat_server.Group.Joining.{
  joined, self_member, join_group_chat_by_invite_code, process_join_request,
}
use thunderchat_server.Group.RoleGuard.{
  GuardedRequest, authorize_user, given_id, same_role, authorize_user_sound,
}
use thunderchat_server.Group.Bounds.{
  remove_group_chat_member-bound, add_members_to_group_chat-bound,
}
use thunderchat_server.Group.Overflow.{
  join_group_chat_by_invite_code-unbounded, process_join_request-full,
}
use thunderchat_server.Tests.{group_tables}

abbrev row : ℕ → ℕ → Member
row g u = record { group_chat_id = g; user_id = u; role = member; joined_by = 1 }

abbrev founder : Member
founder = record { group_chat_id = 9; user_id = 1; role = admin; joined_by = 1 }

abbrev chat : GroupChat
chat = record {
  id = 9;
  name = "team";
  avatar_url = none;
  creator_id = 1;
  invite_code = some "code";
}

-- Users 1, 2 and 3 are in group chat 9, which user 1 has made.
abbrev team : GroupDb
team = record empty_group_db { groups = chat ∷ []; members = founder ∷ row 9 2 ∷ row 9 3 ∷ [] }

team-Distinct : Distinct same_member team.members
team-Distinct = (refl, (refl, (refl, tt)))

abbrev smaller : GroupDb
smaller = (remove_group_chat_member group_tables 9 3 team).1

remove_group_chat_member-bound_example :
    (2 ≤ count (in_group 9) smaller.members)
    × (count (in_group 9) smaller.members + 1 ≡ count (in_group 9) team.members)
    × (count (is_member 9 3) team.members ≡ 1)
    × ((h : ℕ)
        → count (in_group h) smaller.members + (if 9 == h then 1 else 0)
          ≡ count (in_group h) team.members)
unfolding remove_group_chat_member
remove_group_chat_member-bound_example =
    remove_group_chat_member-bound group_tables 9 3 team smaller team-Distinct refl

abbrev newcomers : List ℕ
newcomers = 4 ∷ 5 ∷ []

abbrev larger : GroupDb
larger = (add_members_to_group_chat group_tables 9 newcomers 1 team).1

add_members_to_group_chat-bound_example :
    (2 ≤ 10)
    × (count (in_group 9) larger.members ≡ count (in_group 9) team.members + 2)
    × (count (in_group 9) larger.members ≤ 1000)
    × ((u : ℕ)
        → (includes newcomers u ≡ false)
          ⊎ (count (is_member 9 u) team.members ≡ 0) × (count (is_member 9 u) larger.members ≡ 1))
    × ((h : ℕ)
        → count (in_group h) larger.members
          ≡ count (in_group h) team.members + (if 9 == h then 2 else 0))
unfolding add_members_to_group_chat
add_members_to_group_chat-bound_example =
    add_members_to_group_chat-bound group_tables 9 1 newcomers team larger (row 9 4 ∷ row 9 5 ∷ [])
      team-Distinct refl

abbrev parse : String → Option ℕ
parse text = if text == "9" then some 9 else none

abbrev guarded : GuardedRequest
guarded = record {
  query_group_chat_id = none;
  body_group_chat_id = some "9";
  params_group_chat_id = none;
  user_id = some 1;
}

authorize_user_sound_example :
    (text : String) × (group_chat_id user_id : ℕ) × (m : Member) × (given_id parse group_tables
        guarded
      ≡ some text)
    × (parse text ≡ some group_chat_id)
    × ((group_chat_id == 0) ≡ false)
    × (guarded.user_id ≡ some user_id)
    × Memᴰ m team.members
    × (is_member group_chat_id user_id m ≡ true)
    × (any (same_role m.role) (admin ∷ []) ≡ true)
unfolding authorize_user
authorize_user_sound_example = authorize_user_sound parse group_tables admin [] guarded team refl

abbrev first_two : List ℕ
first_two = 2 ∷ 3 ∷ []

abbrev made : GroupDb
made = (create_group_chat group_tables 1 "team" first_two none empty_group_db).1

abbrev made_chat : GroupChat
made_chat = record { id = 1; name = "team"; avatar_url = none; creator_id = 1; invite_code = none }

-- The members with the ids below `n` of a group chat.
rows_of : ℕ → List Member
rows_of zero = []
rows_of (suc n) = row 9 n ∷ rows_of n

count-rows_of : (n : ℕ) → count (in_group 9) (rows_of n) ≡ n
unfolding rows_of
count-rows_of zero = refl
count-rows_of (suc n) = omega (arith, count-rows_of n)

abbrev asked : JoinRequest
asked = record { id = 6; group_chat_id = 9; user_id = 2000; status = pending }

abbrev full : GroupDb
full = record team { members = rows_of 1000; join_requests = asked ∷ [] }

process_join_request-full_example :
    let (r, s) = process_join_request group_tables 6 approved 1 full in
    (r ≡ err (bad_request (group_member_message GroupMemberMessage.max_add_member_total)))
    × (s.members ≡ full.members)
    × (approved ≡ approved)
    × (s.join_requests ≡ record asked { status = approved } ∷ [])
process_join_request-full_example =
    process_join_request-full group_tables 6 1 full (record asked { status = approved })
      (record asked { status = approved } ∷ []) refl (count-rows_of 1000)

join_group_chat_by_invite_code-unbounded_example :
    let (r, s) = join_group_chat_by_invite_code group_tables "code" 2000 full in
    (r ≡ ok (joined 9))
    × (max_add_member_total < count (in_group 9) s.members)
    × (count (in_group 9) s.members ≡ count (in_group 9) full.members + 1)
    × (count (is_member 9 2000) s.members ≡ 1)
unfolding join_group_chat_by_invite_code rows_of
join_group_chat_by_invite_code-unbounded_example =
    join_group_chat_by_invite_code-unbounded group_tables "code" 2000 full chat
      (self_member 9 2000 1001) (self_member 9 2000 1001 ∷ rows_of 1000) refl refl refl
      (omega (arith, count-rows_of 1000))
