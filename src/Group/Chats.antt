-- ===== src/Group/Chats.antt =====
-- group-chat/group-chat.service.ts: making a group chat, its permissions, and changes of its info.
-- The uploads of avatars and the removal of a group chat with its messages are left out.
use Prim.Native.Char.{code}
use thunderchat_server.Base.{
  ℕ, ◌+◌, String, Bool, true, false, ◌&&◌, not, Option, none, some, List, ◌∷◌, map, ◌==◌, ltb,
  if◌then◌else◌, length, nat_eq, string_eq,
}
use thunderchat_server.Base.Action.{
  GroupMemberMessage, group_member_message, GroupChatMessage, group_chat_message, bad_request,
  not_found, Action, pure, throw, gets, query, modify, throw_if, ◌>>=◌, ◌>>◌,
}
use thunderchat_server.Group.{
  Role, admin, member, Member, GroupChat, Permissions, Permission, GroupDb, GroupClients,
  has_group_id, emit, chat_created, info_updated,
}
use thunderchat_server.Group.Members.{find_member_in_group_chat}

-- The length of a JavaScript string: a character beyond the first plane counts twice.
abbrev pub utf16_length : String → ℕ
utf16_length String.[] = 0
utf16_length (String.◌∷◌ c s) = (if ltb (code c) 0x10000 then 1 else 2) + utf16_length s

abbrev pub min_group_chat_name_length : ℕ
min_group_chat_name_length = 2

abbrev pub min_group_chat_members_count : ℕ
min_group_chat_members_count = 2

abbrev pub first_member : ℕ → ℕ → ℕ → Member
first_member group_chat_id creator_id member_id = record {
  group_chat_id = group_chat_id;
  user_id = member_id;
  role = if member_id == creator_id then admin else member;
  joined_by = creator_id;
}

abbrev pub new_group_chat : String → Option String → ℕ → ℕ → GroupChat
new_group_chat name avatar_url creator_id id = record {
  id = id;
  name = name;
  avatar_url = avatar_url;
  creator_id = creator_id;
  invite_code = none;
}

abbrev pub all_allowed : ℕ → ℕ → Permissions
all_allowed group_chat_id row_id = record {
  group_chat_id = group_chat_id;
  send_message = true;
  pin_message = true;
  share_invite_code = true;
  update_info = true;
}

abbrev has_permissions : ℕ → Permissions → Bool
has_permissions group_chat_id p = p.group_chat_id == group_chat_id

abbrev permits : Permission → Permissions → Bool
permits Permission.send_message p = p.send_message
permits Permission.pin_message p = p.pin_message
permits Permission.share_invite_code p = p.share_invite_code
permits Permission.update_info p = p.update_info

-- A group chat with no row of permissions allows everything.
abbrev or_allowed : Permission → Option Permissions → Bool
or_allowed permission none = true
or_allowed permission (some p) = permits permission p

abbrev pub is_admin : Role → Bool
is_admin admin = true
is_admin member = false

abbrev with_chat :
    GroupChat
    → Option (List Member)
    → Option (Permissions × List Permissions)
    → List GroupChat
    → GroupDb
    → Option (GroupChat × GroupDb)
with_chat chat (some ms) (some (_, ps)) gs s =
    some (chat, record s { groups = gs; members = ms; permissions = ps })
with_chat chat _ _ gs s = none

abbrev or_keep {ℓ} : {A : Type ℓ} → Option A → A → A
or_keep none a = a
or_keep (some b) a = b

-- An undefined field is left as it is.
abbrev pub updated_info : Option String → Option String → GroupChat → GroupChat
updated_info avatar_url name g = record g {
  avatar_url = elim avatar_url [ none ↦ g.avatar_url | some url ↦ some url ];
  name = or_keep name g.name;
}

abbrev with_groups : {A : Type 0} → Option (A × List GroupChat) → GroupDb → Option (A × GroupDb)
with_groups none s = none
with_groups (some (a, gs)) s = some (a, record s { groups = gs })

abbrev or_no_member : Option Member → Action GroupDb Member
or_no_member none =
    throw (not_found (group_member_message GroupMemberMessage.member_info_not_found))
or_no_member (some m) = pure m

module _ (db : GroupClients) where
  open db use {group_chat, group_chat_member, group_chat_permission}

  unfoldable pub find_group_chat_by_id : ℕ → GroupDb → Option GroupChat
  find_group_chat_by_id group_id s = group_chat.find_first (has_group_id group_id) s.groups

  -- One query makes the group chat, its members and its permissions, or nothing.
  abbrev insert_group_chat :
      String → Option String → ℕ → List ℕ → GroupDb → Option (GroupChat × GroupDb)
  insert_group_chat name avatar_url creator_id all_member_ids s =
      elim (group_chat.create (new_group_chat name avatar_url creator_id) s.groups) [
        | none ↦ none
        | some (chat, gs) ↦
            with_chat chat
              (group_chat_member.create_many (map (first_member chat.id creator_id) all_member_ids)
                s.members)
              (group_chat_permission.create (all_allowed chat.id) s.permissions) gs s
      ]

  unfoldable pub create_group_chat : ℕ → String → List ℕ → Option String → Action GroupDb GroupChat
  create_group_chat creator_id group_name member_ids avatar_url = do
    throw_if (ltb (utf16_length group_name) min_group_chat_name_length)
        (bad_request (group_chat_message GroupChatMessage.group_name_too_short))
    throw_if (ltb (length (creator_id ∷ member_ids)) min_group_chat_members_count)
        (bad_request (group_chat_message GroupChatMessage.group_members_too_few))
    chat ← query (insert_group_chat group_name avatar_url creator_id (creator_id ∷ member_ids))
    modify (emit (chat_created chat.id (creator_id ∷ member_ids) creator_id))
    pure chat

  unfoldable pub check_group_chat_permission : ℕ → Permission → GroupDb → Bool
  check_group_chat_permission group_chat_id permission s =
      or_allowed permission
        (group_chat_permission.find_first (has_permissions group_chat_id) s.permissions)

  -- A member who is no admin needs the permission.
  abbrev check_may_update : ℕ → Role → Action GroupDb (Unit {0})
  check_may_update group_chat_id role = do
    permission ← gets (check_group_chat_permission group_chat_id Permission.update_info)
    throw_if (not (is_admin role) && not permission)
        (bad_request (group_chat_message GroupChatMessage.user_has_no_permission_update_group_chat))

  unfoldable pub update_group_chat :
      ℕ → ℕ → Option String → Option String → Action GroupDb GroupChat
  unfolding check_group_chat_permission find_member_in_group_chat
  update_group_chat group_chat_id user_id avatar_url group_name = do
    found ← gets (find_member_in_group_chat db group_chat_id user_id)
    m ← or_no_member found
    check_may_update group_chat_id m.role
    chat ← query (λ s.
        with_groups
          (group_chat.update (has_group_id group_chat_id) (updated_info avatar_url group_name)
            s.groups)
          s)
    modify (emit (info_updated group_chat_id avatar_url group_name))
    pure chat

  abbrev or_no_permissions : Option Permissions → Action GroupDb Permissions
  or_no_permissions none =
      throw (not_found (group_chat_message GroupChatMessage.group_chat_permission_not_found))
  or_no_permissions (some p) = pure p

  unfoldable pub fetch_group_chat_permissions : ℕ → Action GroupDb Permissions
  fetch_group_chat_permissions group_chat_id = do
    found ←
        gets (λ s. group_chat_permission.find_first (has_permissions group_chat_id) s.permissions)
    or_no_permissions found
