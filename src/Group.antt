-- ===== src/Group.antt =====
-- Group chats: their tables in the database, and what the services rely on in the client of each.
-- group-chat/, group-member/ and auth/role/group-chat/, with prisma/schema.prisma.
pub mod Members
pub mod Chats
pub mod Joining
pub mod RoleGuard
pub mod Bounds
pub mod Creator
pub mod Overflow
use thunderchat_server.Base.{
  ℕ, String, Bool, true, false, ◌&&◌, Option, none, some, List, [], ◌∷◌, ◌==◌, nat_eq, string_eq,
}
use thunderchat_server.Base.Prisma.{Client}

pub data Role : Type 0 where
  admin member : Role

pub record Member : Type 0 where
  pub group_chat_id : ℕ
  pub user_id : ℕ
  pub role : Role
  pub joined_by : ℕ

pub record GroupChat : Type 0 where
  pub id : ℕ
  pub name : String
  pub avatar_url : Option String
  pub creator_id : ℕ
  pub invite_code : Option String

pub record Permissions : Type 0 where
  pub group_chat_id : ℕ
  pub send_message : Bool
  pub pin_message : Bool
  pub share_invite_code : Bool
  pub update_info : Bool

pub data Permission : Type 0 where
  send_message pin_message share_invite_code update_info : Permission

pub data JoinStatus : Type 0 where
  pending approved rejected : JoinStatus

pub record JoinRequest : Type 0 where
  pub id : ℕ
  pub group_chat_id : ℕ
  pub user_id : ℕ
  pub status : JoinStatus

-- The internal events, with the ids of what they carry.
pub data GroupEvent : Type 0 where
  chat_created : (group_chat_id : ℕ) → (members : List ℕ) → (creator : ℕ) → GroupEvent
  members_removed : Option GroupChat → List ℕ → GroupEvent
  members_added : (group_chat_id : ℕ) → (members : List ℕ) → (executor : ℕ) → GroupEvent
  member_left : (group_chat_id user_id : ℕ) → GroupEvent
  info_updated : (group_chat_id : ℕ) → Option String → Option String → GroupEvent
  new_conversation : (user_id group_chat_id executor : ℕ) → GroupEvent

pub record GroupDb : Type 0 where
  pub groups : List GroupChat
  pub members : List Member
  pub permissions : List Permissions
  pub join_requests : List JoinRequest
  pub events : List GroupEvent

abbrev pub empty_group_db : GroupDb
empty_group_db = record {
  groups = [];
  members = [];
  permissions = [];
  join_requests = [];
  events = [];
}

-- `@@unique([groupChatId, userId])`
abbrev pub same_member : Member → Member → Bool
same_member a b = a.group_chat_id == b.group_chat_id && a.user_id == b.user_id

abbrev same_code : Option String → Option String → Bool
same_code (some a) (some b) = a == b
same_code _ _ = false

-- `inviteCode String? @unique`
abbrev pub same_invite_code : GroupChat → GroupChat → Bool
same_invite_code a b = same_code a.invite_code b.invite_code

-- `groupChatId Int @unique`
abbrev pub same_permissions : Permissions → Permissions → Bool
same_permissions a b = a.group_chat_id == b.group_chat_id

abbrev pub no_clash : JoinRequest → JoinRequest → Bool
no_clash a b = false

pub record GroupClients : Type 0 where
  pub group_chat : Client GroupChat same_invite_code
  pub group_chat_member : Client Member same_member
  pub group_chat_permission : Client Permissions same_permissions
  pub group_join_request : Client JoinRequest no_clash

abbrev pub in_group : ℕ → Member → Bool
in_group group_chat_id m = m.group_chat_id == group_chat_id

abbrev pub is_member : ℕ → ℕ → Member → Bool
is_member group_chat_id user_id m = m.group_chat_id == group_chat_id && m.user_id == user_id

abbrev pub has_group_id : ℕ → GroupChat → Bool
has_group_id group_chat_id g = g.id == group_chat_id

abbrev pub emit : GroupEvent → GroupDb → GroupDb
emit e s = record s { events = e ∷ s.events }
