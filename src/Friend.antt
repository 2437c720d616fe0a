-- ===== src/Friend.antt =====
-- Friends, friend requests, blocks and the setting that only friends may write: their tables.
-- friend/, friend-request/, user/block-user.service.ts, with prisma/schema.prisma.
pub mod Requests
pub mod Blocks
pub mod MaySend
pub mod RequestLaws
pub mod Removal
pub mod SendLaws
use thunderchat_server.Base.{ℕ, Bool, true, false, ◌&&◌, ◌||◌, List, [], ◌∷◌, ◌==◌, nat_eq}
use thunderchat_server.Base.Prisma.{Client}

pub data RequestStatus : Type 0 where
  pending accepted rejected : RequestStatus

pub record FriendRequest : Type 0 where
  pub id : ℕ
  pub sender_id : ℕ
  pub recipient_id : ℕ
  pub status : RequestStatus

pub record Friend : Type 0 where
  pub id : ℕ
  pub sender_id : ℕ
  pub recipient_id : ℕ

pub record BlockedUser : Type 0 where
  pub id : ℕ
  pub blocker_user_id : ℕ
  pub blocked_user_id : ℕ

pub record UserSettings : Type 0 where
  pub user_id : ℕ
  pub only_receive_friend_message : Bool

-- What the sockets of a user are told.
pub data FriendEvent : Type 0 where
  sends_friend_request : (to : ℕ) → (sender : ℕ) → FriendRequest → FriendEvent
  acts_on_friend_request : (to : ℕ) → (request : ℕ) → RequestStatus → FriendEvent

pub record FriendDb : Type 0 where
  pub friend_requests : List FriendRequest
  pub friends : List Friend
  pub blocked_users : List BlockedUser
  pub settings : List UserSettings
  pub users : List ℕ
  pub events : List FriendEvent

abbrev pub empty_friend_db : FriendDb
empty_friend_db = record {
  friend_requests = [];
  friends = [];
  blocked_users = [];
  settings = [];
  users = [];
  events = [];
}

-- `userId Int @unique`; the other tables have no constraint of the kind.
abbrev pub same_settings : UserSettings → UserSettings → Bool
same_settings a b = a.user_id == b.user_id

abbrev pub unconstrained : {R : Type 0} → R → R → Bool
unconstrained a b = false

abbrev pub same_user : ℕ → ℕ → Bool
same_user a b = a == b

pub record FriendClients : Type 0 where
  pub friend_request : Client FriendRequest unconstrained
  pub friend : Client Friend unconstrained
  pub blocked_user : Client BlockedUser unconstrained
  pub user_settings : Client UserSettings same_settings
  pub user : Client ℕ same_user

-- A request, a friendship or a block between two users, in either direction.
abbrev pub requests_between : ℕ → ℕ → FriendRequest → Bool
requests_between u v r =
    r.sender_id == u && r.recipient_id == v || r.sender_id == v && r.recipient_id == u

abbrev pub friends_between : ℕ → ℕ → Friend → Bool
friends_between u v f =
    f.sender_id == u && f.recipient_id == v || f.sender_id == v && f.recipient_id == u

abbrev pub blocks : ℕ → ℕ → BlockedUser → Bool
blocks u v b = b.blocker_user_id == u && b.blocked_user_id == v

abbrev pub blocks_between : ℕ → ℕ → BlockedUser → Bool
blocks_between u v b = blocks u v b || blocks v u b

abbrev pub emit : FriendEvent → FriendDb → FriendDb
emit e s = record s { events = e ∷ s.events }
