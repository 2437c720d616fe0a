-- ===== src/Messages.antt =====
-- Messages with their pins: the tables that pinning and recalling use, and the events sent to the
-- rooms of the chats. message/ and pin-conversation/, with prisma/schema.prisma.
pub mod Pages
pub mod Pin
pub mod PinBounds
pub mod PinConversation
pub mod Recall
pub mod RecallLaws
pub mod DirectChats
use thunderchat_server.Base.{
  ℕ, String, Bool, true, false, ◌&&◌, Option, none, some, List, [], ◌∷◌, ◌==◌, nat_eq,
}
use thunderchat_server.Base.Prisma.{Client}
use thunderchat_server.Connection.{Clients}
use thunderchat_server.Group.{GroupDb, GroupClients, GroupChat, same_invite_code}

pub data MediaType : Type 0 where
  image video document audio : MediaType

pub record Media : Type 0 where
  pub type : MediaType
  pub file_name : String

pub data MessageType : Type 0 where
  text sticker media pin_notice : MessageType

pub data MessageStatus : Type 0 where
  sent seen : MessageStatus

-- A row with its media; the keys of its encryption are left out.
pub record ChatMessage : Type 0 where
  pub id : ℕ
  pub content : String
  pub author_id : ℕ
  pub recipient_id : Option ℕ
  pub direct_chat_id : Option ℕ
  pub group_chat_id : Option ℕ
  pub type : MessageType
  pub status : MessageStatus
  pub sticker_id : Option ℕ
  pub reply_to_id : Option ℕ
  pub is_deleted : Bool
  pub media : Option Media

pub record DirectChat : Type 0 where
  pub id : ℕ
  pub creator_id : ℕ
  pub recipient_id : ℕ
  pub last_sent_message_id : Option ℕ

pub record Profile : Type 0 where
  pub user_id : ℕ
  pub full_name : String

pub record PinnedMessage : Type 0 where
  pub id : ℕ
  pub message_id : ℕ
  pub direct_chat_id : Option ℕ
  pub group_chat_id : Option ℕ
  pub pinned_by : ℕ

-- What a room is told, what a socket is told, and what goes to the search index.
pub data ChatEvent : Type 0 where
  index_created index_deleted : ChatMessage → ChatEvent
  send_message_direct : (direct_chat_id : ℕ) → ChatMessage → ChatEvent
  send_message_group : (group_chat_id : ℕ) → ChatMessage → ChatEvent
  send_to_socket : (socket : String) → ChatMessage → ChatEvent
  new_conversation : (socket : String) → DirectChat → ChatMessage → ChatEvent
  pin_message pin_message_group :
      (chat_id : ℕ)
      → (message_id : ℕ) → (is_pinned : Bool) → (user_id : ℕ) → Option PinnedMessage
      → ChatEvent

pub record ChatDb : Type 0 where
  pub messages : List ChatMessage
  pub direct_chats : List DirectChat
  pub profiles : List Profile
  pub pinned_messages : List PinnedMessage
  pub group : GroupDb
  pub clients : Clients
  pub events : List ChatEvent

abbrev pub unconstrained : {R : Type 0} → R → R → Bool
unconstrained a b = false

-- `userId Int @unique`
abbrev pub same_profile : Profile → Profile → Bool
same_profile a b = a.user_id == b.user_id

pub record ChatClients : Type 0 where
  pub message : Client ChatMessage unconstrained
  pub direct_chat : Client DirectChat unconstrained
  pub profile : Client Profile same_profile
  pub pinned_message : Client PinnedMessage unconstrained
  pub group_clients : GroupClients

abbrev pub has_message_id : ℕ → ChatMessage → Bool
has_message_id id m = m.id == id

abbrev pub has_direct_chat_id : ℕ → DirectChat → Bool
has_direct_chat_id id c = c.id == id

abbrev pub is_id : Option ℕ → ℕ → Bool
is_id none id = false
is_id (some a) id = a == id

abbrev pub emit : ChatEvent → ChatDb → ChatDb
emit e s = record s { events = e ∷ s.events }
