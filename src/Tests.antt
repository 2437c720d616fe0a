-- ===== src/Tests.antt =====
-- Runs of the definitions on concrete states, and instances of the theorems there. The clients of
-- the tables are those that keep their rows in memory.
pub mod Accounts
pub mod Bans
pub mod Calls
pub mod Chats
pub mod Connections
pub mod Filing
pub mod Friends
pub mod Groups
pub mod Pages
pub mod Retry
pub mod SearchSync
pub mod Security
pub mod Sending
pub mod Uploads
use thunderchat_server.Base.Prisma.InMemory.{in_memory}
use thunderchat_server.Group.{GroupClients}
use thunderchat_server.Friend.{FriendClients}
use thunderchat_server.Messages.{ChatClients}

abbrev pub group_tables : GroupClients
group_tables = record {
  group_chat = in_memory _;
  group_chat_member = in_memory _;
  group_chat_permission = in_memory _;
  group_join_request = in_memory _;
}

abbrev pub friend_tables : FriendClients
friend_tables = record {
  friend_request = in_memory _;
  friend = in_memory _;
  blocked_user = in_memory _;
  user_settings = in_memory _;
  user = in_memory _;
}

abbrev pub chat_tables : ChatClients
chat_tables = record {
  message = in_memory _;
  direct_chat = in_memory _;
  profile = in_memory _;
  pinned_message = in_memory _;
  group_clients = group_tables;
}
