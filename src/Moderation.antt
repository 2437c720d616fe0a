-- ===== src/Moderation.antt =====
-- Reports of violations, what the administrators do about them, and who may log in then: the tables
-- of admin/admin.service.ts, auth/auth.service.ts and user/user-report/, with prisma/schema.prisma.
pub mod Bans
pub mod Reports
pub mod UserReports
pub mod Filing
pub mod Violations
use thunderchat_server.Base.{ℕ, String, Bool, true, false, Option, List, ◌==◌, nat_eq, string_eq}
use thunderchat_server.Base.Prisma.{Client, Latest}
use thunderchat_server.Account.{Account, same_email}
use thunderchat_server.Connection.{Clients}
use thunderchat_server.Messages.{MessageType, DirectChat, unconstrained}

pub data ReportStatus : Type 0 where
  pending resolved dismissed : ReportStatus

pub data ViolationActionType : Type 0 where
  warning temporary_ban permanent_ban : ViolationActionType

pub record ViolationReport : Type 0 where
  pub id : ℕ
  pub reporter_user_id : ℕ
  pub reported_user_id : ℕ
  pub report_status : ReportStatus
  pub created_at : ℕ

pub record ViolationAction : Type 0 where
  pub id : ℕ
  pub action_reason : String
  pub action_type : ViolationActionType
  pub banned_until : Option ℕ
  pub report_id : ℕ
  pub created_at : ℕ

-- `reportId Int @unique`
abbrev pub same_report : ViolationAction → ViolationAction → Bool
same_report a b = a.report_id == b.report_id

-- The columns of a message that a ban reads or changes.
pub record ReportedRow : Type 0 where
  pub id : ℕ
  pub content : String
  pub type : MessageType
  pub sticker_id : Option ℕ
  pub media_id : Option ℕ
  pub direct_chat_id : Option ℕ
  pub is_deleted : Bool
  pub is_violated : Bool

pub record MessageMedia : Type 0 where
  pub id : ℕ
  pub url : String

-- `url String @unique`
abbrev pub same_url : MessageMedia → MessageMedia → Bool
same_url a b = a.url == b.url

-- The tables, the sockets, the files that were deleted from the file store, and the messages that
-- were sent to sockets, the newest first.
pub record ModerationDb : Type 0 where
  pub users : List Account
  pub reports : List ViolationReport
  pub actions : List ViolationAction
  pub messages : List ReportedRow
  pub media : List MessageMedia
  pub direct_chats : List DirectChat
  pub clients : Clients
  pub deleted_files : List String
  pub sent : List (String × ReportedRow)
  pub sessions : List ℕ

pub record ModerationClients : Type 0 where
  pub user : Client Account same_email
  pub violation_report : Client ViolationReport unconstrained
  pub violation_action : Client ViolationAction same_report
  pub latest_action : Latest ViolationAction
  pub message : Client ReportedRow unconstrained
  pub message_media : Client MessageMedia same_url
  pub direct_chat : Client DirectChat unconstrained
  pub commits : ModerationDb → Bool

abbrev pub has_report_id : ℕ → ViolationReport → Bool
has_report_id id r = r.id == id
