-- ===== src/Moderation/UserReports.antt =====
-- user/user-report/user-report.service.ts: a user reports another one, with images and messages.
-- The tables are given back where the transaction throws; the files and the rows of media that the
-- upload service writes are outside of it. The answer to an error holds the error; the code that is
-- looked for in its text is left out. A second pass of the rollback after a timeout deletes the same
-- files again and is left out too.
use thunderchat_server.Base.{
  ℕ, ◌+◌, String, Bool, true, false, ◌&&◌, ◌||◌, Option, none, some, List, [], ◌∷◌, ◌==◌, leb,
  nat_eq, string_eq, list_eq, includes,
}
use thunderchat_server.Base.Action.{Exception}
use thunderchat_server.Base.Prisma.{Client}
use thunderchat_server.Account.{Account, same_email}
use thunderchat_server.Messages.{unconstrained, is_id}
use thunderchat_server.Moderation.{ViolationReport, pending}
use thunderchat_server.Security.Utf16.{Text}
use thunderchat_server.Uploads.{UploadDb, UploadServices, Machine}
use thunderchat_server.Uploads.Files.{UploadedFile}

pub data ReportCategory : Type 0 where
  sensitive_content bother fraud other : ReportCategory

pub data ReportedMessageType : Type 0 where
  text image video document audio sticker : ReportedMessageType

pub record FiledReport : Type 0 where
  pub row : ViolationReport
  pub report_category : ReportCategory
  pub reason_text : Option String

pub record ReportImage : Type 0 where
  pub id : ℕ
  pub report_id : ℕ
  pub image_url : Text

pub record ReportedMessage : Type 0 where
  pub id : ℕ
  pub message_id : ℕ
  pub message_type : ReportedMessageType
  pub message_content : Text
  pub report_id : ℕ

-- The columns of a message that are read.
pub record Correspondence : Type 0 where
  pub id : ℕ
  pub author_id : ℕ
  pub recipient_id : Option ℕ

-- The tables that the transaction writes.
pub record ReportTables : Type 0 where
  pub reports : List FiledReport
  pub report_images : List ReportImage
  pub reported_messages : List ReportedMessage

pub record FilingDb : Type 0 where
  pub users : List Account
  pub messages : List Correspondence
  pub tables : ReportTables
  pub uploads : UploadDb

-- What the transaction works on, with the addresses noted for a rollback, the first one first.
pub record Filing : Type 0 where
  pub db : FilingDb
  pub uploaded_media_urls : List Text
  pub uploaded_image_urls : List Text

-- `times_out` are the messages whose upload loses the race against its timer: it goes on all the
-- same, and is taken to end before what follows.
pub record FilingServices : Type 0 where
  pub user : Client Account same_email
  pub message : Client Correspondence unconstrained
  pub violation_report : Client FiledReport unconstrained
  pub report_image : Client ReportImage unconstrained
  pub reported_message : Client ReportedMessage unconstrained
  pub upload : UploadServices
  pub times_out : (message_id : ℕ) → Bool

-- An image, and a message, with the time at which its turn comes.
pub record ImageInput : Type 0 where
  pub file : UploadedFile
  pub at : ℕ

pub record MessageInput : Type 0 where
  pub message_id : ℕ
  pub message_type : ReportedMessageType
  pub message_content : Text
  pub at : ℕ

pub record ReportInput : Type 0 where
  pub reported_user_id : ℕ
  pub report_category : ReportCategory
  pub reason_text : Option String
  pub reported_messages : List MessageInput
  pub report_images : List ImageInput

pub data Answer : Type 0 where
  filed : (report_id : ℕ) → Answer
  reported_user_not_found cannot_report_self : Answer
  duplicate_report : (existing_report_id : ℕ) → Answer
  failed : Exception → Answer

abbrev pub is_media_message_type : ReportedMessageType → Bool
is_media_message_type text = false
is_media_message_type sticker = false
is_media_message_type _ = true

abbrev pub get_content_type_for_message_type : ReportedMessageType → String
get_content_type_for_message_type image = "image/jpeg"
get_content_type_for_message_type video = "video/mp4"
get_content_type_for_message_type audio = "audio/mpeg"
get_content_type_for_message_type document = "application/pdf"
get_content_type_for_message_type _ = "application/octet-stream"

abbrev is_web : Option String → Bool
is_web none = false
is_web (some protocol) = protocol == "http:" || protocol == "https:"

abbrev pub is_url : Machine → Text → Bool
is_url m content = is_web (m.protocol_of content)

-- The units that `trim` takes away.
abbrev is_white_space : ℕ → Bool
is_white_space u =
    leb 9 u && leb u 13
    || leb 8192 u && leb u 8202
    || includes (32 ∷ 160 ∷ 5760 ∷ 8232 ∷ 8233 ∷ 8239 ∷ 8287 ∷ 12288 ∷ 65279 ∷ []) u

-- `!url || url.trim() === ''`
abbrev pub is_blank : Text → Bool
is_blank [] = true
is_blank (u ∷ us) = is_white_space u && is_blank us

-- Ten seconds, where the message says a day.
abbrev pub is_recent : ℕ → ℕ → ℕ → FiledReport → Bool
is_recent reporter_id reported_id now r =
    r.row.reporter_user_id == reporter_id
    && r.row.reported_user_id == reported_id
    && leb now (r.row.created_at + 10000)

abbrev pub new_report : ℕ → ReportInput → ℕ → ℕ → FiledReport
new_report reporter_id input now id = record {
  row = record {
    id = id;
    reporter_user_id = reporter_id;
    reported_user_id = input.reported_user_id;
    report_status = pending;
    created_at = now;
  };
  report_category = input.report_category;
  reason_text = input.reason_text;
}

abbrev pub new_report_image : ℕ → Text → ℕ → ReportImage
new_report_image report_id url id = record { id = id; report_id = report_id; image_url = url }

abbrev pub new_reported_message : ℕ → MessageInput → Text → ℕ → ReportedMessage
new_reported_message report_id m content id = record {
  id = id;
  message_id = m.message_id;
  message_type = m.message_type;
  message_content = content;
  report_id = report_id;
}

-- A message that the reported user wrote or received.
abbrev pub concerns : ℕ → ℕ → Correspondence → Bool
concerns reported_user_id message_id m =
    m.id == message_id && (m.author_id == reported_user_id || is_id m.recipient_id reported_user_id)
