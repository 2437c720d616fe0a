-- ===== src/Moderation/Filing.antt =====
-- user/user-report/user-report.service.ts: the steps that file a report, and their rollback.
pub mod Rollback
pub mod Outcomes
pub mod Leaks
pub mod Rows
pub mod Failed
pub mod Steps
pub mod Filed
pub mod Evidence
use thunderchat_server.Base.{
  ℕ, String, Bool, true, false, not, ◌&&◌, ◌||◌, Option, none, some, List, [], ◌∷◌, ◌++◌, ◌==◌,
  if◌then◌else◌, nat_eq, string_eq, list_eq, includes, find,
}
use thunderchat_server.Base.Action.{
  Result, ok, err, Action, Exception, pure, throw, throw_if, gets, query, modify, catch, plain,
  user_report_message, message_not_found, upload_failed, file_not_found, media_upload_failed,
  file_path_required, upload_timeout, content_required, no_url_returned, ◌>>=◌, ◌>>◌,
}
use thunderchat_server.Account.{Account, has_account_id}
use thunderchat_server.Security.Utf16.{Text}
use thunderchat_server.Uploads.{UploadDb, UploadServices, Machine}
use thunderchat_server.Uploads.Names.{units, starts_with}
use thunderchat_server.Uploads.Files.{
  UploadedFile, upload_report_image, upload_report_message_media, delete_file_by_url,
}
use thunderchat_server.Moderation.UserReports.{
  FiledReport, ReportImage, ReportedMessage, Correspondence, FilingDb, Filing, FilingServices,
  ImageInput, MessageInput, ReportInput, Answer, filed, reported_user_not_found, cannot_report_self,
  duplicate_report, failed, is_media_message_type, get_content_type_for_message_type, is_url,
  is_blank, is_recent, new_report, new_report_image, new_reported_message, concerns,
}

-- A call of the upload service.
abbrev pub on_uploads : {A : Type 0} → Action UploadDb A → Action Filing A
on_uploads m s = let (r, u) = m s.db.uploads in (r, record s { db = record s.db { uploads = u } })

abbrev pub note_image : Text → Filing → Filing
note_image url s = record s { uploaded_image_urls = s.uploaded_image_urls ++ url ∷ [] }

abbrev pub note_media : Text → Filing → Filing
note_media url s = record s { uploaded_media_urls = s.uploaded_media_urls ++ url ∷ [] }

abbrev or_message_not_found : Option Correspondence → Action Filing Correspondence
or_message_not_found none = throw (plain (user_report_message message_not_found))
or_message_not_found (some m) = pure m

-- A path begins with a slash, or has a backslash.
abbrev is_path : Text → Bool
is_path content = starts_with content (units "/") || includes content 92

module _ (services : FilingServices) where
  open services use {
    user, message, violation_report, report_image, reported_message, upload, times_out,
  }

  abbrev pub delete_quietly : Text → Action UploadDb (Unit {0})
  delete_quietly url = catch (delete_file_by_url upload url) (λ e. pure tt)

  -- An error with one file does not keep the others.
  unfoldable pub rollback_uploaded_files : List Text → Action UploadDb (Unit {0})
  unfolding delete_file_by_url
  rollback_uploaded_files [] = pure tt
  rollback_uploaded_files (url ∷ urls) = delete_quietly url >>= λ u. rollback_uploaded_files urls

  -- The rollback of the images, which ends at the first error.
  unfoldable pub delete_each : List Text → Action UploadDb (Unit {0})
  unfolding delete_file_by_url
  delete_each [] = pure tt
  delete_each (url ∷ urls) = delete_file_by_url upload url >>= λ u. delete_each urls

  abbrev pub create_report : ℕ → ReportInput → ℕ → Action Filing FiledReport
  create_report reporter_id input now = query λ s.
      elim (violation_report.create (new_report reporter_id input now) s.db.tables.reports) [
        | none ↦ none
        | some (r, rows) ↦
            some
              (r, record s { db = record s.db { tables = record s.db.tables { reports = rows } } })
      ]

  abbrev pub create_report_image : ℕ → Text → Action Filing ReportImage
  create_report_image report_id url = query λ s.
      elim (report_image.create (new_report_image report_id url) s.db.tables.report_images) [
        | none ↦ none
        | some (r, rows) ↦ some (
          r,
          record s { db = record s.db { tables = record s.db.tables { report_images = rows } } },
        )
      ]

  abbrev pub create_reported_message : ℕ → MessageInput → Text → Action Filing ReportedMessage
  create_reported_message report_id m content = query λ s.
      elim (reported_message.create (new_reported_message report_id m content)
        s.db.tables.reported_messages) [
          | none ↦ none
          | some (r, rows) ↦ some (
            r,
            record s {
              db = record s.db { tables = record s.db.tables { reported_messages = rows } };
            },
          )
        ]

  abbrev pub undo_images : {A : Type 0} → Action Filing A
  undo_images = do
    urls ← gets (λ s. s.uploaded_image_urls)
    on_uploads (delete_each urls)
    throw (plain (user_report_message upload_failed))

  unfoldable pub file_image : ℕ → ImageInput → Action Filing ReportImage
  unfolding upload_report_image delete_each
  file_image report_id image =
      catch
        (do
          url ← on_uploads (upload_report_image upload image.file image.at)
          modify (note_image url)
          create_report_image report_id url)
        (λ e. undo_images)

  unfoldable pub file_images : ℕ → List ImageInput → Action Filing (Unit {0})
  unfolding file_image
  file_images report_id [] = pure tt
  file_images report_id (image ∷ images) =
      file_image report_id image >>= λ r. file_images report_id images

  abbrev pub undo_media : {A : Type 0} → Action Filing A
  undo_media = do
    urls ← gets (λ s. s.uploaded_media_urls)
    on_uploads (rollback_uploaded_files urls)
    throw (plain (user_report_message media_upload_failed))

  -- An address is not uploaded again, but it is noted as if it were.
  unfoldable pub keep_url : Text → Action Filing Text
  unfolding rollback_uploaded_files
  keep_url content =
      catch
        (do
          throw_if (is_blank content) (plain (user_report_message no_url_returned))
          modify (note_media content)
          pure content)
        (λ e. undo_media)

  abbrev pub upload_in_time : MessageInput → Action UploadDb Text
  upload_in_time m = do
    url ←
        upload_report_message_media upload m.message_content m.message_id
          (get_content_type_for_message_type m.message_type) m.at
    throw_if (times_out m.message_id) (plain (user_report_message upload_timeout))
    pure url

  unfoldable pub upload_path : MessageInput → Action Filing Text
  unfolding rollback_uploaded_files upload_report_message_media
  upload_path m = do
    throw_if (not (is_path m.message_content)) (plain (user_report_message file_path_required))
    throw_if (not (upload.machine.exists m.message_content))
        (plain (user_report_message file_not_found))
    catch
        (do
          url ← on_uploads (upload_in_time m)
          throw_if (is_blank url) (plain (user_report_message no_url_returned))
          modify (note_media url)
          pure url)
        (λ e. undo_media)

  -- The content that is stored for a message.
  unfoldable pub content_of : MessageInput → Action Filing Text
  unfolding keep_url upload_path
  content_of m =
      if is_media_message_type m.message_type
      then (if m.message_content == []
          then throw (plain (user_report_message content_required))
          else (if is_url upload.machine m.message_content
              then keep_url m.message_content
              else upload_path m))
      else pure m.message_content

  unfoldable pub file_message : ℕ → ℕ → MessageInput → Action Filing ReportedMessage
  unfolding content_of
  file_message report_id reported_user_id m = do
    found ← gets (λ s. message.find_first (concerns reported_user_id m.message_id) s.db.messages)
    row ← or_message_not_found found
    content ← content_of m
    create_reported_message report_id m content

  unfoldable pub file_messages : ℕ → ℕ → List MessageInput → Action Filing (Unit {0})
  unfolding file_message
  file_messages report_id reported_user_id [] = pure tt
  file_messages report_id reported_user_id (m ∷ ms) =
      file_message report_id reported_user_id m >>= λ r. file_messages report_id reported_user_id ms

  -- The body of the transaction.
  unfoldable pub file_report : ℕ → ReportInput → ℕ → Action Filing ℕ
  unfolding file_images file_messages
  file_report reporter_id input now = do
    report ← create_report reporter_id input now
    file_images report.row.id input.report_images
    file_messages report.row.id input.reported_user_id input.reported_messages
    pure report.row.id

  -- The tables of the transaction as before, and the noted files deleted. The rows of media that
  -- the uploads have written, outside the transaction, stay.
  abbrev pub rolled_back : FilingDb → Filing → FilingDb
  rolled_back before s = record before {
    uploads =
        (rollback_uploaded_files (s.uploaded_media_urls ++ s.uploaded_image_urls) s.db.uploads).1;
  }

  abbrev pub answer_of : FilingDb → Result ℕ × Filing → Answer × FilingDb
  answer_of before (ok id, s) = (filed id, s.db)
  answer_of before (err e, s) = (failed e, rolled_back before s)

  abbrev pub started : FilingDb → Filing
  started s = record { db = s; uploaded_media_urls = []; uploaded_image_urls = [] }

  abbrev pub file_unless : Option FiledReport → ℕ → ReportInput → ℕ → FilingDb → Answer × FilingDb
  file_unless (some r) reporter_id input now s = (duplicate_report r.row.id, s)
  file_unless none reporter_id input now s =
      answer_of s (file_report reporter_id input now (started s))

  unfoldable pub create_violation_report : ℕ → ReportInput → ℕ → FilingDb → Answer × FilingDb
  unfolding file_report rollback_uploaded_files
  create_violation_report reporter_id input now s =
      elim (user.find_first (has_account_id input.reported_user_id) s.users) [
        | none ↦ (reported_user_not_found, s)
        | some u ↦
            if reporter_id == input.reported_user_id
            then (cannot_report_self, s)
            else file_unless
                (violation_report.find_first (is_recent reporter_id input.reported_user_id now)
                  s.tables.reports)
                reporter_id input now s
      ]
