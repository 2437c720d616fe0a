-- ===== src/Moderation/Filing/Rows.antt =====
-- How many rows of media the rollbacks and the images of a report write: its transaction does not
-- take them back.
pub mod Reports
use thunderchat_server.Base.{
  ℕ, ◌+◌, ◌≡◌, refl, arith, inl, inr, Bool-cases, Option-cases, List, [], ◌∷◌, ◌++◌, length, nat_eq,
  list_eq, if◌then◌else◌, ◌==◌,
}
use thunderchat_server.Base.Action.{
  Result, Action, Exception, pure, throw, throw_if, gets, modify, plain, user_report_message,
  no_url_returned, upload_timeout, file_path_required, file_not_found, upload_failed,
  media_upload_failed, ◌>>=◌, ◌>>◌,
}
use thunderchat_server.Base.Adds.{
  Adds, Adds-bind, Adds-catch, Adds-query, Adds-none, Adds-pure, Adds-throw, Adds-throw_if,
}
use thunderchat_server.Security.Utf16.{Text}
use thunderchat_server.Uploads.{UploadDb}
use thunderchat_server.Uploads.Files.{
  delete_file_by_url, upload_report_image, upload_report_message_media,
}
use thunderchat_server.Uploads.Files.Rows.{
  rows_of_media, upload_report_image-Adds, upload_report_message_media-Adds,
  delete_file_by_url-Adds,
}
use thunderchat_server.Moderation.UserReports.{
  FilingServices, Filing, ImageInput, MessageInput, ReportInput, is_blank, is_url,
  is_media_message_type, concerns, new_report_image, new_reported_message, new_report,
  get_content_type_for_message_type, FiledReport, Correspondence,
}
use thunderchat_server.Moderation.Filing.{
  on_uploads, note_image, note_media, create_report, create_report_image, create_reported_message,
  undo_images, undo_media, delete_each, delete_quietly, rollback_uploaded_files, file_image,
  file_images, keep_url, upload_in_time, upload_path, content_of, file_message, file_messages,
  file_report, is_path,
}

abbrev pub rows : Filing → ℕ
rows s = rows_of_media s.db.uploads

pub on_uploads-Adds :
    {A : Type 0} (k : ℕ) (m : Action UploadDb A)
    → Adds rows_of_media k m
    → Adds rows k (on_uploads m)
on_uploads-Adds k m h s = h s.db.uploads

module _ (services : FilingServices) where
  delete_each-Adds : (urls : List Text) → Adds rows_of_media 0 (delete_each services urls)
  unfolding delete_each
  delete_each-Adds [] = Adds-pure rows_of_media tt
  delete_each-Adds (url ∷ urls) =
      Adds-bind rows_of_media 0 0 (delete_file_by_url services.upload url)
        (λ u. delete_each services urls) (delete_file_by_url-Adds services.upload url)
        (λ u. delete_each-Adds urls)

  pub rollback_uploaded_files-Adds :
      (urls : List Text) → Adds rows_of_media 0 (rollback_uploaded_files services urls)
  unfolding rollback_uploaded_files
  rollback_uploaded_files-Adds [] = Adds-pure rows_of_media tt
  rollback_uploaded_files-Adds (url ∷ urls) =
      Adds-bind rows_of_media 0 0 (delete_quietly services url)
        (λ u. rollback_uploaded_files services urls)
        (Adds-catch rows_of_media 0 0 (delete_file_by_url services.upload url) (λ e. pure tt)
          (delete_file_by_url-Adds services.upload url) (λ e. Adds-pure rows_of_media tt))
        (λ u. rollback_uploaded_files-Adds urls)

  undo_images-Adds : (A : Type 0) → Adds rows 0 (undo_images services {A = A})
  undo_images-Adds A s =
      Adds-bind rows 0 0 (on_uploads (delete_each services s.uploaded_image_urls))
        (λ u. throw (plain (user_report_message upload_failed)))
        (on_uploads-Adds 0 (delete_each services s.uploaded_image_urls)
          (delete_each-Adds s.uploaded_image_urls))
        (λ u. Adds-throw rows A (plain (user_report_message upload_failed))) s

  pub undo_media-Adds : (A : Type 0) → Adds rows 0 (undo_media services {A = A})
  undo_media-Adds A s =
      Adds-bind rows 0 0 (on_uploads (rollback_uploaded_files services s.uploaded_media_urls))
        (λ u. throw (plain (user_report_message media_upload_failed)))
        (on_uploads-Adds 0 (rollback_uploaded_files services s.uploaded_media_urls)
          (rollback_uploaded_files-Adds s.uploaded_media_urls))
        (λ u. Adds-throw rows A (plain (user_report_message media_upload_failed))) s

  create_report_image-Adds :
      (id : ℕ) (url : Text) → Adds rows 0 (create_report_image services id url)
  create_report_image-Adds id url =
      Adds-none rows (create_report_image services id url) λ s. ground arith

  file_image-Adds : (id : ℕ) (image : ImageInput) → Adds rows 1 (file_image services id image)
  unfolding file_image
  file_image-Adds id image =
      Adds-catch rows 1 0
        (on_uploads (upload_report_image services.upload image.file image.at) >>= λ url.
          modify (note_image url) >> create_report_image services id url)
        (λ e. undo_images services)
        (Adds-bind rows 1 0 (on_uploads (upload_report_image services.upload image.file image.at))
          (λ url. modify (note_image url) >> create_report_image services id url)
          (on_uploads-Adds 1 (upload_report_image services.upload image.file image.at)
            (upload_report_image-Adds services.upload image.file image.at))
          (λ url s. create_report_image-Adds id url (note_image url s)))
        (λ e. undo_images-Adds _)

  pub file_images-Adds :
      (id : ℕ) (images : List ImageInput)
      → Adds rows (length images) (file_images services id images)
  unfolding file_images
  file_images-Adds id [] s = Adds-pure rows tt s
  file_images-Adds id (i ∷ images) s =
      let (low, high) =
        Adds-bind rows 1 (length images) (file_image services id i)
          (λ r. file_images services id images) (file_image-Adds id i)
          (λ r. file_images-Adds id images) s in
      (low, omega arith)
