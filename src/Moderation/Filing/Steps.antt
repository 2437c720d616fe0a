-- ===== src/Moderation/Filing/Steps.antt =====
-- What each step of a report stores where it succeeds.
use mathlib.Core.List.{Memᴰ}
use thunderchat_server.Base.{
  ℕ, ◌+◌, ◌≡◌, refl, ap, sym, ◌∙◌, arith, true, List, [], ◌==◌, inl, inr, Bool-cases, Option-cases,
  nat_eq, list_eq, length,
}
use thunderchat_server.Base.Action.{
  Action, Result-cases, ok, pure, throw_if, plain, user_report_message, no_url_returned, modify,
  bind_ok, ◌>>=◌, ◌>>◌,
}
use thunderchat_server.Base.Keeps.{Keeps, Keeps-bind, Keeps-catch}
use thunderchat_server.Security.Utf16.{Text}
use thunderchat_server.Uploads.{UploadDb}
use thunderchat_server.Uploads.Files.{upload_report_image}
use thunderchat_server.Moderation.UserReports.{
  FilingServices, Filing, Correspondence, ReportTables, ReportImage, ReportedMessage, ImageInput,
  MessageInput, is_blank, is_url, is_media_message_type, concerns, new_report_image,
  new_reported_message,
}
use thunderchat_server.Moderation.Filing.{
  on_uploads, note_image, note_media, create_report_image, create_reported_message, undo_media,
  rollback_uploaded_files, delete_each, file_image, keep_url, upload_in_time, upload_path, is_path,
  content_of, file_message,
}

module _ (services : FilingServices) where
  module _ (tables : ReportTables) (messages : List Correspondence) where
    -- The tables and the messages are these.
    abbrev Has : Filing → Type 0
    Has t = (t.db.tables ≡ tables) × (t.db.messages ≡ messages)

    on_uploads-Keeps : {A : Type 0} (m : Action UploadDb A) → Keeps Has (on_uploads m)
    on_uploads-Keeps m t v = v

    undo_media-Keeps : (A : Type 0) → Keeps Has (undo_media services {A = A})
    undo_media-Keeps A t v =
        elim (Result-cases
          (rollback_uploaded_files services t.uploaded_media_urls t.db.uploads).0) [
            | inl (a, e) ↦ rw (e, ◌>>=◌) v
            | inr (x, e) ↦ rw (e, ◌>>=◌) v
          ]

    -- A test for a blank address, and its note.
    noted-Keeps :
        (url : Text)
        → Keeps Has (
            throw_if (is_blank url) (plain (user_report_message no_url_returned))
            >> (modify (note_media url) >> pure url))
    noted-Keeps url =
        Keeps-bind Has (throw_if (is_blank url) (plain (user_report_message no_url_returned)))
          (λ u. modify (note_media url) >> pure url) (λ t v. v) (λ u t v. v)

    upload_path-Keeps : (m : MessageInput) → Keeps Has (upload_path services m)
    unfolding upload_path
    upload_path-Keeps m t v = elim (Bool-cases (is_path m.message_content)) [
      | inr e ↦ rw e v
      | inl e ↦ elim (Bool-cases (services.upload.machine.exists m.message_content)) [
        | inr f ↦ rw (e, f) v
        | inl f ↦
            rw (e, f)
              (Keeps-catch Has
                (on_uploads (upload_in_time services m) >>= λ url.
                  throw_if (is_blank url) (plain (user_report_message no_url_returned))
                  >> (modify (note_media url) >> pure url))
                (λ x. undo_media services)
                (Keeps-bind Has (on_uploads (upload_in_time services m))
                  (λ url.
                    throw_if (is_blank url) (plain (user_report_message no_url_returned))
                    >> (modify (note_media url) >> pure url))
                  (on_uploads-Keeps (upload_in_time services m)) noted-Keeps)
                (λ x. undo_media-Keeps _) t v)
      ]
    ]

    content_of-Keeps : (m : MessageInput) → Keeps Has (content_of services m)
    unfolding content_of keep_url
    content_of-Keeps m t v = elim (Bool-cases (is_media_message_type m.message_type)) [
      | inr e ↦ rw e v
      | inl e ↦ elim (Bool-cases (m.message_content == [])) [
        | inl f ↦ rw (e, f) v
        | inr f ↦ elim (Bool-cases (is_url services.upload.machine m.message_content)) [
          | inl g ↦
              rw (e, f, g)
                (Keeps-catch Has
                  (throw_if (is_blank m.message_content)
                      (plain (user_report_message no_url_returned))
                    >> (modify (note_media m.message_content) >> pure m.message_content))
                  (λ x. undo_media services) (noted-Keeps m.message_content)
                  (λ x. undo_media-Keeps _) t v)
          | inr g ↦ rw (e, f, g) (upload_path-Keeps m t v)
        ]
      ]
    ]

  created_image :
      (id : ℕ) (url : Text) (t t' : Filing) (r : ReportImage)
      → (modify (note_image url) >> create_report_image services id url) t ≡ (ok r, t')
      → (length t'.db.tables.report_images ≡ length t.db.tables.report_images + 1)
        × (t'.db.tables.reports ≡ t.db.tables.reports)
        × (t'.db.tables.reported_messages ≡ t.db.tables.reported_messages)
        × (t'.db.messages ≡ t.db.messages)
  created_image id url t t' r h =
      elim (Option-cases
        (services.report_image.create (new_report_image id url) t.db.tables.report_images)) [
          | inl e ↦ absurd (ground arith)
          | inr ((row, rows), e) ↦
              let (n, is_row, new_rows, free) = services.report_image.create-some _ _ row rows e in
              (ground arith, ground arith, ground arith, ground arith)
        ]

  created_message :
      (id : ℕ) (m : MessageInput) (content : Text) (t t' : Filing) (r : ReportedMessage)
      → create_reported_message services id m content t ≡ (ok r, t')
      → (length t'.db.tables.reported_messages ≡ length t.db.tables.reported_messages + 1)
        × (t'.db.tables.reports ≡ t.db.tables.reports)
        × (t'.db.tables.report_images ≡ t.db.tables.report_images)
        × (t'.db.messages ≡ t.db.messages)
  created_message id m content t t' r h =
      elim (Option-cases (
        services.reported_message.create (new_reported_message id m content)
          t.db.tables.reported_messages)) [
            | inl e ↦ absurd (ground arith)
            | inr ((row, rows), e) ↦
                let (n, is_row, new_rows, free) =
                  services.reported_message.create-some _ _ row rows e in
                (ground arith, ground arith, ground arith, ground arith)
          ]

  pub image_ok :
      (id : ℕ) (image : ImageInput) (t t' : Filing) (r : ReportImage)
      → file_image services id image t ≡ (ok r, t')
      → (length t'.db.tables.report_images ≡ length t.db.tables.report_images + 1)
        × (t'.db.tables.reports ≡ t.db.tables.reports)
        × (t'.db.tables.reported_messages ≡ t.db.tables.reported_messages)
        × (t'.db.messages ≡ t.db.messages)
  unfolding file_image
  image_ok id image t t' r h =
      let stored : Action Filing ReportImage =
        on_uploads (upload_report_image services.upload image.file image.at) >>= λ url.
        modify (note_image url) >> create_report_image services id url in
      elim (Result-cases (stored t).0) [
        | inr (x, e) ↦
            elim (Result-cases
              (delete_each services (stored t).1.uploaded_image_urls (stored t).1.db.uploads).0) [
                | inl (a, f) ↦ absurd (ground arith)
                | inr (y, f) ↦ absurd (ground arith)
              ]
        | inl (a, e) ↦
            let (url, t1, uploaded, rest) =
              bind_ok (on_uploads (upload_report_image services.upload image.file image.at))
                (λ url. modify (note_image url) >> create_report_image services id url) t t' r
                (ground arith) in
            let (longer, reports, messages, others) = created_image id url t1 t' r rest in
            let same : t1.db.tables ≡ t.db.tables = ap (λ p. p.1.db.tables) (sym uploaded) in
            (
              longer ∙ ap (λ u. length u.report_images + 1) same,
              reports ∙ ap (λ u. u.reports) same,
              messages ∙ ap (λ u. u.reported_messages) same,
              others ∙ ap (λ p. p.1.db.messages) (sym uploaded),
            )
      ]

  pub message_ok :
      (id reported_user_id : ℕ) (m : MessageInput) (t t' : Filing) (r : ReportedMessage)
      → file_message services id reported_user_id m t ≡ (ok r, t')
      → (length t'.db.tables.reported_messages ≡ length t.db.tables.reported_messages + 1)
        × (t'.db.tables.reports ≡ t.db.tables.reports)
        × (t'.db.tables.report_images ≡ t.db.tables.report_images)
        × (t'.db.messages ≡ t.db.messages)
        × (x : Correspondence) × (concerns reported_user_id m.message_id x ≡ true)
        × Memᴰ x t.db.messages
  unfolding file_message
  message_ok id reported_user_id m t t' r h =
      elim (Option-cases
        (services.message.find_first (concerns reported_user_id m.message_id) t.db.messages)) [
          | inl missing ↦ absurd (ground arith)
          | inr (x, there) ↦
              let (content, t1, kept, rest) =
                bind_ok (content_of services m)
                  (λ content. create_reported_message services id m content) t t' r
                  (ground arith) in
              let (longer, reports, images, others) = created_message id m content t1 t' r rest in
              let has = content_of-Keeps t.db.tables t.db.messages m t (refl, refl) in
              let tables : t1.db.tables ≡ t.db.tables =
                ap (λ p. p.1.db.tables) (sym kept) ∙ has.0 in
              let found = services.message.find_first-some _ _ x there in
              (
                longer ∙ ap (λ u. length u.reported_messages + 1) tables,
                reports ∙ ap (λ u. u.reports) tables,
                images ∙ ap (λ u. u.report_images) tables,
                others ∙ (ap (λ p. p.1.db.messages) (sym kept) ∙ has.1),
                x,
                found.0,
                found.1,
              )
        ]
