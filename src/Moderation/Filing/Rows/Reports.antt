-- ===== src/Moderation/Filing/Rows/Reports.antt =====
-- How many rows of media a report writes, which its transaction does not take back.
use thunderchat_server.Base.{
  ℕ, ◌+◌, refl, arith, inl, inr, Bool-cases, Option-cases, List, [], ◌∷◌, length, nat_eq, list_eq,
  ◌==◌,
}
use thunderchat_server.Base.Action.{
  pure, throw_if, modify, plain, user_report_message, no_url_returned, upload_timeout, ◌>>=◌, ◌>>◌,
}
use thunderchat_server.Base.Adds.{Adds, Adds-bind, Adds-catch, Adds-none, Adds-pure, Adds-throw_if}
use thunderchat_server.Security.Utf16.{Text}
use thunderchat_server.Uploads.Files.{upload_report_message_media}
use thunderchat_server.Uploads.Files.Rows.{rows_of_media, upload_report_message_media-Adds}
use thunderchat_server.Moderation.UserReports.{
  FilingServices, MessageInput, ReportInput, is_blank, is_url, is_media_message_type, concerns,
  get_content_type_for_message_type,
}
use thunderchat_server.Moderation.Filing.{
  on_uploads, note_media, create_report, create_reported_message, undo_media, file_images, keep_url,
  upload_in_time, upload_path, content_of, file_message, file_messages, file_report, is_path,
}
use thunderchat_server.Moderation.Filing.Rows.{
  rows, on_uploads-Adds, undo_media-Adds, file_images-Adds,
}

module _ (services : FilingServices) where
  note_url-Adds : (url : Text) → Adds rows 0 (modify (note_media url) >> pure url)
  note_url-Adds url = Adds-none rows (modify (note_media url) >> pure url) λ s. refl

  keep_url-Adds : (content : Text) → Adds rows 0 (keep_url services content)
  unfolding keep_url
  keep_url-Adds content =
      Adds-catch rows 0 0
        (throw_if (is_blank content) (plain (user_report_message no_url_returned))
          >> (modify (note_media content) >> pure content))
        (λ e. undo_media services)
        (Adds-bind rows 0 0
          (throw_if (is_blank content) (plain (user_report_message no_url_returned)))
          (λ u. modify (note_media content) >> pure content)
          (Adds-throw_if rows (is_blank content) (plain (user_report_message no_url_returned)))
          (λ u. note_url-Adds content))
        (λ e. undo_media-Adds services _)

  upload_in_time-Adds : (m : MessageInput) → Adds rows_of_media 0 (upload_in_time services m)
  upload_in_time-Adds m =
      let type = get_content_type_for_message_type m.message_type in
      let late = services.times_out m.message_id in
      Adds-bind rows_of_media 0 0
        (upload_report_message_media services.upload m.message_content m.message_id type m.at)
        (λ url. throw_if late (plain (user_report_message upload_timeout)) >> pure url)
        (upload_report_message_media-Adds services.upload m.message_content m.message_id type m.at)
        (λ url.
          Adds-bind rows_of_media 0 0 (throw_if late (plain (user_report_message upload_timeout)))
            (λ u. pure url)
            (Adds-throw_if rows_of_media late (plain (user_report_message upload_timeout)))
            (λ u. Adds-pure rows_of_media url))

  media_url-Adds :
      (m : MessageInput)
      → Adds rows 0 (
          on_uploads (upload_in_time services m) >>= λ url.
          throw_if (is_blank url) (plain (user_report_message no_url_returned))
          >> (modify (note_media url) >> pure url))
  media_url-Adds m =
      Adds-bind rows 0 0 (on_uploads (upload_in_time services m))
        (λ url.
          throw_if (is_blank url) (plain (user_report_message no_url_returned))
          >> (modify (note_media url) >> pure url))
        (on_uploads-Adds 0 (upload_in_time services m) (upload_in_time-Adds m))
        (λ url.
          Adds-bind rows 0 0 (throw_if (is_blank url) (plain (user_report_message no_url_returned)))
            (λ u. modify (note_media url) >> pure url)
            (Adds-throw_if rows (is_blank url) (plain (user_report_message no_url_returned)))
            (λ u. note_url-Adds url))

  upload_path-Adds : (m : MessageInput) → Adds rows 0 (upload_path services m)
  unfolding upload_path
  upload_path-Adds m s = elim (Bool-cases (is_path m.message_content)) [
    | inr e ↦ rw e ((omega arith, omega arith))
    | inl e ↦ elim (Bool-cases (services.upload.machine.exists m.message_content)) [
      | inr f ↦ rw (e, f) ((omega arith, omega arith))
      | inl f ↦
          rw (e, f)
            (Adds-catch rows 0 0
              (on_uploads (upload_in_time services m) >>= λ url.
                throw_if (is_blank url) (plain (user_report_message no_url_returned))
                >> (modify (note_media url) >> pure url))
              (λ x. undo_media services) (media_url-Adds m) (λ x. undo_media-Adds services _) s)
    ]
  ]

  content_of-Adds : (m : MessageInput) → Adds rows 0 (content_of services m)
  unfolding content_of
  content_of-Adds m s = elim (Bool-cases (is_media_message_type m.message_type)) [
    | inr e ↦ rw e ((omega arith, omega arith))
    | inl e ↦ elim (Bool-cases (m.message_content == [])) [
      | inl f ↦ rw (e, f) ((omega arith, omega arith))
      | inr f ↦ elim (Bool-cases (is_url services.upload.machine m.message_content)) [
        | inl g ↦ rw (e, f, g) (keep_url-Adds m.message_content s)
        | inr g ↦ rw (e, f, g) (upload_path-Adds m s)
      ]
    ]
  ]

  file_message-Adds :
      (id reported_user_id : ℕ) (m : MessageInput)
      → Adds rows 0 (file_message services id reported_user_id m)
  unfolding file_message
  file_message-Adds id reported_user_id m s =
      elim (Option-cases
        (services.message.find_first (concerns reported_user_id m.message_id) s.db.messages)) [
          | inl e ↦ rw e ((omega arith, omega arith))
          | inr (row, e) ↦ rw e (
              Adds-bind rows 0 0 (content_of services m)
                (λ content. create_reported_message services id m content) (content_of-Adds m)
                (λ content.
                  Adds-none rows (create_reported_message services id m content) λ t. ground arith)
                s)
        ]

  file_messages-Adds :
      (id reported_user_id : ℕ) (ms : List MessageInput)
      → Adds rows 0 (file_messages services id reported_user_id ms)
  unfolding file_messages
  file_messages-Adds id reported_user_id [] = Adds-pure rows tt
  file_messages-Adds id reported_user_id (m ∷ ms) =
      Adds-bind rows 0 0 (file_message services id reported_user_id m)
        (λ r. file_messages services id reported_user_id ms)
        (file_message-Adds id reported_user_id m) (λ r. file_messages-Adds id reported_user_id ms)

  -- A report writes a row of media for each of its images at most.
  pub file_report-Adds :
      (reporter_id : ℕ) (input : ReportInput) (now : ℕ)
      → Adds rows (length input.report_images) (file_report services reporter_id input now)
  unfolding file_report
  file_report-Adds reporter_id input now s =
      let (low, high) =
        Adds-bind rows 0 (length input.report_images + 0)
          (create_report services reporter_id input now)
          (λ report.
            file_images services report.row.id input.report_images
            >> (file_messages services report.row.id input.reported_user_id input.reported_messages
                >> pure report.row.id))
          (Adds-none rows (create_report services reporter_id input now) (λ t. ground arith))
          (λ report.
            Adds-bind rows (length input.report_images) 0
              (file_images services report.row.id input.report_images)
              (λ u.
                file_messages services report.row.id input.reported_user_id input.reported_messages
                >> pure report.row.id)
              (file_images-Adds services report.row.id input.report_images)
              (λ u.
                Adds-bind rows 0 0
                  (file_messages services report.row.id input.reported_user_id
                    input.reported_messages)
                  (λ w. pure report.row.id)
                  (file_messages-Adds report.row.id input.reported_user_id input.reported_messages)
                  (λ w. Adds-pure rows report.row.id)))
          s in
      (low, omega arith)
