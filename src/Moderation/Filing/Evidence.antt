-- ===== src/Moderation/Filing/Evidence.antt =====
-- A report that fails behind a message that is kept by its address.
use thunderchat_server.Base.{
  ℕ, ◌≡◌, refl, ap, ◌∙◌, arith, true, false, none, some, List, [], ◌∷◌, ◌++◌, ◌==◌, inl, inr,
  Option-cases, nat_eq, list_eq,
}
use thunderchat_server.Base.Action.{
  Action, db_error, Exception, ok, err, pure, plain, user_report_message, bind-of_ok, bind-of_err,
  message_not_found, ◌>>=◌, ◌>>◌,
}
use thunderchat_server.Base.JsMap.{get}
use thunderchat_server.Account.{Account, has_account_id}
use thunderchat_server.Security.Utf16.{Text}
use thunderchat_server.Uploads.Files.Frame.{Deletes}
use thunderchat_server.Moderation.UserReports.{
  FilingServices, FilingDb, Filing, FiledReport, Correspondence, concerns, new_report,
  new_reported_message, is_media_message_type, is_url, MessageInput, ReportInput, failed, is_blank,
  is_recent,
}
use thunderchat_server.Moderation.Filing.{
  create_report, file_images, create_reported_message, note_media, content_of, keep_url,
  file_message, file_messages, create_violation_report, file_report, started, rolled_back,
}
use thunderchat_server.Moderation.Filing.Rollback.{
  names, listed, listed-append, get-rollback_uploaded_files,
}

blank_nil : (t : Text) → is_blank t ≡ false → (t == []) ≡ false
blank_nil [] h = absurd (ground arith)
blank_nil (u ∷ us) h = refl

module _ (services : FilingServices) (m : MessageInput) where
  keep_url_lem :
      (content : Text) (t : Filing)
      → is_blank content ≡ false
      → keep_url services content t ≡ (ok content, note_media content t)
  unfolding keep_url
  keep_url_lem content t filled = ground arith

  -- The content of the message stays, and is noted.
  kept_lem :
      (t : Filing)
      → is_media_message_type m.message_type ≡ true
      → is_url services.upload.machine m.message_content ≡ true
      → is_blank m.message_content ≡ false
      → content_of services m t ≡ (ok m.message_content, note_media m.message_content t)
  unfolding content_of
  kept_lem t is_media is_address filled =
      rw (is_media, blank_nil m.message_content filled, is_address)
        (keep_url_lem m.message_content t filled)

  -- Whether its row is stored or not, a next message that is none of the reported user ends the
  -- transaction.
  ended :
      (id reported_user_id : ℕ) (n : MessageInput) (ms : List MessageInput) (t : Filing)
      (x : Correspondence) (j : Text)
      → services.message.find_first (concerns reported_user_id m.message_id) t.db.messages ≡ some x
      → services.message.find_first (concerns reported_user_id n.message_id) t.db.messages ≡ none
      → is_media_message_type m.message_type ≡ true
      → is_url services.upload.machine m.message_content ≡ true
      → is_blank m.message_content ≡ false
      → names j m.message_content ≡ true
      → (e : Exception) × (t' : Filing) × (file_messages services id reported_user_id (m ∷ n ∷ ms) t
          ≡ (err e, t'))
        × (listed j t'.uploaded_media_urls ≡ true)
        × (t'.uploaded_image_urls ≡ t.uploaded_image_urls)
  unfolding file_messages file_message
  ended id reported_user_id n ms t x j concerned foreign is_media is_address filled named =
      let noted : listed j (t.uploaded_media_urls ++ m.message_content ∷ []) ≡ true =
        ground (arith, listed-append j t.uploaded_media_urls (m.message_content ∷ [])) in
      let t1 = note_media m.message_content t in
      let rest : Action Filing (Unit {0}) = file_message services id reported_user_id n >>= λ r.
      file_messages services id reported_user_id ms in
      let stored : file_message services id reported_user_id m t
          ≡ create_reported_message services id m m.message_content t1 =
        rw concerned (
          bind-of_ok (content_of services m)
            (λ content. create_reported_message services id m content) t t1 m.message_content
            (kept_lem t is_media is_address filled)) in
      elim (Option-cases (
        services.reported_message.create (new_reported_message id m m.message_content)
          t.db.tables.reported_messages)) [
            | inl e ↦ (
              db_error,
              t1,
              bind-of_err (file_message services id reported_user_id m) (λ r. rest) t t1 db_error
                  (stored ∙ ground arith),
              noted,
              refl,
            )
            | inr ((r, rows), e) ↦
                let t2 = record t1 {
                  db = record t1.db { tables = record t1.db.tables { reported_messages = rows } };
                } in
                (
                  plain (user_report_message message_not_found),
                  t2,
                  bind-of_ok (file_message services id reported_user_id m) (λ r. rest) t t2 r
                        (stored ∙ ground arith)
                      ∙ bind-of_err (file_message services id reported_user_id n)
                          (λ r. file_messages services id reported_user_id ms) t2 t2
                          (plain (user_report_message message_not_found)) (rw foreign refl),
                  noted,
                  refl,
                )
          ]

module _ (services : FilingServices) (reporter_id : ℕ) (input : ReportInput) (now : ℕ)
    (s : FilingDb) where
  -- A report without images whose messages cannot be filed.
  run_lem :
      (r : FiledReport) (t t' : Filing) (e : Exception)
      → input.report_images ≡ []
      → create_report services reporter_id input now (started services s) ≡ (ok r, t)
      → file_messages services r.row.id input.reported_user_id input.reported_messages t
        ≡ (err e, t')
      → file_report services reporter_id input now (started services s) ≡ (err e, t')
  unfolding file_report file_images
  run_lem r t t' e no_images created thrown =
      bind-of_ok (create_report services reporter_id input now)
        (λ report.
          file_images services report.row.id input.report_images
          >> (file_messages services report.row.id input.reported_user_id input.reported_messages
              >> pure report.row.id))
        (started services s) t r created
      ∙ rw no_images (
          bind-of_err
            (file_messages services r.row.id input.reported_user_id input.reported_messages)
            (λ u. pure r.row.id) t t' e thrown)

  answered :
      (u : Account) (t' : Filing) (e : Exception)
      → services.user.find_first (has_account_id input.reported_user_id) s.users ≡ some u
      → (reporter_id == input.reported_user_id) ≡ false
      → services.violation_report.find_first
          (is_recent reporter_id input.reported_user_id now)
          s.tables.reports
        ≡ none
      → file_report services reporter_id input now (started services s) ≡ (err e, t')
      → create_violation_report services reporter_id input now s
        ≡ (failed e, rolled_back services s t')
  unfolding create_violation_report
  answered u t' e there other first whole = ground arith

  -- A report with two messages and no image, of which the first is a media message that is kept by
  -- its address, and the second one is none of the reported user: the object of the first message
  -- is deleted, although no upload has put it there.
  pub create_violation_report-evidence :
      (m n : MessageInput) (ms : List MessageInput) (u : Account) (r : FiledReport)
      (rows : List FiledReport) (x : Correspondence) (j : Text)
      → Deletes services.upload.object_store
      → input.report_images ≡ []
      → input.reported_messages ≡ m ∷ n ∷ ms
      → services.user.find_first (has_account_id input.reported_user_id) s.users ≡ some u
      → (reporter_id == input.reported_user_id) ≡ false
      → services.violation_report.find_first
          (is_recent reporter_id input.reported_user_id now)
          s.tables.reports
        ≡ none
      → services.violation_report.create (new_report reporter_id input now) s.tables.reports
        ≡ some (r, rows)
      → services.message.find_first (concerns input.reported_user_id m.message_id) s.messages
        ≡ some x
      → services.message.find_first (concerns input.reported_user_id n.message_id) s.messages ≡ none
      → is_media_message_type m.message_type ≡ true
      → is_url services.upload.machine m.message_content ≡ true
      → is_blank m.message_content ≡ false
      → names j m.message_content ≡ true
      → get (create_violation_report services reporter_id input now s).1.uploads.bucket j ≡ none
  create_violation_report-evidence m n ms u r rows x j deletes no_images messages there other first
        created concerned foreign is_media is_address filled named =
      let t : Filing = record (started services s) {
        db = record s { tables = record s.tables { reports = rows } };
      } in
      let (e, t', thrown, noted, same) =
        ended services m r.row.id input.reported_user_id n ms t x j concerned foreign is_media
          is_address filled named in
      let whole : file_report services reporter_id input now (started services s) ≡ (err e, t') =
        run_lem r t t' e no_images (rw created refl) (rw messages thrown) in
      ap (λ p. get p.1.uploads.bucket j) (answered u t' e there other first whole)
      ∙ get-rollback_uploaded_files services deletes j
          (t'.uploaded_media_urls ++ t'.uploaded_image_urls) t'.db.uploads
      ∙ rw (listed-append j t'.uploaded_media_urls t'.uploaded_image_urls, noted) refl
