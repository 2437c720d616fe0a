-- ===== src/Moderation/Filing/Failed.antt =====
-- What a report leaves that could not be filed.
use thunderchat_server.Base.{
  ℕ, ◌+◌, ◌≤◌, length, ◌≡◌, refl, ap, ◌∙◌, arith, Bool, true, false, Option, none, List, [], ◌∷◌,
  ◌++◌, ◌==◌, ◌⊎◌, inl, inr, Bool-cases, Option-cases, All, nat_eq, list_eq, if◌then◌else◌, String,
}
use thunderchat_server.Base.Action.{Exception, Result, Result-cases, err}
use thunderchat_server.Base.JsMap.{get}
use thunderchat_server.Account.{has_account_id}
use thunderchat_server.Security.Utf16.{Text}
use thunderchat_server.Uploads.{url_of, send_put}
use thunderchat_server.Uploads.Names.{contains, extname}
use thunderchat_server.Uploads.Addresses.{IsHost, separator}
use thunderchat_server.Uploads.Thumbnails.{thumbnail_object}
use thunderchat_server.Uploads.Files.{
  upload_report_image, as_report_image, file_key_of, upload_report_message_media,
  report_message_key, extension_or,
}
use thunderchat_server.Uploads.Types.{get_content_type_from_extension}
use thunderchat_server.Uploads.Files.Frame.{Deletes}
use thunderchat_server.Moderation.UserReports.{
  FilingServices, FilingDb, Filing, ImageInput, MessageInput, ReportInput, failed, is_recent,
  get_content_type_for_message_type,
}
use thunderchat_server.Moderation.Filing.{
  create_violation_report, file_report, started, rolled_back, upload_in_time,
}
use thunderchat_server.Moderation.Filing.Rollback.{
  listed, listed-append, get-rollback_uploaded_files,
}
use thunderchat_server.Moderation.Filing.Rows.{rollback_uploaded_files-Adds}
use thunderchat_server.Moderation.Filing.Rows.Reports.{file_report-Adds}
use thunderchat_server.Moderation.Filing.Outcomes.{
  IsAccounted, upload_report_image-IsAccounted, upload_report_message_media-IsAccounted,
  in_time-IsAccounted,
}
use thunderchat_server.Moderation.Filing.Leaks.{IsPlain}
use thunderchat_server.Moderation.Filing.Leaks.Reports.{file_report-Keeps}

settle :
    (o before : Option String) (last : Option String) (noted all : Bool)
    → (o ≡ before) ⊎ ((o ≡ none) ⊎ (noted ≡ true))
    → all ≡ noted
    → last ≡ (if all then none else o)
    → (last ≡ before) ⊎ (last ≡ none)
settle o before last noted true safe same h = inr h
settle o before last noted false (inl e) same h = inl (h ∙ e)
settle o before last noted false (inr (inl e)) same h = inr (h ∙ e)
settle o before last noted false (inr (inr e)) same h = absurd (cc)

module _ (services : FilingServices) (reporter_id : ℕ) (input : ReportInput) (now : ℕ)
    (s : FilingDb) where
  abbrev run : Result ℕ × Filing
  run = file_report services reporter_id input now (started services s)

  -- The answer of a failure is that of the transaction.
  failed_lem :
      (s' : FilingDb) (e : Exception)
      → create_violation_report services reporter_id input now s ≡ (failed e, s')
      → (run.0 ≡ err e) × (s' ≡ rolled_back services s run.1)
  unfolding create_violation_report
  failed_lem s' e h =
      elim (Option-cases
        (services.user.find_first (has_account_id input.reported_user_id) s.users)) [
          | inl missing ↦ absurd (ground arith)
          | inr (u, there) ↦ elim (Bool-cases (reporter_id == input.reported_user_id)) [
            | inl self ↦ absurd (ground arith)
            | inr other ↦
                elim (Option-cases (
                  services.violation_report.find_first
                    (is_recent reporter_id input.reported_user_id now) s.tables.reports)) [
                      | inr (r, again) ↦ absurd (ground arith)
                      | inl first ↦ elim (Result-cases run.0) [
                        | inl (id, done) ↦ absurd (ground arith)
                        | inr (x, thrown) ↦ (ground arith, ground arith)
                      ]
                    ]
          ]
        ]

  abbrev key_of_image : ImageInput → Text
  key_of_image i = file_key_of services.upload.machine (as_report_image i.file i.at) i.at

  abbrev key_of_message : MessageInput → Text
  key_of_message m =
      report_message_key m.message_content m.message_id
        (get_content_type_for_message_type m.message_type) m.at

  -- No key holds the separator that a key is found behind, and no upload loses its race.
  pub record IsRegular : Type 0 where
    pub deletes : Deletes services.upload.object_store
    pub host : IsHost services.upload.machine
    pub image_keys : All (λ i. contains (key_of_image i) separator ≡ false) input.report_images
    pub message_keys :
        All (λ m. contains (key_of_message m) separator ≡ false) input.reported_messages
    pub in_time : All (λ m. services.times_out m.message_id ≡ false) input.reported_messages

  in_time-IsPlain : (m : MessageInput) → IsPlain (upload_in_time services m)
  unfolding upload_report_message_media
  in_time-IsPlain m u url h =
      elim (Bool-cases (services.upload.machine.can_read m.message_content)) [
        | inr e ↦ absurd (ground arith)
        | inl e ↦
            elim (Result-cases
              (send_put services.upload.object_store (key_of_message m)
                (get_content_type_from_extension (
                  extension_or (extname m.message_content)
                    (get_content_type_for_message_type m.message_type)))
                u).0) [
                  | inr (x, f) ↦ absurd (ground arith)
                  | inl (a, f) ↦ elim (Bool-cases (services.times_out m.message_id)) [
                    | inl late ↦ absurd (ground arith)
                    | inr on_time ↦
                        let same : url ≡ url_of services.upload.machine (key_of_message m) =
                          ground arith in
                        rw same refl
                  ]
                ]
      ]

  module _ (c : ℕ) (cs : Text) where
    images-IsAccounted :
        Deletes services.upload.object_store
        → IsHost services.upload.machine
        → (images : List ImageInput) → All (λ i. contains (key_of_image i) separator ≡ false) images
        → All (λ i. (thumbnail_object (key_of_image i) == c ∷ cs) ≡ false) images
        → All (λ i. IsAccounted (c ∷ cs) (upload_report_image services.upload i.file i.at)) images
    images-IsAccounted deletes host [] clean other = tt
    images-IsAccounted deletes host (i ∷ images) clean other = (
      upload_report_image-IsAccounted services.upload host c cs i.file i.at deletes clean.0 other.0,
      images-IsAccounted deletes host images clean.1 other.1,
    )

    messages-IsAccounted :
        IsHost services.upload.machine
        → (ms : List MessageInput) → All (λ m. contains (key_of_message m) separator ≡ false) ms
        → All (λ m. services.times_out m.message_id ≡ false) ms
        → All
            (λ m.
              IsAccounted (c ∷ cs) (upload_in_time services m)
              × IsPlain (upload_in_time services m))
            ms
    messages-IsAccounted host [] clean on_time = tt
    messages-IsAccounted host (m ∷ ms) clean on_time = (
      (
        in_time-IsAccounted (c ∷ cs)
            (upload_report_message_media services.upload m.message_content m.message_id
              (get_content_type_for_message_type m.message_type) m.at)
            (services.times_out m.message_id) _ on_time.0
            (upload_report_message_media-IsAccounted services.upload host c cs m.message_content
              m.message_id (get_content_type_for_message_type m.message_type) m.at clean.0),
        in_time-IsPlain m,
      ),
      messages-IsAccounted host ms clean.1 on_time.1,
    )

    unnoticed :
        IsRegular
        → All (λ i. (thumbnail_object (key_of_image i) == c ∷ cs) ≡ false) input.report_images
        → (s' : FilingDb) → s' ≡ rolled_back services s run.1
        → (get s'.uploads.bucket (c ∷ cs) ≡ get s.uploads.bucket (c ∷ cs))
          ⊎ (get s'.uploads.bucket (c ∷ cs) ≡ none)
    unnoticed regular other s' same =
        let start : Option String = get s.uploads.bucket (c ∷ cs) in
        let safe =
          file_report-Keeps services regular.deletes (c ∷ cs) start reporter_id input now
            (images-IsAccounted regular.deletes regular.host input.report_images regular.image_keys
              other)
            (messages-IsAccounted regular.host input.reported_messages regular.message_keys
              regular.in_time)
            (started services s) (inl refl) in
        let urls = run.1.uploaded_media_urls ++ run.1.uploaded_image_urls in
        let cleared =
          get-rollback_uploaded_files services regular.deletes (c ∷ cs) urls run.1.db.uploads in
        elim (settle _ start _ _ (listed (c ∷ cs) urls) safe
          (listed-append (c ∷ cs) run.1.uploaded_media_urls run.1.uploaded_image_urls) cleared) [
            | inl kept ↦ inl (ap (λ t. get t.uploads.bucket (c ∷ cs)) same ∙ kept)
            | inr gone ↦ inr (ap (λ t. get t.uploads.bucket (c ∷ cs)) same ∙ gone)
          ]

  -- The rows of media that the uploads of its images have written stay.
  media_stays :
      (s' : FilingDb)
      → s' ≡ rolled_back services s run.1
      → (length s.uploads.media ≤ length s'.uploads.media)
        × (length s'.uploads.media ≤ length s.uploads.media + length input.report_images)
  media_stays s' same =
      let (low, high) = file_report-Adds services reporter_id input now (started services s) in
      let (low', high') =
        rollback_uploaded_files-Adds services
          (run.1.uploaded_media_urls ++ run.1.uploaded_image_urls) run.1.db.uploads in
      rw same ((omega arith, omega arith))

  -- Where the store deletes whenever it is asked to, no upload loses its race, and no key holds the
  -- separator of addresses: a report that cannot be filed leaves the tables that its transaction
  -- writes, the users and the messages as they were, and every object as it was or deleted, but for
  -- pictures made of a video among its images. No row of media is lost, and there is one more for
  -- each of its images at most.
  pub create_violation_report-failed :
      (s' : FilingDb) (e : Exception) (c : ℕ) (cs : Text)
      → IsRegular
      → All (λ i. (thumbnail_object (key_of_image i) == c ∷ cs) ≡ false) input.report_images
      → create_violation_report services reporter_id input now s ≡ (failed e, s')
      → (s'.tables ≡ s.tables)
        × (s'.users ≡ s.users)
        × (s'.messages ≡ s.messages)
        × ((get s'.uploads.bucket (c ∷ cs) ≡ get s.uploads.bucket (c ∷ cs))
            ⊎ (get s'.uploads.bucket (c ∷ cs) ≡ none))
        × (length s.uploads.media ≤ length s'.uploads.media)
        × (length s'.uploads.media ≤ length s.uploads.media + length input.report_images)
  create_violation_report-failed s' e c cs regular other h =
      let (thrown, same) = failed_lem s' e h in
      (
        ap (λ t. t.tables) same,
        ap (λ t. t.users) same,
        ap (λ t. t.messages) same,
        unnoticed c cs regular other s' same,
        (media_stays s' same).0,
        (media_stays s' same).1,
      )
