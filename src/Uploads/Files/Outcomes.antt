-- ===== src/Uploads/Files/Outcomes.antt =====
-- What an upload leaves, where it fails and where it succeeds.
use thunderchat_server.Base.{
  ℕ, ◌≤◌, ◌≡◌, refl, ◌∙◌, arith, true, false, none, some, ◌==◌, ◌⊎◌, inl, inr, Option-cases,
  Bool-cases, eq_refl, list_eq, nat_eq,
}
use thunderchat_server.Base.Action.{Exception, Result-cases, ok, err, bind_ok, pure, ◌>>◌}
use thunderchat_server.Base.JsMap.{get}
use thunderchat_server.Security.Utf16.{Text}
use thunderchat_server.Uploads.{UploadDb, UploadServices, MediaRow, send_put, url_of}
use thunderchat_server.Uploads.Tables.{FileKind, lookup, allowed_mime_types}
use thunderchat_server.Uploads.Types.{detect_file_type}
use thunderchat_server.Uploads.Thumbnails.{thumbnail_object, check_thumbnail_exists}
use thunderchat_server.Uploads.Files.{
  UploadedFile, UploadResult, upload_file, record_upload, file_key_of, add_thumbnail,
  thumbnail_or_new, store_thumbnail, result_of, with_thumbnail, new_media, decode_multer_file_name,
}
use thunderchat_server.Uploads.Files.Frame.{Touches, Deletes}
use thunderchat_server.Uploads.Files.Laws.{
  own_keys, stored, put_and_record-Touches, upload_cases, rolling_back-err, add_thumbnail-Touches,
}

module _ (services : UploadServices) (key : Text) where
  add_thumbnail_ok :
      (row : MediaRow) (url : Text) (s s' : UploadDb) (r : UploadResult)
      → add_thumbnail services row url key s ≡ (ok r, s')
      → r.url ≡ row.url
  unfolding add_thumbnail
  add_thumbnail_ok row url s s' r h =
      let (t, s1, made, rest) =
        bind_ok (thumbnail_or_new services (check_thumbnail_exists services key s) url key)
          (λ t.
            store_thumbnail services row.id t
            >> pure (record (result_of row) { thumbnail_url = some t }))
          s s' r h in
      let (u, s2, written, last) =
        bind_ok (store_thumbnail services row.id t)
          (λ u. pure (record (result_of row) { thumbnail_url = some t })) s1 s' r rest in
      ground arith

  -- The answer has the address of the row, and only the picture is stored meanwhile.
  with_thumbnail_ok :
      (kind : FileKind) (row : MediaRow) (url : Text) (s s' : UploadDb) (r : UploadResult)
      → with_thumbnail services kind row url key s ≡ (ok r, s')
      → (r.url ≡ row.url)
        × ((j : Text) → (thumbnail_object key == j) ≡ false → get s'.bucket j ≡ get s.bucket j)
  with_thumbnail_ok FileKind.video row url s s' r h =
      elim (Result-cases (add_thumbnail services row url key s).0) [
        | inr (e, failed) ↦ absurd (ground arith)
        | inl (a, done) ↦
            let same : add_thumbnail services row url key s ≡ (ok r, s') = ground arith in
            (
              add_thumbnail_ok row url s s' r same,
              λ j free. rw same at (
                  add_thumbnail-Touches services key (λ i. thumbnail_object key == i)
                    (eq_refl (thumbnail_object key)) row url s j free),
            )
      ]
  with_thumbnail_ok FileKind.image row url s s' r h = (ground arith, λ j free. ground arith)
  with_thumbnail_ok FileKind.document row url s s' r h = (ground arith, λ j free. ground arith)
  with_thumbnail_ok FileKind.archive row url s s' r h = (ground arith, λ j free. ground arith)
  with_thumbnail_ok FileKind.audio row url s s' r h = (ground arith, λ j free. ground arith)

  record_upload_ok :
      (file : UploadedFile) (kind : FileKind) (s s' : UploadDb) (r : UploadResult)
      → record_upload services file kind key s ≡ (ok r, s')
      → (r.url ≡ url_of services.machine key)
        × ((j : Text) → (thumbnail_object key == j) ≡ false → get s'.bucket j ≡ get s.bucket j)
  unfolding record_upload
  record_upload_ok file kind s s' r h =
      let name = decode_multer_file_name services.machine file.original_name in
      let url = url_of services.machine key in
      elim (Result-cases (detect_file_type file.mime_type file.original_name)) [
        | inr (e, unknown) ↦ absurd (ground arith)
        | inl (type, known) ↦
            elim (Option-cases
              (services.message_media.create (new_media url type name file.size) s.media)) [
                | inl rejected ↦ absurd (ground arith)
                | inr ((row, rows), created) ↦
                    let (id, is_row, new_rows, free) =
                      services.message_media.create-some _ _ row rows created in
                    let rest : with_thumbnail services kind row url key (record s { media = rows })
                        ≡ (ok r, s') =
                      ground arith in
                    let (address, others) =
                      with_thumbnail_ok kind row url (record s { media = rows }) s' r rest in
                    (address ∙ rw is_row refl, others)
              ]
      ]

module _ (services : UploadServices) (file : UploadedFile) (now : ℕ) where
  pub upload_file-Touches :
      Touches (own_keys (file_key_of services.machine file now)) (upload_file services file now)
  upload_file-Touches s j free = elim (upload_cases services file now s) [
    | inl (e, same) ↦ rw same refl
    | inr (kind, allowed, fits, e) ↦ rw e (put_and_record-Touches services file now kind s j free)
  ]

  failed_behind :
      (kind : FileKind) (s s' : UploadDb) (e : Exception)
      → Deletes services.object_store
      → stored services file now kind s ≡ (err e, s')
      → (s' ≡ s) ⊎ (get s'.bucket (file_key_of services.machine file now) ≡ none)
  unfolding send_put
  failed_behind kind s s' e deletes h =
      elim (Option-cases (
        services.object_store.put_object (file_key_of services.machine file now) file.mime_type
          s.bucket)) [
            | inl rejected ↦ inl (ground arith)
            | inr (b, there) ↦ inr (
                rolling_back-err services (file_key_of services.machine file now) (λ x. x)
                  (record_upload services file kind (file_key_of services.machine file now))
                  (record s { bucket = b }) s' e deletes (ground arith))
          ]

  -- Where the store deletes whenever it is asked to, an upload that throws has changed nothing, or
  -- leaves no object under the key of its file; no object is changed but that one and its picture.
  pub upload_file-failed :
      (s s' : UploadDb) (e : Exception) (j : Text)
      → Deletes services.object_store
      → upload_file services file now s ≡ (err e, s')
      → ((s' ≡ s) ⊎ (get s'.bucket (file_key_of services.machine file now) ≡ none))
        × ((own_keys (file_key_of services.machine file now) j ≡ true)
            ⊎ (get s'.bucket j ≡ get s.bucket j))
  upload_file-failed s s' e j deletes h = (
    elim (upload_cases services file now s) [
      | inl (x, same) ↦ inl (ground arith)
      | inr (kind, allowed, fits, same) ↦ failed_behind kind s s' e deletes (rw (← same) h)
    ],
    elim (Bool-cases (own_keys (file_key_of services.machine file now) j)) [
      | inl own ↦ inl own
      | inr free ↦ inr (rw h at (upload_file-Touches s j free))
    ],
  )

  stored_ok :
      (kind : FileKind) (s s' : UploadDb) (r : UploadResult)
      → stored services file now kind s ≡ (ok r, s')
      → (r.url ≡ url_of services.machine (file_key_of services.machine file now))
        × ((thumbnail_object (file_key_of services.machine file now)
                == file_key_of services.machine file now)
              ≡ false
            → get s'.bucket (file_key_of services.machine file now) ≡ some file.mime_type)
  unfolding send_put
  stored_ok kind s s' r h =
      let key = file_key_of services.machine file now in
      elim (Option-cases (services.object_store.put_object key file.mime_type s.bucket)) [
        | inl rejected ↦ absurd (ground arith)
        | inr (b, there) ↦
            elim (Result-cases (record_upload services file kind key (record s { bucket = b })).0) [
              | inr (e, failed) ↦ absurd (ground arith)
              | inl (a, done) ↦
                  let (address, others) =
                    record_upload_ok services key file kind (record s { bucket = b }) s' r
                      (ground arith) in
                  let put = services.object_store.put_object-some key _ s.bucket b key there in
                  (address, λ other. others key other ∙ put ∙ rw (eq_refl key) refl)
            ]
      ]

  -- An upload that succeeds was of an allowed type and of fifty megabytes at most; it answers the
  -- address of its object, and the object is there with its type, where the key of the picture is
  -- another one.
  pub upload_file_lem :
      (s s' : UploadDb) (r : UploadResult)
      → (thumbnail_object (file_key_of services.machine file now)
          == file_key_of services.machine file now)
        ≡ false
      → upload_file services file now s ≡ (ok r, s')
      → (kind : FileKind) × (lookup file.mime_type allowed_mime_types ≡ some kind)
        × (file.size ≤ 52428800)
        × (r.url ≡ url_of services.machine (file_key_of services.machine file now))
        × (get s'.bucket (file_key_of services.machine file now) ≡ some file.mime_type)
  upload_file_lem s s' r other h = elim (upload_cases services file now s) [
    | inl (e, same) ↦ absurd (ground arith)
    | inr (kind, allowed, fits, same) ↦
        let (address, there) = stored_ok kind s s' r (rw (← same) h) in
        (kind, allowed, ground arith, address, there other)
  ]

  pub upload_file-url :
      (s s' : UploadDb) (r : UploadResult)
      → upload_file services file now s ≡ (ok r, s')
      → r.url ≡ url_of services.machine (file_key_of services.machine file now)
  upload_file-url s s' r h = elim (upload_cases services file now s) [
    | inl (e, same) ↦ absurd (ground arith)
    | inr (kind, allowed, fits, same) ↦ (stored_ok kind s s' r (rw (← same) h)).0
  ]
