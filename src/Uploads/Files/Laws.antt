-- ===== src/Uploads/Files/Laws.antt =====
-- An upload that fails leaves no object behind; one that succeeds has its object and its row.
use thunderchat_server.Base.{
  ℕ, ◌≡◌, refl, arith, Bool, true, false, ◌||◌, none, some, ◌==◌, ◌⊎◌, inl, inr, Option-cases,
  Bool-cases, eq_refl, list_eq, nat_eq, ltb,
}
use thunderchat_server.Base.Action.{
  Action, Exception, Result-cases, err, pure, throw, plain, upload_message,
  failed_to_create_thumbnail, bad_request, bucket_not_set, file_type_not_allowed,
  file_size_exceeds_limit, ◌>>=◌, ◌>>◌,
}
use thunderchat_server.Base.JsMap.{get}
use thunderchat_server.Security.Utf16.{Text}
use thunderchat_server.Messages.{MediaType}
use thunderchat_server.Uploads.{UploadDb, UploadServices, MediaRow, send_put, send_delete, url_of}
use thunderchat_server.Uploads.Tables.{FileKind, lookup, allowed_mime_types}
use thunderchat_server.Uploads.Types.{detect_file_type}
use thunderchat_server.Uploads.Thumbnails.{
  thumbnail_object, generate_video_thumbnail, check_thumbnail_exists, upload_thumbnail_to_s3,
}
use thunderchat_server.Uploads.Files.{
  UploadedFile, UploadResult, upload_file, record_upload, add_thumbnail, file_key_of,
  rollback_file_upload, rolling_back, store_thumbnail, result_of, has_media_id, with_thumbnail,
  create_media, new_media, decode_multer_file_name, is_unset, max_size,
}
use thunderchat_server.Uploads.Files.Frame.{
  Touches, Touches-bind, Touches-catch, Touches-send_put, Touches-send_delete, Deletes,
  get-send_delete,
}

-- The keys of an upload: that of its file and that of its picture.
abbrev pub own_keys : Text → Text → Bool
own_keys key j = key == j || thumbnail_object key == j

or_true : (a b : Bool) → b ≡ true → (a || b) ≡ true
or_true a b h = ground arith

-- What makes the picture of a video changes its key only.
module _ (services : UploadServices) (key : Text) (own : Text → Bool)
    (own_thumbnail : own (thumbnail_object key) ≡ true) where
  thumbnail-Touches : (url : Text) → Touches own (generate_video_thumbnail services url key)
  unfolding generate_video_thumbnail upload_thumbnail_to_s3
  thumbnail-Touches url s j free = elim (Bool-cases (services.machine.can_download url)) [
    | inr e ↦ rw e refl
    | inl e ↦ elim (Bool-cases (services.machine.can_screenshot url)) [
      | inr f ↦ rw (e, f) refl
      | inl f ↦
          rw (e, f)
            (Touches-bind own (send_put services.object_store (thumbnail_object key) "image/jpeg")
              (λ u. pure (url_of services.machine (thumbnail_object key)))
              (Touches-send_put services.object_store own (thumbnail_object key) own_thumbnail
                "image/jpeg")
              (λ u t i h. refl) s j free)
    ]
  ]

  -- The last two steps write a row and answer.
  stored-Touches :
      (row : MediaRow) (thumbnail_url : Text)
      → Touches own (
          store_thumbnail services row.id thumbnail_url
          >> pure (record (result_of row) { thumbnail_url = some thumbnail_url }))
  stored-Touches row thumbnail_url s j free =
      elim (Option-cases (
        services.message_media.update (has_media_id row.id)
          (λ r. record r { thumbnail_url = thumbnail_url }) s.media)) [
            | inl e ↦ ground arith
            | inr ((r, rows), e) ↦ ground arith
          ]

  pub add_thumbnail-Touches :
      (row : MediaRow) (url : Text) → Touches own (add_thumbnail services row url key)
  unfolding add_thumbnail
  add_thumbnail-Touches row url s j free =
      elim (Option-cases (check_thumbnail_exists services key s)) [
        | inr (there, e) ↦ rw e (stored-Touches row there s j free)
        | inl e ↦ rw e (
            Touches-bind own (generate_video_thumbnail services url key)
              (λ t.
                store_thumbnail services row.id t
                >> pure (record (result_of row) { thumbnail_url = some t }))
              (thumbnail-Touches url) (stored-Touches row) s j free)
      ]

-- The steps behind the upload of an object, and what their failure leaves.
module _ (services : UploadServices) (key : Text) where
  own_key : own_keys key key ≡ true
  own_key = rw (eq_refl key) refl

  own_thumbnail : own_keys key (thumbnail_object key) ≡ true
  own_thumbnail = or_true (key == thumbnail_object key) _ (eq_refl (thumbnail_object key))

  rolling_back-Touches :
      {A : Type 0} (rethrown : Exception → Exception) (m : Action UploadDb A)
      → Touches (own_keys key) m
      → Touches (own_keys key) (rolling_back services key rethrown m)
  unfolding rollback_file_upload
  rolling_back-Touches rethrown m h =
      Touches-catch (own_keys key) m (λ e. rollback_file_upload services key >> throw (rethrown e))
        h
        (λ e.
          Touches-bind (own_keys key) (rollback_file_upload services key) (λ u. throw (rethrown e))
            (Touches-catch (own_keys key) (send_delete services.object_store key) (λ x. pure tt)
              (Touches-send_delete services.object_store (own_keys key) key own_key)
              (λ x t i f. refl))
            (λ u t i f. refl))

  pub with_thumbnail-Touches :
      (kind : FileKind) (row : MediaRow) (url : Text)
      → Touches (own_keys key) (with_thumbnail services kind row url key)
  with_thumbnail-Touches FileKind.video row url =
      rolling_back-Touches (λ e. plain (upload_message failed_to_create_thumbnail))
        (add_thumbnail services row url key)
        (add_thumbnail-Touches services key (own_keys key) own_thumbnail row url)
  with_thumbnail-Touches FileKind.image row url = λ s j free. refl
  with_thumbnail-Touches FileKind.document row url = λ s j free. refl
  with_thumbnail-Touches FileKind.archive row url = λ s j free. refl
  with_thumbnail-Touches FileKind.audio row url = λ s j free. refl

  create_media-Touches :
      (url : Text) (type : MediaType) (name : Text) (size : ℕ)
      → Touches (own_keys key) (create_media services url type name size)
  create_media-Touches url type name size s j free =
      elim (Option-cases (services.message_media.create (new_media url type name size) s.media)) [
        | inl e ↦ ground arith
        | inr ((row, rows), e) ↦ ground arith
      ]

  recorded-Touches :
      (file : UploadedFile) (kind : FileKind) (type : MediaType)
      → Touches (own_keys key) (
          create_media services
            (url_of services.machine key)
            type
            (decode_multer_file_name services.machine file.original_name)
            file.size
          >>= λ row. with_thumbnail services kind row (url_of services.machine key) key)
  recorded-Touches file kind type =
      Touches-bind (own_keys key)
        (create_media services (url_of services.machine key) type
          (decode_multer_file_name services.machine file.original_name) file.size)
        (λ row. with_thumbnail services kind row (url_of services.machine key) key)
        (create_media-Touches (url_of services.machine key) type
          (decode_multer_file_name services.machine file.original_name) file.size)
        (λ row. with_thumbnail-Touches kind row (url_of services.machine key))

  record_upload-Touches :
      (file : UploadedFile) (kind : FileKind)
      → Touches (own_keys key) (record_upload services file kind key)
  unfolding record_upload
  record_upload-Touches file kind s j free =
      elim (Result-cases (detect_file_type file.mime_type file.original_name)) [
        | inl (type, e) ↦ rw e (recorded-Touches file kind type s j free)
        | inr (x, e) ↦ rw e refl
      ]

  pub rolling_back-err :
      {A : Type 0} (rethrown : Exception → Exception) (m : Action UploadDb A) (s s' : UploadDb)
      (e : Exception)
      → Deletes services.object_store
      → rolling_back services key rethrown m s ≡ (err e, s')
      → get s'.bucket key ≡ none
  unfolding rollback_file_upload
  rolling_back-err rethrown m s s' e deletes h = elim (Result-cases (m s).0) [
    | inl (a, f) ↦ absurd (ground arith)
    | inr (x, f) ↦
        let gone = get-send_delete services.object_store key (m s).1 deletes in
        let same : s' ≡ (send_delete services.object_store key (m s).1).1 =
          ground (arith, gone.0) in
        rw same gone.1
  ]

module _ (services : UploadServices) (file : UploadedFile) (now : ℕ) where
  -- The steps from the upload of the object on.
  abbrev pub stored : FileKind → Action UploadDb UploadResult
  stored kind =
      send_put services.object_store (file_key_of services.machine file now) file.mime_type
      >> rolling_back services (file_key_of services.machine file now) (λ e. e)
          (record_upload services file kind (file_key_of services.machine file now))

  pub put_and_record-Touches :
      (kind : FileKind) → Touches (own_keys (file_key_of services.machine file now)) (stored kind)
  put_and_record-Touches kind =
      let key = file_key_of services.machine file now in
      Touches-bind (own_keys key) (send_put services.object_store key file.mime_type)
        (λ u. rolling_back services key (λ e. e) (record_upload services file kind key))
        (Touches-send_put services.object_store (own_keys key) key (own_key services key)
          file.mime_type)
        (λ u.
          rolling_back-Touches services key (λ e. e) (record_upload services file kind key)
            (record_upload-Touches services key file kind))

  -- An upload is turned down before it begins, or it goes on with the kind of an allowed type.
  pub upload_cases :
      (s : UploadDb)
      → ((e : Exception) × (upload_file services file now s ≡ (err e, s)))
        ⊎ ((kind : FileKind) × (lookup file.mime_type allowed_mime_types ≡ some kind)
            × (ltb max_size file.size ≡ false)
            × (upload_file services file now s ≡ stored kind s))
  unfolding upload_file
  upload_cases s = elim (Bool-cases (is_unset services.machine.aws_s3_bucket)) [
    | inl unset ↦ inl (plain (upload_message bucket_not_set), rw unset refl)
    | inr is_set ↦ elim (Option-cases (lookup file.mime_type allowed_mime_types)) [
      | inl refused ↦
          inl (bad_request (upload_message file_type_not_allowed), rw (is_set, refused) refl)
      | inr (kind, allowed) ↦ elim (Bool-cases (ltb max_size file.size)) [
        | inl large ↦
            inl (
              bad_request (upload_message file_size_exceeds_limit),
              rw (is_set, allowed, large) refl,
            )
        | inr fits ↦ inr (kind, allowed, fits, rw (is_set, allowed, fits) refl)
      ]
    ]
  ]
