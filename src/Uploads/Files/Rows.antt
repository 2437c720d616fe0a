-- ===== src/Uploads/Files/Rows.antt =====
-- How many rows of media the operations on files write.
use thunderchat_server.Base.{
  ℕ, ◌+◌, arith, Option, some, length, length-map, ltb, string_eq, list_eq, nat_eq,
}
use thunderchat_server.Base.Action.{
  Result, Action, Exception, pure, throw, throw_if, plain, bad_request, upload_message,
  bucket_not_set, file_size_exceeds_limit, failed_to_create_thumbnail, ◌>>=◌, ◌>>◌,
}
use thunderchat_server.Base.Adds.{
  Adds, Adds-bind, Adds-catch, Adds-query, Adds-none, Adds-pure, Adds-throw, Adds-throw_if,
}
use thunderchat_server.Security.Utf16.{Text}
use thunderchat_server.Messages.{MediaType}
use thunderchat_server.Uploads.{
  UploadDb, UploadServices, ObjectStore, MediaRow, send_put, send_delete, url_of,
}
use thunderchat_server.Uploads.Tables.{FileKind, lookup, allowed_mime_types}
use thunderchat_server.Uploads.Types.{detect_file_type}
use thunderchat_server.Uploads.Thumbnails.{
  upload_thumbnail_to_s3, generate_video_thumbnail, check_thumbnail_exists,
}
use thunderchat_server.Uploads.Files.{
  UploadedFile, UploadResult, upload_file, record_upload, add_thumbnail, with_thumbnail,
  create_media, store_thumbnail, has_media_id, new_media, thumbnail_or_new, rollback_file_upload,
  rolling_back, delete_file_by_url, upload_report_image, upload_report_message_media, object_key,
  or_no_key, or_not_allowed, lift_result, is_unset, max_size, decode_multer_file_name, result_of,
  file_key_of, as_report_image,
}

-- The number of rows of media.
abbrev pub rows_of_media : UploadDb → ℕ
rows_of_media u = length u.media

module _ (store : ObjectStore) where
  send_put-Adds : (k : Text) (type : _) → Adds rows_of_media 0 (send_put store k type)
  unfolding send_put
  send_put-Adds k type = Adds-none rows_of_media (send_put store k type) λ u. ground arith

  send_delete-Adds : (k : Text) → Adds rows_of_media 0 (send_delete store k)
  unfolding send_delete
  send_delete-Adds k = Adds-none rows_of_media (send_delete store k) λ u. ground arith

module _ (services : UploadServices) where
  create_media-Adds :
      (url : Text) (type : MediaType) (name : Text) (size : ℕ)
      → Adds rows_of_media 1 (create_media services url type name size)
  create_media-Adds url type name size =
      Adds-query rows_of_media 1
        (λ u. services.message_media.create (new_media url type name size) u.media) (λ r. r.0)
        (λ r u. record u { media = r.1 })
        λ r u e.
          let (id, new, rows, free) =
            services.message_media.create-some (new_media url type name size) u.media r.0 r.1 e in
          rw rows ((omega arith, omega arith))

  store_thumbnail-Adds :
      (id : ℕ) (url : Text) → Adds rows_of_media 0 (store_thumbnail services id url)
  store_thumbnail-Adds id url =
      Adds-query rows_of_media 0
        (λ u.
          services.message_media.update (has_media_id id)
            (λ row. record row { thumbnail_url = url }) u.media)
        (λ r. tt) (λ r u. record u { media = r.1 })
        λ r u e.
          let (old, there, passed, new, rows) =
            services.message_media.update-some (has_media_id id)
              (λ row. record row { thumbnail_url = url }) u.media r.0 r.1 e in
          rw (rows, length-map) ((omega arith, omega arith))

  rollback_file_upload-Adds :
      (key : Text) → Adds rows_of_media 0 (rollback_file_upload services key)
  unfolding rollback_file_upload
  rollback_file_upload-Adds key =
      Adds-catch rows_of_media 0 0 (send_delete services.object_store key) (λ e. pure tt)
        (send_delete-Adds services.object_store key) (λ e. Adds-pure rows_of_media tt)

  rolling_back-Adds :
      (A : Type 0) (k : ℕ) (key : Text) (rethrown : Exception → Exception) (m : Action UploadDb A)
      → Adds rows_of_media k m
      → Adds rows_of_media (k + 0) (rolling_back services key rethrown m)
  rolling_back-Adds A k key rethrown m h =
      Adds-catch rows_of_media k 0 m (λ e. rollback_file_upload services key >> throw (rethrown e))
        h
        (λ e.
          Adds-bind rows_of_media 0 0 (rollback_file_upload services key) (λ u. throw (rethrown e))
            (rollback_file_upload-Adds key) (λ u. Adds-throw rows_of_media A (rethrown e)))

  thumbnail-Adds :
      (existing : Option Text) (url key : Text)
      → Adds rows_of_media 0 (thumbnail_or_new services existing url key)
  unfolding generate_video_thumbnail upload_thumbnail_to_s3 send_put
  thumbnail-Adds existing url key =
      Adds-none rows_of_media (thumbnail_or_new services existing url key) λ u. ground arith

  add_thumbnail-Adds :
      (row : MediaRow) (url key : Text) → Adds rows_of_media 0 (add_thumbnail services row url key)
  unfolding add_thumbnail
  add_thumbnail-Adds row url key u =
      let existing = check_thumbnail_exists services key u in
      Adds-bind rows_of_media 0 0 (thumbnail_or_new services existing url key)
        (λ thumbnail_url.
          store_thumbnail services row.id thumbnail_url
          >> pure (record (result_of row) { thumbnail_url = some thumbnail_url }))
        (thumbnail-Adds existing url key)
        (λ thumbnail_url.
          Adds-bind rows_of_media 0 0 (store_thumbnail services row.id thumbnail_url)
            (λ w. pure (record (result_of row) { thumbnail_url = some thumbnail_url }))
            (store_thumbnail-Adds row.id thumbnail_url)
            (λ w.
              Adds-pure rows_of_media
                (record (result_of row) { thumbnail_url = some thumbnail_url })))
        u

  with_thumbnail-Adds :
      (kind : FileKind) (row : MediaRow) (url key : Text)
      → Adds rows_of_media 0 (with_thumbnail services kind row url key)
  with_thumbnail-Adds kind row url key =
      elim kind as (λ k. Adds rows_of_media 0 (with_thumbnail services k row url key)) [
        | FileKind.video ↦
            rolling_back-Adds UploadResult 0 key
              (λ e. plain (upload_message failed_to_create_thumbnail))
              (add_thumbnail services row url key) (add_thumbnail-Adds row url key)
        | _ ↦ Adds-pure rows_of_media (result_of row)
      ]

  lifted-Adds : {A : Type 0} (r : Result A) → Adds rows_of_media 0 (lift_result r)
  lifted-Adds r = Adds-none rows_of_media (lift_result r) λ u. ground arith

  allowed-Adds : (found : Option FileKind) → Adds rows_of_media 0 (or_not_allowed found)
  allowed-Adds found = Adds-none rows_of_media (or_not_allowed found) λ u. ground arith

  keyed-Adds : (found : Option Text) → Adds rows_of_media 0 (or_no_key services found)
  keyed-Adds found = Adds-none rows_of_media (or_no_key services found) λ u. ground arith

  record_upload-Adds :
      (file : UploadedFile) (kind : FileKind) (key : Text)
      → Adds rows_of_media 1 (record_upload services file kind key)
  unfolding record_upload
  record_upload-Adds file kind key =
      Adds-bind rows_of_media 0 1 (lift_result (detect_file_type file.mime_type file.original_name))
        (λ type.
          create_media services (url_of services.machine key) type
            (decode_multer_file_name services.machine file.original_name) file.size
          >>= λ row. with_thumbnail services kind row (url_of services.machine key) key)
        (lifted-Adds (detect_file_type file.mime_type file.original_name))
        (λ type.
          Adds-bind rows_of_media 1 0
            (create_media services (url_of services.machine key) type
              (decode_multer_file_name services.machine file.original_name) file.size)
            (λ row. with_thumbnail services kind row (url_of services.machine key) key)
            (create_media-Adds _ type _ file.size)
            (λ row. with_thumbnail-Adds kind row (url_of services.machine key) key))

  stored-Adds :
      (file : UploadedFile) (kind : FileKind) (key : Text)
      → Adds rows_of_media 1 (
          throw_if (ltb max_size file.size) (bad_request (upload_message file_size_exceeds_limit))
          >> (send_put services.object_store key file.mime_type
              >> rolling_back services key (λ e. e) (record_upload services file kind key)))
  stored-Adds file kind key =
      Adds-bind rows_of_media 0 1
        (throw_if (ltb max_size file.size) (bad_request (upload_message file_size_exceeds_limit)))
        (λ a.
          send_put services.object_store key file.mime_type
          >> rolling_back services key (λ e. e) (record_upload services file kind key))
        (Adds-throw_if rows_of_media (ltb max_size file.size)
          (bad_request (upload_message file_size_exceeds_limit)))
        (λ a.
          Adds-bind rows_of_media 0 1 (send_put services.object_store key file.mime_type)
            (λ b. rolling_back services key (λ e. e) (record_upload services file kind key))
            (send_put-Adds services.object_store key file.mime_type)
            (λ b.
              rolling_back-Adds UploadResult 1 key (λ e. e) (record_upload services file kind key)
                (record_upload-Adds file kind key)))

  upload_file-Adds :
      (file : UploadedFile) (now : ℕ) → Adds rows_of_media 1 (upload_file services file now)
  unfolding upload_file
  upload_file-Adds file now =
      let key = file_key_of services.machine file now in
      let rest : FileKind → Action UploadDb UploadResult = λ kind.
        throw_if (ltb max_size file.size) (bad_request (upload_message file_size_exceeds_limit))
        >> (send_put services.object_store key file.mime_type
            >> rolling_back services key (λ e. e) (record_upload services file kind key)) in
      let found = lookup file.mime_type allowed_mime_types in
      Adds-bind rows_of_media 0 1
        (throw_if (is_unset services.machine.aws_s3_bucket) (plain (upload_message bucket_not_set)))
        (λ a. or_not_allowed found >>= rest)
        (Adds-throw_if rows_of_media (is_unset services.machine.aws_s3_bucket)
          (plain (upload_message bucket_not_set)))
        (λ a.
          Adds-bind rows_of_media 0 1 (or_not_allowed found) rest (allowed-Adds found)
            (λ kind. stored-Adds file kind key))

  pub upload_report_image-Adds :
      (file : UploadedFile) (now : ℕ) → Adds rows_of_media 1 (upload_report_image services file now)
  unfolding upload_report_image
  upload_report_image-Adds file now =
      Adds-bind rows_of_media 1 0 (upload_file services (as_report_image file now) now)
        (λ result. pure result.url) (upload_file-Adds (as_report_image file now) now)
        (λ result. Adds-pure rows_of_media result.url)

  pub upload_report_message_media-Adds :
      (path : Text) (message_id : ℕ) (content_type : _) (now : ℕ)
      → Adds rows_of_media 0 (upload_report_message_media services path message_id content_type now)
  unfolding upload_report_message_media send_put
  upload_report_message_media-Adds path message_id content_type now =
      Adds-none rows_of_media
        (upload_report_message_media services path message_id content_type now) λ u. ground arith

  pub delete_file_by_url-Adds :
      (url : Text) → Adds rows_of_media 0 (delete_file_by_url services url)
  unfolding delete_file_by_url
  delete_file_by_url-Adds url =
      Adds-bind rows_of_media 0 0 (or_no_key services (object_key url))
        (λ key. send_delete services.object_store key) (keyed-Adds (object_key url))
        (λ key. send_delete-Adds services.object_store key)
