-- ===== src/Uploads/Files.antt =====
-- upload/upload.service.ts: storing a file with the row of its media, and deleting it. The size in
-- the answer is a number of bytes; the code writes it out with a unit. The download of a file from
-- an address, which nothing calls, is left out.
pub mod Frame
pub mod Laws
pub mod Outcomes
pub mod Rows
use Prim.Native.Nat.{◌*◌}
use thunderchat_server.Base.{
  ℕ, String, Bool, true, false, not, Option, none, some, [], ◌∷◌, ◌++◌, ◌==◌, if◌then◌else◌, ltb,
  includes, nat_eq, list_eq,
}
use thunderchat_server.Base.Action.{
  Result, ok, err, Action, Exception, pure, throw, throw_if, gets, query, catch, bad_request, plain,
  upload_message, bucket_not_set, file_type_not_allowed, file_size_exceeds_limit,
  failed_to_create_thumbnail, object_key_not_found, file_not_readable, ◌>>=◌, ◌>>◌,
}
use thunderchat_server.Security.Utf16.{Text, decimal}
use thunderchat_server.Messages.{MediaType}
use thunderchat_server.Uploads.{
  UploadDb, UploadServices, Machine, MediaRow, send_put, send_delete, url_of,
}
use thunderchat_server.Uploads.Names.{units, second_part, extname}
use thunderchat_server.Uploads.Tables.{FileKind, lookup, allowed_mime_types}
use thunderchat_server.Uploads.Types.{
  detect_file_type, get_extension_from_content_type, get_content_type_from_extension,
}
use thunderchat_server.Uploads.Thumbnails.{generate_video_thumbnail, check_thumbnail_exists}

-- A file of a form.
pub record UploadedFile : Type 0 where
  pub original_name : Text
  pub mime_type : String
  pub size : ℕ

pub record UploadResult : Type 0 where
  pub id : ℕ
  pub url : Text
  pub file_type : MediaType
  pub file_name : Text
  pub file_size : ℕ
  pub thumbnail_url : Option Text

abbrev pub max_size : ℕ
max_size = 50 * 1024 * 1024

-- `!process.env.AWS_S3_BUCKET`
abbrev pub is_unset : Option Text → Bool
is_unset none = true
is_unset (some []) = true
is_unset (some (u ∷ us)) = false

abbrev pub decode_multer_file_name : Machine → Text → Text
decode_multer_file_name m [] = []
decode_multer_file_name m (u ∷ us) = m.decode (u ∷ us)

-- `Date.now()` and an underscore stand in front of a name without a slash.
unfoldable pub file_key_of : Machine → UploadedFile → ℕ → Text
file_key_of m file now =
    let name = decode_multer_file_name m file.original_name in
    if includes name 47 then name else decimal now ++ 95 ∷ name

abbrev pub or_not_allowed : Option FileKind → Action UploadDb FileKind
or_not_allowed none = throw (bad_request (upload_message file_type_not_allowed))
or_not_allowed (some kind) = pure kind

abbrev pub lift_result : {A : Type 0} → Result A → Action UploadDb A
lift_result (ok a) = pure a
lift_result (err e) = throw e

abbrev pub new_media : Text → MediaType → Text → ℕ → ℕ → MediaRow
new_media url type name size id = record {
  id = id;
  url = url;
  type = type;
  file_name = name;
  file_size = size;
  thumbnail_url = [];
}

abbrev pub result_of : MediaRow → UploadResult
result_of row = record {
  id = row.id;
  url = row.url;
  file_type = row.type;
  file_name = row.file_name;
  file_size = row.file_size;
  thumbnail_url = none;
}

abbrev pub has_media_id : ℕ → MediaRow → Bool
has_media_id id row = row.id == id

abbrev pub report_image_name : Text → ℕ → Text
report_image_name name now = units "report-image/" ++ (decimal now ++ 95 ∷ name)

-- The file with the key that it is stored under as its name.
abbrev pub as_report_image : UploadedFile → ℕ → UploadedFile
as_report_image file now = record file { original_name = report_image_name file.original_name now }

-- `fileUrl.split('.amazonaws.com/')[1]`
abbrev pub object_key : Text → Option Text
object_key url = second_part (units ".amazonaws.com/") url

-- `path.extname(filePath).substring(1)`, or what the type of the content gives.
abbrev pub extension_or : Text → String → Text
extension_or [] content_type = units (get_extension_from_content_type content_type)
extension_or (dot ∷ []) content_type = units (get_extension_from_content_type content_type)
extension_or (dot ∷ u ∷ us) content_type = u ∷ us

unfoldable pub report_message_key : Text → ℕ → String → ℕ → Text
report_message_key path message_id content_type now =
    units "report-message/"
    ++ (decimal now
        ++ (units "_message-"
            ++ (decimal message_id ++ 46 ∷ extension_or (extname path) content_type)))

module _ (services : UploadServices) where
  open services use {object_store, machine, message_media}

  -- An error of the store is only logged.
  unfoldable pub rollback_file_upload : Text → Action UploadDb (Unit {0})
  unfolding send_delete
  rollback_file_upload key = catch (send_delete object_store key) (λ e. pure tt)

  -- `catch (error) { …; throw … }` behind an upload: the file is deleted again.
  abbrev pub rolling_back :
      {A : Type 0} → Text → (Exception → Exception) → Action UploadDb A → Action UploadDb A
  rolling_back key rethrown m = catch m (λ e. do rollback_file_upload key; throw (rethrown e))

  abbrev pub create_media : Text → MediaType → Text → ℕ → Action UploadDb MediaRow
  create_media url type name size = query λ s.
      elim (message_media.create (new_media url type name size) s.media) [
        | none ↦ none
        | some (row, rows) ↦ some (row, record s { media = rows })
      ]

  abbrev pub store_thumbnail : ℕ → Text → Action UploadDb (Unit {0})
  store_thumbnail id thumbnail_url = query λ s.
      elim (message_media.update (has_media_id id)
        (λ row. record row { thumbnail_url = thumbnail_url }) s.media) [
          | none ↦ none
          | some (row, rows) ↦ some (tt, record s { media = rows })
        ]

  abbrev pub thumbnail_or_new : Option Text → Text → Text → Action UploadDb Text
  thumbnail_or_new (some existing) url key = pure existing
  thumbnail_or_new none url key = generate_video_thumbnail services url key

  -- The picture of a video and its address in the row.
  unfoldable pub add_thumbnail : MediaRow → Text → Text → Action UploadDb UploadResult
  unfolding generate_video_thumbnail check_thumbnail_exists
  add_thumbnail row url key = do
    existing ← gets (check_thumbnail_exists services key)
    thumbnail_url ← thumbnail_or_new existing url key
    store_thumbnail row.id thumbnail_url
    pure (record (result_of row) { thumbnail_url = some thumbnail_url })

  abbrev pub with_thumbnail : FileKind → MediaRow → Text → Text → Action UploadDb UploadResult
  with_thumbnail FileKind.video row url key =
      rolling_back key (λ e. plain (upload_message failed_to_create_thumbnail))
        (add_thumbnail row url key)
  with_thumbnail _ row url key = pure (result_of row)

  -- What stands behind the upload of the object.
  unfoldable pub record_upload : UploadedFile → FileKind → Text → Action UploadDb UploadResult
  unfolding add_thumbnail detect_file_type rollback_file_upload
  record_upload file kind key = do
    type ← lift_result (detect_file_type file.mime_type file.original_name)
    row ←
        create_media (url_of machine key) type (decode_multer_file_name machine file.original_name)
          file.size
    with_thumbnail kind row (url_of machine key) key

  unfoldable pub upload_file : UploadedFile → ℕ → Action UploadDb UploadResult
  unfolding record_upload send_put rollback_file_upload file_key_of
  upload_file file now = do
    throw_if (is_unset machine.aws_s3_bucket) (plain (upload_message bucket_not_set))
    kind ← or_not_allowed (lookup file.mime_type allowed_mime_types)
    throw_if (ltb max_size file.size) (bad_request (upload_message file_size_exceeds_limit))
    send_put object_store (file_key_of machine file now) file.mime_type
    rolling_back (file_key_of machine file now) (λ e. e)
        (record_upload file kind (file_key_of machine file now))

  abbrev pub or_no_key : Option Text → Action UploadDb Text
  or_no_key none = throw (plain (upload_message object_key_not_found))
  or_no_key (some []) = throw (plain (upload_message object_key_not_found))
  or_no_key (some (u ∷ us)) = pure (u ∷ us)

  unfoldable pub delete_file_by_url : Text → Action UploadDb (Unit {0})
  unfolding send_delete second_part
  delete_file_by_url url = do key ← or_no_key (object_key url); send_delete object_store key

  unfoldable pub upload_report_image : UploadedFile → ℕ → Action UploadDb Text
  unfolding upload_file
  upload_report_image file now = do
    result ← upload_file (as_report_image file now) now
    pure result.url

  unfoldable pub upload_report_message_media : Text → ℕ → String → ℕ → Action UploadDb Text
  unfolding send_put report_message_key get_content_type_from_extension
  upload_report_message_media path message_id content_type now = do
    throw_if (not (machine.can_read path)) (plain (upload_message file_not_readable))
    send_put object_store (report_message_key path message_id content_type now)
        (get_content_type_from_extension (extension_or (extname path) content_type))
    pure (url_of machine (report_message_key path message_id content_type now))
