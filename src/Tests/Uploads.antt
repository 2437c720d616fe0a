-- ===== src/Tests/Uploads.antt =====
-- A picture and a video that are uploaded to a bucket in memory.
use thunderchat_server.Base.{
  ◌≤◌, ◌≡◌, ◌⊎◌, refl, ap, sym, ◌∙◌, arith, true, false, none, some, [], nat_eq, list_eq,
}
use thunderchat_server.Base.Action.{ok, plain, upload_message, failed_to_create_thumbnail}
use thunderchat_server.Base.JsMap.{get, set, delete, get-set, get-delete}
use thunderchat_server.Base.Prisma.InMemory.{in_memory}
use thunderchat_server.Messages.{MediaType}
use thunderchat_server.Security.Utf16.{Text}
use thunderchat_server.Uploads.{Bucket, UploadDb, ObjectStore, Machine, UploadServices, url_of}
use thunderchat_server.Uploads.Addresses.{object_key-url_of}
use thunderchat_server.Uploads.Files.{
  UploadedFile, upload_file, object_key, file_key_of, result_of, new_media,
}
use thunderchat_server.Uploads.Files.Laws.{own_keys}
use thunderchat_server.Uploads.Files.Outcomes.{upload_file-failed, upload_file_lem}
use thunderchat_server.Uploads.Names.{units}
use thunderchat_server.Uploads.Tables.{FileKind, lookup, allowed_mime_types}
use thunderchat_server.Uploads.Thumbnails.{generate_thumbnail_key}
use thunderchat_server.Uploads.Types.{detect_file_type}
use thunderchat_server.Uploads.Types.Laws.{detect_file_type-allowed}

pub same_bucket : {b b' : Bucket} → some b ≡ some b' → b ≡ b'
same_bucket h = ground arith

-- A bucket in memory, which never rejects.
abbrev pub store : ObjectStore
store = record {
  put_object = λ k type b. some (set b k type);
  delete_object = λ k b. some (delete b k);
  find_object = λ k b. false;
  put_object-some = λ k type b b' j h. ap (λ m. get m j) (sym (same_bucket h)) ∙ get-set b k j type;
  delete_object-some = λ k b b' j h. ap (λ m. get m j) (sym (same_bucket h)) ∙ get-delete b k j;
}

-- A machine that cannot take a picture of a video.
abbrev pub machine : Machine
machine = record {
  aws_s3_bucket = some (units "b");
  aws_region = units "r";
  decode = λ name. name;
  can_download = λ url. true;
  can_screenshot = λ url. false;
  protocol_of = λ address. some "https:";
  exists = λ path. true;
  can_read = λ path. true;
}

abbrev pub upload : UploadServices
upload = record { object_store = store; machine = machine; message_media = in_memory _ }

abbrev pub empty_bucket : UploadDb
empty_bucket = record { bucket = []; media = [] }

abbrev pub picture : UploadedFile
picture = record { original_name = units "a.png"; mime_type = "image/png"; size = 10 }

abbrev pub film : UploadedFile
film = record { original_name = units "a.mp4"; mime_type = "video/mp4"; size = 10 }

abbrev after_picture : UploadDb
after_picture = (upload_file upload picture 5 empty_bucket).1

abbrev picture_url : Text
picture_url = url_of machine (units "5_a.png")

upload_file_lem_example :
    (kind : FileKind) × (lookup "image/png" allowed_mime_types ≡ some kind)
    × (10 ≤ 52428800)
    × (picture_url ≡ picture_url)
    × (get after_picture.bucket (units "5_a.png") ≡ some "image/png")
unfolding upload_file file_key_of generate_thumbnail_key set get
upload_file_lem_example =
    upload_file_lem upload picture 5 empty_bucket after_picture
      (result_of (new_media picture_url MediaType.image (units "a.png") 10 1)) refl refl

abbrev after_film : UploadDb
after_film = (upload_file upload film 5 empty_bucket).1

upload_file-failed_example :
    ((after_film ≡ empty_bucket) ⊎ (get after_film.bucket (units "5_a.mp4") ≡ none))
    × ((own_keys (units "5_a.mp4") (units "x") ≡ true) ⊎ (get after_film.bucket (units "x") ≡ none))
unfolding upload_file get
upload_file-failed_example =
    upload_file-failed upload film 5 empty_bucket after_film
      (plain (upload_message failed_to_create_thumbnail)) (units "x") (λ k b. (delete b k, refl))
      refl

detect_file_type-allowed_example :
    detect_file_type "application/gzip" (units "a.gz") ≡ ok MediaType.document
detect_file_type-allowed_example =
    detect_file_type-allowed "application/gzip" (units "a.gz") FileKind.archive refl

object_key-url_of_example : object_key (url_of machine (units "5_a.png")) ≡ some (units "5_a.png")
object_key-url_of_example = object_key-url_of machine (units "5_a.png") (_, refl) refl
