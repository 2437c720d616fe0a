-- ===== src/Uploads.antt =====
-- The object store, the rows of uploaded media, and what the upload services take from outside:
-- upload/, with prisma/schema.prisma.
pub mod Names
pub mod Tables
pub mod Types
pub mod Thumbnails
pub mod Files
pub mod Addresses
use thunderchat_server.Base.{
  ℕ, String, Bool, ◌≡◌, Option, none, some, List, ◌∷◌, ◌==◌, ◌++◌, if◌then◌else◌, nat_eq, list_eq,
  string_eq,
}
use thunderchat_server.Base.Action.{Action, ok, err, plain, upload_message, s3_error}
use thunderchat_server.Base.JsMap.{Map, get}
use thunderchat_server.Base.Prisma.{Client}
use thunderchat_server.Security.Utf16.{Text}
use thunderchat_server.Messages.{MediaType}
use thunderchat_server.Uploads.Names.{units}

-- The objects by key, each with its type; what they hold is left out.
abbrev pub Bucket : Type 0
Bucket = Map Text String

pub record MediaRow : Type 0 where
  pub id : ℕ
  pub url : Text
  pub type : MediaType
  pub file_name : Text
  pub file_size : ℕ
  pub thumbnail_url : Text

-- `url String @unique`
abbrev pub same_media_url : MediaRow → MediaRow → Bool
same_media_url a b = a.url == b.url

pub record UploadDb : Type 0 where
  pub bucket : Bucket
  pub media : List MediaRow

-- The client of the object store, which may reject; `find_object` is the request for the head of an
-- object.
pub record ObjectStore : Type 0 where
  pub put_object : Text → String → Bucket → Option Bucket
  pub delete_object : Text → Bucket → Option Bucket
  pub find_object : Text → Bucket → Bool
  pub put_object-some :
      (k : Text) (type : String) (b b' : Bucket) (j : Text)
      → put_object k type b ≡ some b'
      → get b' j ≡ (if k == j then some type else get b j)
  pub delete_object-some :
      (k : Text) (b b' : Bucket) (j : Text)
      → delete_object k b ≡ some b'
      → get b' j ≡ (if k == j then none else get b j)

-- The environment, the files of the machine and the tools that are called. `protocol_of` is the
-- parser of the WHATWG standard for addresses, where it takes one. `decode` is the reading
-- of the bytes of a Latin-1 text as UTF-8 in normal form C.
pub record Machine : Type 0 where
  pub aws_s3_bucket : Option Text
  pub aws_region : Text
  pub decode : Text → Text
  pub can_download : (url : Text) → Bool
  pub can_screenshot : (url : Text) → Bool
  pub protocol_of : (address : Text) → Option String
  pub exists : (path : Text) → Bool
  pub can_read : (path : Text) → Bool

pub record UploadServices : Type 0 where
  pub object_store : ObjectStore
  pub machine : Machine
  pub message_media : Client MediaRow same_media_url

-- The address of an object.
abbrev pub host_of : Text → Text → Text
host_of bucket_name region =
    units "https://" ++ (bucket_name ++ (units ".s3." ++ (region ++ units ".amazonaws.com/")))

abbrev pub or_empty : Option Text → Text
or_empty none = units "undefined"
or_empty (some name) = name

abbrev pub url_of : Machine → Text → Text
url_of m key = host_of (or_empty m.aws_s3_bucket) m.aws_region ++ key

module _ (store : ObjectStore) where
  unfoldable pub send_put : Text → String → Action UploadDb (Unit {0})
  send_put key type s = elim (store.put_object key type s.bucket) [
    | none ↦ (err (plain (upload_message s3_error)), s)
    | some b ↦ (ok tt, record s { bucket = b })
  ]

  unfoldable pub send_delete : Text → Action UploadDb (Unit {0})
  send_delete key s = elim (store.delete_object key s.bucket) [
    | none ↦ (err (plain (upload_message s3_error)), s)
    | some b ↦ (ok tt, record s { bucket = b })
  ]
