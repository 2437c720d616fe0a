-- ===== src/Uploads/Tables.antt =====
-- The tables of the types of files: those of upload/upload.service.ts, and the lists that
-- `detectFileType` of utils/helpers.ts goes through.
use thunderchat_server.Base.{
  String, Option, none, some, List, [], ◌∷◌, ◌==◌, if◌then◌else◌, string_eq,
}
use thunderchat_server.Security.Utf16.{Text}
use thunderchat_server.Uploads.Names.{units}

pub data FileKind : Type 0 where
  image video document archive audio : FileKind

abbrev pub lookup {ℓ} : {V : Type ℓ} → String → List (String × V) → Option V
lookup k [] = none
lookup k ((j, v) ∷ m) = if j == k then some v else lookup k m

abbrev pub allowed_mime_types : List (String × FileKind)
allowed_mime_types =
    ("image/jpeg", FileKind.image)
    ∷ ("image/png", FileKind.image)
    ∷ ("image/gif", FileKind.image)
    ∷ ("image/webp", FileKind.image)
    ∷ ("image/bmp", FileKind.image)
    ∷ ("image/svg+xml", FileKind.image)
    ∷ ("image/tiff", FileKind.image)
    ∷ ("image/heic", FileKind.image)
    ∷ ("video/mp4", FileKind.video)
    ∷ ("video/avi", FileKind.video)
    ∷ ("video/mov", FileKind.video)
    ∷ ("video/wmv", FileKind.video)
    ∷ ("video/mpeg", FileKind.video)
    ∷ ("video/webm", FileKind.video)
    ∷ ("video/3gpp", FileKind.video)
    ∷ ("video/x-matroska", FileKind.video)
    ∷ ("video/x-flv", FileKind.video)
    ∷ ("application/pdf", FileKind.document)
    ∷ ("application/msword", FileKind.document)
    ∷ ("application/vnd.openxmlformats-officedocument.wordprocessingml.document", FileKind.document)
    ∷ ("application/vnd.ms-excel", FileKind.document)
    ∷ ("application/vnd.openxmlformats-officedocument.spreadsheetml.sheet", FileKind.document)
    ∷ ("application/vnd.ms-powerpoint", FileKind.document)
    ∷ (
      "application/vnd.openxmlformats-officedocument.presentationml.presentation",
      FileKind.document,
    )
    ∷ ("text/plain", FileKind.document)
    ∷ ("text/csv", FileKind.document)
    ∷ ("application/rtf", FileKind.document)
    ∷ ("application/vnd.oasis.opendocument.text", FileKind.document)
    ∷ ("application/vnd.oasis.opendocument.spreadsheet", FileKind.document)
    ∷ ("application/vnd.oasis.opendocument.presentation", FileKind.document)
    ∷ ("application/zip", FileKind.document)
    ∷ ("application/x-compressed", FileKind.document)
    ∷ ("application/x-zip-compressed", FileKind.document)
    ∷ ("application/x-rar-compressed", FileKind.document)
    ∷ ("application/x-7z-compressed", FileKind.document)
    ∷ ("application/gzip", FileKind.archive)
    ∷ ("application/x-gzip", FileKind.archive)
    ∷ ("application/x-tar", FileKind.archive)
    ∷ ("application/x-bzip2", FileKind.archive)
    ∷ ("application/x-bzip", FileKind.archive)
    ∷ ("text/html", FileKind.document)
    ∷ ("application/json", FileKind.document)
    ∷ ("text/markdown", FileKind.document)
    ∷ ("audio/mpeg", FileKind.audio)
    ∷ ("audio/mp3", FileKind.audio)
    ∷ ("audio/wav", FileKind.audio)
    ∷ ("audio/webm", FileKind.audio)
    ∷ ("audio/ogg", FileKind.audio)
    ∷ ("audio/aac", FileKind.audio)
    ∷ ("audio/flac", FileKind.audio)
    ∷ ("audio/mp4", FileKind.audio)
    ∷ []

abbrev pub content_type_to_extension : List (String × String)
content_type_to_extension =
    ("image/jpeg", "jpg")
    ∷ ("image/png", "png")
    ∷ ("image/gif", "gif")
    ∷ ("image/webp", "webp")
    ∷ ("image/bmp", "bmp")
    ∷ ("image/svg+xml", "svg")
    ∷ ("image/tiff", "tiff")
    ∷ ("image/heic", "heic")
    ∷ ("video/mp4", "mp4")
    ∷ ("video/avi", "avi")
    ∷ ("video/mov", "mov")
    ∷ ("video/wmv", "wmv")
    ∷ ("video/mpeg", "mpeg")
    ∷ ("video/webm", "webm")
    ∷ ("video/3gpp", "3gp")
    ∷ ("video/x-matroska", "mkv")
    ∷ ("video/x-flv", "flv")
    ∷ ("audio/mpeg", "mp3")
    ∷ ("audio/mp3", "mp3")
    ∷ ("audio/wav", "wav")
    ∷ ("audio/webm", "webm")
    ∷ ("audio/ogg", "ogg")
    ∷ ("audio/aac", "aac")
    ∷ ("audio/flac", "flac")
    ∷ ("audio/mp4", "m4a")
    ∷ ("application/pdf", "pdf")
    ∷ ("application/msword", "doc")
    ∷ ("application/vnd.openxmlformats-officedocument.wordprocessingml.document", "docx")
    ∷ ("application/vnd.ms-excel", "xls")
    ∷ ("application/vnd.openxmlformats-officedocument.spreadsheetml.sheet", "xlsx")
    ∷ ("application/vnd.ms-powerpoint", "ppt")
    ∷ ("application/vnd.openxmlformats-officedocument.presentationml.presentation", "pptx")
    ∷ ("text/plain", "txt")
    ∷ ("text/csv", "csv")
    ∷ ("application/rtf", "rtf")
    ∷ ("application/vnd.oasis.opendocument.text", "odt")
    ∷ ("application/vnd.oasis.opendocument.spreadsheet", "ods")
    ∷ ("application/vnd.oasis.opendocument.presentation", "odp")
    ∷ ("application/zip", "zip")
    ∷ ("application/x-compressed", "zip")
    ∷ ("application/x-zip-compressed", "zip")
    ∷ ("application/x-rar-compressed", "rar")
    ∷ ("application/x-7z-compressed", "7z")
    ∷ ("application/gzip", "gz")
    ∷ ("application/x-gzip", "gz")
    ∷ ("application/x-tar", "tar")
    ∷ ("application/x-bzip2", "bz2")
    ∷ ("application/x-bzip", "bz")
    ∷ ("text/html", "html")
    ∷ ("application/json", "json")
    ∷ ("text/markdown", "md")
    ∷ []

-- Of the keys `mp3` to `md`: the texts that they are compared with are in small letters.
abbrev pub extension_to_content_type : List (String × String)
extension_to_content_type =
    ("jpg", "image/jpeg")
    ∷ ("jpeg", "image/jpeg")
    ∷ ("png", "image/png")
    ∷ ("gif", "image/gif")
    ∷ ("webp", "image/webp")
    ∷ ("bmp", "image/bmp")
    ∷ ("svg", "image/svg+xml")
    ∷ ("tiff", "image/tiff")
    ∷ ("heic", "image/heic")
    ∷ ("mp4", "video/mp4")
    ∷ ("avi", "video/avi")
    ∷ ("mov", "video/mov")
    ∷ ("wmv", "video/wmv")
    ∷ ("mpeg", "video/mpeg")
    ∷ ("webm", "video/webm")
    ∷ ("3gp", "video/3gpp")
    ∷ ("mkv", "video/x-matroska")
    ∷ ("flv", "video/x-flv")
    ∷ ("mp3", "audio/mpeg")
    ∷ ("wav", "audio/wav")
    ∷ ("webma", "audio/webm")
    ∷ ("ogg", "audio/ogg")
    ∷ ("aac", "audio/aac")
    ∷ ("flac", "audio/flac")
    ∷ ("m4a", "audio/mp4")
    ∷ ("pdf", "application/pdf")
    ∷ ("doc", "application/msword")
    ∷ ("docx", "application/vnd.openxmlformats-officedocument.wordprocessingml.document")
    ∷ ("xls", "application/vnd.ms-excel")
    ∷ ("xlsx", "application/vnd.openxmlformats-officedocument.spreadsheetml.sheet")
    ∷ ("ppt", "application/vnd.ms-powerpoint")
    ∷ ("pptx", "application/vnd.openxmlformats-officedocument.presentationml.presentation")
    ∷ ("txt", "text/plain")
    ∷ ("csv", "text/csv")
    ∷ ("rtf", "application/rtf")
    ∷ ("odt", "application/vnd.oasis.opendocument.text")
    ∷ ("ods", "application/vnd.oasis.opendocument.spreadsheet")
    ∷ ("odp", "application/vnd.oasis.opendocument.presentation")
    ∷ ("zip", "application/zip")
    ∷ ("rar", "application/x-rar-compressed")
    ∷ ("7z", "application/x-7z-compressed")
    ∷ ("gz", "application/gzip")
    ∷ ("bz2", "application/x-bzip2")
    ∷ ("bz", "application/x-bzip")
    ∷ ("tar", "application/x-tar")
    ∷ ("html", "text/html")
    ∷ ("json", "application/json")
    ∷ ("md", "text/markdown")
    ∷ []

abbrev pub document_types : List String
document_types =
    "application/pdf" ∷ "application/msword"
    ∷ "application/vnd.openxmlformats-officedocument.wordprocessingml.document"
    ∷ "application/vnd.ms-excel"
    ∷ "application/vnd.openxmlformats-officedocument.spreadsheetml.sheet"
    ∷ "application/vnd.ms-powerpoint"
    ∷ "application/vnd.openxmlformats-officedocument.presentationml.presentation" ∷ "text/plain"
    ∷ "text/csv" ∷ "application/rtf" ∷ "application/vnd.oasis.opendocument.text"
    ∷ "application/vnd.oasis.opendocument.spreadsheet"
    ∷ "application/vnd.oasis.opendocument.presentation" ∷ "application/zip"
    ∷ "application/x-compressed" ∷ "application/x-zip-compressed" ∷ "application/x-rar-compressed"
    ∷ "application/x-7z-compressed" ∷ "text/html" ∷ "application/json" ∷ "text/markdown" ∷ []

abbrev pub archive_types : List String
archive_types =
    "application/gzip" ∷ "application/x-gzip" ∷ "application/x-tar" ∷ "application/x-bzip2"
    ∷ "application/x-bzip" ∷ []

abbrev pub audio_types : List String
audio_types =
    "audio/mpeg" ∷ "audio/mp3" ∷ "audio/wav" ∷ "audio/webm" ∷ "audio/ogg" ∷ "audio/aac"
    ∷ "audio/flac" ∷ "audio/mp4" ∷ []

abbrev pub unknown_types : List String
unknown_types = "application/octet-stream" ∷ "application/x-download" ∷ "binary/octet-stream" ∷ []

abbrev pub archive_extensions : List Text
archive_extensions =
    units "zip"
    ∷ units "rar"
    ∷ units "7z"
    ∷ units "tar"
    ∷ units "gz"
    ∷ units "bz2"
    ∷ units "bz"
    ∷ []

abbrev pub audio_extensions : List Text
audio_extensions =
    units "mp3"
    ∷ units "wav"
    ∷ units "ogg"
    ∷ units "aac"
    ∷ units "flac"
    ∷ units "m4a"
    ∷ units "webm"
    ∷ []
