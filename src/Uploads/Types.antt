-- ===== src/Uploads/Types.antt =====
-- The types of files: the look-ups of upload/upload.service.ts, and `detectFileType` of
-- utils/helpers.ts. A MIME type is one with a slash, as the parser of a form gives it, and so no name
-- of a member of `Object.prototype`; an extension that is one of these names has no entry here, and
-- in the code one that is no MIME type.
pub mod Laws
use thunderchat_server.Base.{
  String, Bool, true, false, ◌&&◌, ◌||◌, Option, none, some, List, [], ◌∷◌, ◌==◌, if◌then◌else◌,
  is_some, string_eq, nat_eq, list_eq, includes,
}
use thunderchat_server.Base.Action.{Result, ok, err, plain, upload_message, unknown_file_type}
use thunderchat_server.Security.Utf16.{Text}
use thunderchat_server.Messages.{MediaType}
use thunderchat_server.Uploads.Tables.{
  lookup, allowed_mime_types, content_type_to_extension, extension_to_content_type, document_types,
  archive_types, audio_types, unknown_types, archive_extensions, audio_extensions,
}
use thunderchat_server.Uploads.Names.{
  units, to_lower_case, starts_with, ends_with, contains, last_part,
}

abbrev or_else : Option String → String → String
or_else none d = d
or_else (some v) d = v

unfoldable pub get_extension_from_content_type : String → String
get_extension_from_content_type content_type =
    if is_some (lookup content_type allowed_mime_types)
    then or_else (lookup content_type content_type_to_extension) "bin"
    else "bin"

abbrev checked_type : Option String → String
checked_type none = "application/octet-stream"
checked_type (some content_type) =
    if is_some (lookup content_type allowed_mime_types)
    then content_type
    else "application/octet-stream"

-- The entry of an extension that is given as the units of its name.
abbrev find_units : Text → List (String × String) → Option String
find_units k [] = none
find_units k ((j, v) ∷ m) = if units j == k then some v else find_units k m

unfoldable pub get_content_type_from_extension : Text → String
get_content_type_from_extension extension =
    checked_type (find_units (to_lower_case extension) extension_to_content_type)

-- What is guessed from the extension where the type says nothing.
abbrev by_extension : Text → MediaType
by_extension name =
    let extension = last_part 46 (to_lower_case name) in
    if includes archive_extensions extension
    then MediaType.document
    else (if includes audio_extensions extension then MediaType.audio else MediaType.document)

-- Whether a type of media begins with a word and a slash.
abbrev pub has_family : String → String → Bool
has_family family mime = starts_with (units mime) (units family)

-- The tests by the type alone.
unfoldable pub by_mime_type : String → Text → Result MediaType
by_mime_type mime name =
    if has_family "image/" mime
    then ok MediaType.image
    else (if has_family "video/" mime
        then ok MediaType.video
        else (if includes document_types mime || includes archive_types mime
            then ok MediaType.document
            else (if includes audio_types mime
                then ok MediaType.audio
                else (if includes unknown_types mime
                    then ok (by_extension name)
                    else err (plain (upload_message unknown_file_type))))))

-- A recording of a voice: by its name, or by its type.
abbrev pub is_voice : String → Text → Bool
is_voice mime name =
    ends_with (to_lower_case name) (units ".webm")
    && (contains (to_lower_case name) (units "voice-") || mime == "audio/webm")

unfoldable pub detect_file_type : String → Text → Result MediaType
unfolding by_mime_type
detect_file_type mime name =
    if is_voice mime name then ok MediaType.audio else by_mime_type mime name
