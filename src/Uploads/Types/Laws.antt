-- ===== src/Uploads/Types/Laws.antt =====
-- The tables of the types of files against `detectFileType` and against one another.
use thunderchat_server.Base.{
  ◌≡◌, refl, ap, arith, String, Bool, true, false, ◌&&◌, ◌||◌, some, List, [], ◌∷◌, ◌==◌,
  if◌then◌else◌, string_eq, includes, eq_iff, Bool-cases, inl, inr,
}
use thunderchat_server.Base.Action.{Result, ok, err}
use thunderchat_server.Security.Utf16.{Text}
use thunderchat_server.Messages.{MediaType}
use thunderchat_server.Uploads.Names.{units}
use thunderchat_server.Uploads.Tables.{FileKind, allowed_mime_types, lookup}
use thunderchat_server.Uploads.Types.{
  by_mime_type, detect_file_type, is_voice, get_extension_from_content_type,
  get_content_type_from_extension,
}

abbrev all_entries {ℓ} : {V : Type ℓ} → (String × V → Bool) → List (String × V) → Bool
all_entries p [] = true
all_entries p (e ∷ m) = p e && all_entries p m

all_entries-lookup {ℓ} :
    {V : Type ℓ} (p : String × V → Bool) (k : String) (v : V) (m : List (String × V))
    → all_entries p m ≡ true
    → lookup k m ≡ some v
    → p (k, v) ≡ true
all_entries-lookup p k v [] h found = absurd (ground arith)
all_entries-lookup p k v ((j, w) ∷ m) h found = elim (Bool-cases (j == k)) [
  | inl here ↦ ground (arith, eq_iff j k)
  | inr there ↦ all_entries-lookup p k v m (ground arith) (ground arith)
]

-- An archive is stored as a document.
abbrev pub media_type_of : FileKind → MediaType
media_type_of FileKind.image = MediaType.image
media_type_of FileKind.video = MediaType.video
media_type_of FileKind.document = MediaType.document
media_type_of FileKind.archive = MediaType.document
media_type_of FileKind.audio = MediaType.audio

abbrev same_media_type : MediaType → MediaType → Bool
same_media_type MediaType.image MediaType.image = true
same_media_type MediaType.video MediaType.video = true
same_media_type MediaType.document MediaType.document = true
same_media_type MediaType.audio MediaType.audio = true
same_media_type _ _ = false

same_media_type_eq : (t u : MediaType) → same_media_type t u ≡ true → u ≡ t
same_media_type_eq t u h = ground arith

abbrev gives : MediaType → Result MediaType → Bool
gives t (ok u) = same_media_type t u
gives t (err e) = false

gives_eq : (t : MediaType) (r : Result MediaType) → gives t r ≡ true → r ≡ ok t
gives_eq t (ok u) h = ap ok (same_media_type_eq t u h)
gives_eq t (err e) h = absurd (ground arith)

all_classified :
    (name : Text)
    → all_entries (λ e. gives (media_type_of e.1) (by_mime_type e.0 name)) allowed_mime_types ≡ true
unfolding by_mime_type
all_classified name = refl

-- For a type that an upload allows, `detectFileType` finds the kind that the table gives it (an
-- archive is a document), or sees a recording of a voice; it never throws.
pub detect_file_type-allowed :
    (mime : String) (name : Text) (kind : FileKind)
    → lookup mime allowed_mime_types ≡ some kind
    → detect_file_type mime name
      ≡ ok (if is_voice mime name then MediaType.audio else media_type_of kind)
unfolding detect_file_type
detect_file_type-allowed mime name kind h =
    let by_type = gives_eq (media_type_of kind) (by_mime_type mime name) (
      all_entries-lookup (λ e. gives (media_type_of e.1) (by_mime_type e.0 name)) mime kind
        allowed_mime_types (all_classified name) h) in
    elim (Bool-cases (is_voice mime name)) [
      | inl voice ↦ rw voice refl
      | inr other ↦ rw (other, by_type) refl
    ]

-- Types that share the extension of another one.
abbrev pub is_alias : String → Bool
is_alias = includes (
    "audio/mp3" ∷ "audio/webm" ∷ "application/x-compressed" ∷ "application/x-zip-compressed"
    ∷ "application/x-gzip" ∷ [])

abbrev survives : String → Bool
survives mime =
    get_content_type_from_extension (units (get_extension_from_content_type mime)) == mime
    || is_alias mime

left_of : (a b : Bool) → (a || b) ≡ true → b ≡ false → a ≡ true
left_of a b h k = ground arith

all_survive : all_entries (λ e. survives e.0) allowed_mime_types ≡ true
unfolding get_content_type_from_extension get_extension_from_content_type
all_survive = refl

-- A type that an upload allows, and that is none of five aliases, is found again from its
-- extension.
pub get_content_type-get_extension :
    (mime : String) (kind : FileKind)
    → lookup mime allowed_mime_types ≡ some kind
    → is_alias mime ≡ false
    → get_content_type_from_extension (units (get_extension_from_content_type mime)) ≡ mime
get_content_type-get_extension mime kind h other =
    let found = all_entries-lookup (λ e. survives e.0) mime kind allowed_mime_types all_survive h in
    (eq_iff _ mime).0 (left_of (_ == mime) (is_alias mime) found other)
