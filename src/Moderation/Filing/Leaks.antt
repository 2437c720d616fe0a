-- ===== src/Moderation/Filing/Leaks.antt =====
-- While a report is filed, an object that is not as before is gone or its address is noted.
pub mod Images
pub mod Media
pub mod Reports
use thunderchat_server.Base.{
  ℕ, ◌≡◌, refl, ◌∙◌, arith, Bool, true, false, ◌||◌, Option, none, List, [], ◌∷◌, ◌++◌, ◌==◌, ◌⊎◌,
  inl, inr, Bool-cases, Option-cases, All, nat_eq, list_eq, if◌then◌else◌, String,
}
use thunderchat_server.Base.Action.{
  Action, Result-cases, ok, pure, modify, throw_if, plain, user_report_message, no_url_returned,
  ◌>>=◌, ◌>>◌,
}
use thunderchat_server.Base.Keeps.{Keeps, Keeps-bind, Keeps-catch, Keeps-query}
use thunderchat_server.Base.JsMap.{get}
use thunderchat_server.Security.Utf16.{Text}
use thunderchat_server.Uploads.{UploadDb}
use thunderchat_server.Uploads.Files.{upload_report_image}
use thunderchat_server.Uploads.Files.Frame.{Deletes}
use thunderchat_server.Moderation.UserReports.{
  FilingServices, Filing, ImageInput, MessageInput, ReportInput, is_blank, is_url,
  is_media_message_type, new_report_image, new_reported_message, new_report, concerns,
}
use thunderchat_server.Moderation.Filing.{
  on_uploads, note_image, note_media, create_report, create_report_image, create_reported_message,
  undo_images, undo_media, delete_each, rollback_uploaded_files, file_image, file_images, keep_url,
  upload_in_time, upload_path, content_of, is_path, file_message, file_messages, file_report,
}
use thunderchat_server.Moderation.Filing.Rollback.{
  names, listed, listed-append, get-delete_each, get-rollback_uploaded_files,
}
use thunderchat_server.Moderation.Filing.Outcomes.{IsAccounted}

-- Uploads that answer no blank address.
abbrev pub IsPlain : Action UploadDb Text → Type 0
IsPlain m = (u : UploadDb) (url : Text) → (m u).0 ≡ ok url → is_blank url ≡ false

module _ (services : FilingServices) (deletes : Deletes services.upload.object_store) (j : Text)
    (before : Option String) where
  abbrev pub Safe : Option String → Bool → Type 0
  Safe o noted = (o ≡ before) ⊎ ((o ≡ none) ⊎ (noted ≡ true))

  abbrev pub IsSafe : Filing → Type 0
  IsSafe s =
      Safe (get s.db.uploads.bucket j)
        (listed j s.uploaded_media_urls || listed j s.uploaded_image_urls)

  pub Safe-after :
      {o p : Option String} {noted more : Bool}
      → Safe o noted
      → (noted ≡ true → more ≡ true)
      → (p ≡ o) ⊎ ((p ≡ none) ⊎ (more ≡ true))
      → Safe p more
  Safe-after v grows (inr alt) = inr alt
  Safe-after (inl e) grows (inl same) = inl (same ∙ e)
  Safe-after (inr (inl e)) grows (inl same) = inr (inl (same ∙ e))
  Safe-after (inr (inr e)) grows (inl same) = inr (inr (grows e))

  -- Noting an address keeps what was noted.
  pub noted_image :
      (url : Text) (s : Filing)
      → (names j url ≡ true)
        ⊎ ((listed j s.uploaded_media_urls || listed j s.uploaded_image_urls) ≡ true)
      → (listed j s.uploaded_media_urls || listed j (s.uploaded_image_urls ++ url ∷ [])) ≡ true
  noted_image url s h = ground (arith, listed-append j s.uploaded_image_urls (url ∷ []))

  pub noted_media :
      (url : Text) (s : Filing)
      → (names j url ≡ true)
        ⊎ ((listed j s.uploaded_media_urls || listed j s.uploaded_image_urls) ≡ true)
      → (listed j (s.uploaded_media_urls ++ url ∷ []) || listed j s.uploaded_image_urls) ≡ true
  noted_media url s h = ground (arith, listed-append j s.uploaded_media_urls (url ∷ []))
