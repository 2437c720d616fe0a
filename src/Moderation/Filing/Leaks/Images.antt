-- ===== src/Moderation/Filing/Leaks/Images.antt =====
-- The images of a report: what their uploads leave is noted or gone.
use thunderchat_server.Base.{ℕ, Option, List, [], ◌∷◌, inl, inr, All, nat_eq, list_eq, String}
use thunderchat_server.Base.Action.{Action, Result-cases, modify, ◌>>=◌, ◌>>◌}
use thunderchat_server.Base.Keeps.{Keeps, Keeps-bind, Keeps-catch, Keeps-query}
use thunderchat_server.Security.Utf16.{Text}
use thunderchat_server.Uploads.{UploadDb}
use thunderchat_server.Uploads.Files.{upload_report_image}
use thunderchat_server.Uploads.Files.Frame.{Deletes}
use thunderchat_server.Moderation.UserReports.{FilingServices, Filing, ImageInput, new_report_image}
use thunderchat_server.Moderation.Filing.{
  on_uploads, note_image, create_report_image, undo_images, delete_each, file_image, file_images,
}
use thunderchat_server.Moderation.Filing.Rollback.{get-delete_each}
use thunderchat_server.Moderation.Filing.Outcomes.{IsAccounted}
use thunderchat_server.Moderation.Filing.Leaks.{IsSafe, Safe-after, noted_image}

module _ (services : FilingServices) (deletes : Deletes services.upload.object_store) (j : Text)
    (before : Option String) where
  abbrev IsNoted : Filing → Type 0
  IsNoted = IsSafe services deletes j before

  create_report_image-Keeps :
      (id : ℕ) (url : Text) → Keeps IsNoted (create_report_image services id url)
  create_report_image-Keeps id url =
      Keeps-query IsNoted
        (λ s. services.report_image.create (new_report_image id url) s.db.tables.report_images)
        (λ r. r.0)
        (λ r s. record s {
          db = record s.db { tables = record s.db.tables { report_images = r.1 } };
        })
        (λ r s v. v)

  undo_images-Keeps : (A : Type 0) → Keeps IsNoted (undo_images services {A = A})
  undo_images-Keeps A s v =
      let deleted = get-delete_each services deletes j s.uploaded_image_urls s.db.uploads in
      let kept =
        Safe-after services deletes j before v (λ n. n)
          (elim deleted [ inl same ↦ inl same | inr gone ↦ inr (inl gone) ]) in
      elim (Result-cases (delete_each services s.uploaded_image_urls s.db.uploads).0) [
        | inl (a, e) ↦ rw (e, ◌>>=◌) kept
        | inr (x, e) ↦ rw (e, ◌>>=◌) kept
      ]

  -- An upload whose address is noted at once.
  image_url-Keeps :
      (id : ℕ) (m : Action UploadDb Text)
      → IsAccounted j m
      → Keeps IsNoted
          (on_uploads m >>= λ url. modify (note_image url) >> create_report_image services id url)
  image_url-Keeps id m h s v = elim (h s.db.uploads) [
    | inr (x, e, alt) ↦
        rw (e, ◌>>=◌)
          (Safe-after services deletes j before v (λ n. n)
            (elim alt [ inl same ↦ inl same | inr gone ↦ inr (inl gone) ]))
    | inl (url, e, alt) ↦
        rw (e, ◌>>=◌)
          (create_report_image-Keeps id url _ (
            Safe-after services deletes j before v
              (λ n. noted_image services deletes j before url s (inr n))
              (elim alt [
                | inl same ↦ inl same
                | inr mine ↦ inr (inr (noted_image services deletes j before url s (inl mine)))
              ])))
  ]

  file_image-Keeps :
      (id : ℕ) (image : ImageInput)
      → IsAccounted j (upload_report_image services.upload image.file image.at)
      → Keeps IsNoted (file_image services id image)
  unfolding file_image
  file_image-Keeps id image h =
      Keeps-catch IsNoted
        (on_uploads (upload_report_image services.upload image.file image.at) >>= λ url.
          modify (note_image url) >> create_report_image services id url)
        (λ e. undo_images services)
        (image_url-Keeps id (upload_report_image services.upload image.file image.at) h)
        (λ e. undo_images-Keeps _)

  pub file_images-Keeps :
      (id : ℕ) (images : List ImageInput)
      → All (λ i. IsAccounted j (upload_report_image services.upload i.file i.at)) images
      → Keeps IsNoted (file_images services id images)
  unfolding file_images
  file_images-Keeps id [] h = λ s v. v
  file_images-Keeps id (i ∷ images) h =
      Keeps-bind IsNoted (file_image services id i) (λ r. file_images services id images)
        (file_image-Keeps id i h.0) (λ r. file_images-Keeps id images h.1)
