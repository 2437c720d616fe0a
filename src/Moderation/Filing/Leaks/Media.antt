-- ===== src/Moderation/Filing/Leaks/Media.antt =====
-- The media of reported messages: what their uploads leave is noted or gone.
use thunderchat_server.Base.{
  ℕ, ◌≡◌, refl, Bool, true, false, Option, none, List, [], ◌∷◌, ◌==◌, ◌⊎◌, inl, inr, Bool-cases,
  Option-cases, All, nat_eq, list_eq, if◌then◌else◌, String,
}
use thunderchat_server.Base.Action.{
  Action, Result-cases, pure, modify, throw_if, plain, user_report_message, no_url_returned, ◌>>=◌,
  ◌>>◌,
}
use thunderchat_server.Base.Keeps.{Keeps, Keeps-bind, Keeps-catch, Keeps-query}
use thunderchat_server.Security.Utf16.{Text}
use thunderchat_server.Uploads.{UploadDb}
use thunderchat_server.Uploads.Files.Frame.{Deletes}
use thunderchat_server.Moderation.UserReports.{
  FilingServices, Filing, MessageInput, is_blank, is_url, is_media_message_type,
  new_reported_message, concerns,
}
use thunderchat_server.Moderation.Filing.{
  on_uploads, note_media, create_reported_message, undo_media, rollback_uploaded_files, keep_url,
  upload_in_time, upload_path, content_of, is_path, file_message, file_messages,
}
use thunderchat_server.Moderation.Filing.Rollback.{listed, get-rollback_uploaded_files}
use thunderchat_server.Moderation.Filing.Outcomes.{IsAccounted}
use thunderchat_server.Moderation.Filing.Leaks.{IsSafe, Safe-after, noted_media, IsPlain}

module _ (services : FilingServices) (deletes : Deletes services.upload.object_store) (j : Text)
    (before : Option String) where
  abbrev IsNoted : Filing → Type 0
  IsNoted = IsSafe services deletes j before

  same_or_none :
      (c : Bool) (o p : Option String)
      → p ≡ (if c then none else o)
      → (noted : Bool) → (p ≡ o) ⊎ ((p ≡ none) ⊎ (noted ≡ true))
  same_or_none true o p h noted = inr (inl h)
  same_or_none false o p h noted = inl h

  undo_media-Keeps : (A : Type 0) → Keeps IsNoted (undo_media services {A = A})
  undo_media-Keeps A s v =
      let urls = s.uploaded_media_urls in
      let deleted = get-rollback_uploaded_files services deletes j urls s.db.uploads in
      let kept =
        Safe-after services deletes j before v (λ n. n)
          (same_or_none (listed j urls) _ _ deleted _) in
      elim (Result-cases (rollback_uploaded_files services urls s.db.uploads).0) [
        | inl (a, e) ↦ rw (e, ◌>>=◌) kept
        | inr (x, e) ↦ rw (e, ◌>>=◌) kept
      ]

  -- The rest of an upload of a message: an address that is not blank is noted.
  note_url-Keeps : (url : Text) → Keeps IsNoted (modify (note_media url) >> pure url)
  note_url-Keeps url s v =
      Safe-after services deletes j before v
        (λ n. noted_media services deletes j before url s (inr n)) (inl refl)

  keep_url-Keeps : (content : Text) → Keeps IsNoted (keep_url services content)
  unfolding keep_url
  keep_url-Keeps content =
      Keeps-catch IsNoted
        (throw_if (is_blank content) (plain (user_report_message no_url_returned))
          >> (modify (note_media content) >> pure content))
        (λ e. undo_media services)
        (Keeps-bind IsNoted
          (throw_if (is_blank content) (plain (user_report_message no_url_returned)))
          (λ u. modify (note_media content) >> pure content) (λ s v. v)
          (λ u. note_url-Keeps content))
        (λ e. undo_media-Keeps _)

  media_url-Keeps :
      (m : Action UploadDb Text)
      → IsAccounted j m
      → IsPlain m
      → Keeps IsNoted (
          on_uploads m >>= λ url.
          throw_if (is_blank url) (plain (user_report_message no_url_returned))
          >> (modify (note_media url) >> pure url))
  media_url-Keeps m h solid s v = elim (h s.db.uploads) [
    | inr (x, e, alt) ↦
        rw (e, ◌>>=◌)
          (Safe-after services deletes j before v (λ n. n)
            (elim alt [ inl same ↦ inl same | inr gone ↦ inr (inl gone) ]))
    | inl (url, e, alt) ↦
        rw (e, solid s.db.uploads url e, ◌>>=◌)
          (Safe-after services deletes j before v
            (λ n. noted_media services deletes j before url s (inr n))
            (elim alt [
              | inl same ↦ inl same
              | inr mine ↦ inr (inr (noted_media services deletes j before url s (inl mine)))
            ]))
  ]

  upload_path-Keeps :
      (m : MessageInput)
      → IsAccounted j (upload_in_time services m)
      → IsPlain (upload_in_time services m)
      → Keeps IsNoted (upload_path services m)
  unfolding upload_path
  upload_path-Keeps m h solid s v = elim (Bool-cases (is_path m.message_content)) [
    | inr e ↦ rw e v
    | inl e ↦ elim (Bool-cases (services.upload.machine.exists m.message_content)) [
      | inr f ↦ rw (e, f) v
      | inl f ↦
          rw (e, f)
            (Keeps-catch IsNoted
              (on_uploads (upload_in_time services m) >>= λ url.
                throw_if (is_blank url) (plain (user_report_message no_url_returned))
                >> (modify (note_media url) >> pure url))
              (λ x. undo_media services) (media_url-Keeps (upload_in_time services m) h solid)
              (λ x. undo_media-Keeps _) s v)
    ]
  ]

  content_of-Keeps :
      (m : MessageInput)
      → IsAccounted j (upload_in_time services m)
      → IsPlain (upload_in_time services m)
      → Keeps IsNoted (content_of services m)
  unfolding content_of
  content_of-Keeps m h solid s v = elim (Bool-cases (is_media_message_type m.message_type)) [
    | inr e ↦ rw e v
    | inl e ↦ elim (Bool-cases (m.message_content == [])) [
      | inl f ↦ rw (e, f) v
      | inr f ↦ elim (Bool-cases (is_url services.upload.machine m.message_content)) [
        | inl g ↦ rw (e, f, g) (keep_url-Keeps m.message_content s v)
        | inr g ↦ rw (e, f, g) (upload_path-Keeps m h solid s v)
      ]
    ]
  ]

  create_reported_message-Keeps :
      (id : ℕ) (m : MessageInput) (content : Text)
      → Keeps IsNoted (create_reported_message services id m content)
  create_reported_message-Keeps id m content =
      Keeps-query IsNoted
        (λ s.
          services.reported_message.create (new_reported_message id m content)
            s.db.tables.reported_messages)
        (λ r. r.0)
        (λ r s. record s {
          db = record s.db { tables = record s.db.tables { reported_messages = r.1 } };
        })
        (λ r s v. v)

  file_message-Keeps :
      (id reported_user_id : ℕ) (m : MessageInput)
      → IsAccounted j (upload_in_time services m)
      → IsPlain (upload_in_time services m)
      → Keeps IsNoted (file_message services id reported_user_id m)
  unfolding file_message
  file_message-Keeps id reported_user_id m h solid s v =
      elim (Option-cases
        (services.message.find_first (concerns reported_user_id m.message_id) s.db.messages)) [
          | inl e ↦ rw e v
          | inr (row, e) ↦ rw e (
              Keeps-bind IsNoted (content_of services m)
                (λ content. create_reported_message services id m content)
                (content_of-Keeps m h solid) (λ content. create_reported_message-Keeps id m content)
                s v)
        ]

  pub file_messages-Keeps :
      (id reported_user_id : ℕ) (ms : List MessageInput)
      → All
          (λ m. IsAccounted j (upload_in_time services m) × IsPlain (upload_in_time services m))
          ms
      → Keeps IsNoted (file_messages services id reported_user_id ms)
  unfolding file_messages
  file_messages-Keeps id reported_user_id [] h = λ s v. v
  file_messages-Keeps id reported_user_id (m ∷ ms) h =
      Keeps-bind IsNoted (file_message services id reported_user_id m)
        (λ r. file_messages services id reported_user_id ms)
        (file_message-Keeps id reported_user_id m h.0.0 h.0.1)
        (λ r. file_messages-Keeps id reported_user_id ms h.1)
