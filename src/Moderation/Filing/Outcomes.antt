-- ===== src/Moderation/Filing/Outcomes.antt =====
-- What the uploads of a report do to one object.
use thunderchat_server.Base.{
  ℕ, ◌≡◌, refl, ap, sym, ◌∙◌, arith, Bool, true, false, ◌||◌, none, some, ◌∷◌, ◌==◌, ◌⊎◌, inl, inr,
  Option-cases, Bool-cases, lists_equal_iff, eq_refl, nat_eq, list_eq, String,
}
use thunderchat_server.Base.Action.{
  Action, Exception, Result-cases, ok, err, pure, plain, throw_if, upload_message,
  file_not_readable, ◌>>=◌, ◌>>◌,
}
use thunderchat_server.Base.JsMap.{get}
use thunderchat_server.Security.Utf16.{Text}
use thunderchat_server.Uploads.{UploadDb, UploadServices, send_put, url_of}
use thunderchat_server.Uploads.Names.{contains, extname}
use thunderchat_server.Uploads.Addresses.{IsHost, separator, object_key-url_of}
use thunderchat_server.Uploads.Thumbnails.{thumbnail_object}
use thunderchat_server.Uploads.Files.{
  UploadedFile, upload_file, upload_report_image, as_report_image, file_key_of, object_key,
  upload_report_message_media, report_message_key, extension_or,
}
use thunderchat_server.Uploads.Types.{get_content_type_from_extension}
use thunderchat_server.Uploads.Files.Frame.{Deletes, Touches-send_put}
use thunderchat_server.Uploads.Files.Outcomes.{
  upload_file-url, upload_file-failed, upload_file-Touches,
}
use thunderchat_server.Moderation.Filing.Rollback.{names}

-- An upload that succeeds changes the object under `j` only where its address is the one that is
-- answered; one that fails leaves it or deletes it.
abbrev pub IsAccounted : Text → Action UploadDb Text → Type 0
IsAccounted j m =
    (u : UploadDb)
    → ((url : Text) × ((m u).0 ≡ ok url)
        × ((get (m u).1.bucket j ≡ get u.bucket j) ⊎ (names j url ≡ true)))
      ⊎ ((e : Exception) × ((m u).0 ≡ err e)
          × ((get (m u).1.bucket j ≡ get u.bucket j) ⊎ (get (m u).1.bucket j ≡ none)))

or_false : {a b : Bool} → a ≡ false → b ≡ false → (a || b) ≡ false
or_false h k = ground arith

send_put-err :
    (services : UploadServices) (key : Text) (type : String) (u : UploadDb) (x : Exception)
    → (send_put services.object_store key type u).0 ≡ err x
    → (send_put services.object_store key type u).1 ≡ u
unfolding send_put
send_put-err services key type u x h =
    elim (Option-cases (services.object_store.put_object key type u.bucket)) [
      | inl e ↦ rw (e, send_put) refl
      | inr (b, e) ↦ absurd (ground arith)
    ]

module _ (services : UploadServices) (host : IsHost services.machine) (c : ℕ) (cs : Text) where
  names-url_of :
      (key : Text)
      → contains key separator ≡ false
      → (key == c ∷ cs) ≡ true
      → names (c ∷ cs) (url_of services.machine key) ≡ true
  names-url_of key clean same =
      let here : key ≡ c ∷ cs = (lists_equal_iff key (c ∷ cs)).0 same in
      let read : object_key (url_of services.machine key) ≡ some (c ∷ cs) =
        object_key-url_of services.machine key host clean ∙ ap some here in
      rw read (eq_refl (c ∷ cs))

  -- An image of a report, where its picture has another key.
  pub upload_report_image-IsAccounted :
      (file : UploadedFile) (now : ℕ)
      → Deletes services.object_store
      → contains (file_key_of services.machine (as_report_image file now) now) separator ≡ false
      → (thumbnail_object (file_key_of services.machine (as_report_image file now) now) == c ∷ cs)
        ≡ false
      → IsAccounted (c ∷ cs) (upload_report_image services file now)
  unfolding upload_report_image
  upload_report_image-IsAccounted file now deletes clean other u =
      let image = as_report_image file now in
      let key = file_key_of services.machine image now in
      elim (Result-cases (upload_file services image now u).0) [
        | inl (r, e) ↦
            let whole : upload_file services image now u
                ≡ (ok r, (upload_file services image now u).1) =
              λ i. (e i, (upload_file services image now u).1) in
            inl (
              r.url,
              rw (e, ◌>>=◌) refl,
              rw (e, ◌>>=◌)
                  (elim (Bool-cases (key == c ∷ cs)) [
                    | inr away ↦
                        inl
                          (upload_file-Touches services image now u (c ∷ cs) (or_false away other))
                    | inl mine ↦ inr (
                        ap (names (c ∷ cs)) (upload_file-url services image now u _ r whole)
                        ∙ names-url_of key clean mine)
                  ]),
            )
        | inr (x, e) ↦
            let whole : upload_file services image now u
                ≡ (err x, (upload_file services image now u).1) =
              λ i. (e i, (upload_file services image now u).1) in
            inr (
              x,
              rw (e, ◌>>=◌) refl,
              rw (e, ◌>>=◌)
                  (elim (Bool-cases (key == c ∷ cs)) [
                    | inr away ↦
                        inl
                          (upload_file-Touches services image now u (c ∷ cs) (or_false away other))
                    | inl mine ↦
                        let here : key ≡ c ∷ cs = (lists_equal_iff key (c ∷ cs)).0 mine in
                        elim (upload_file-failed services image now u _ x (c ∷ cs) deletes
                          whole).0 [
                            | inl same ↦ inl (ap (λ t. get t.bucket (c ∷ cs)) same)
                            | inr gone ↦ inr (ap (get _) (sym here) ∙ gone)
                          ]
                  ]),
            )
      ]

  -- The file of a message.
  pub upload_report_message_media-IsAccounted :
      (path : Text) (message_id : ℕ) (type : String) (now : ℕ)
      → contains (report_message_key path message_id type now) separator ≡ false
      → IsAccounted (c ∷ cs) (upload_report_message_media services path message_id type now)
  unfolding upload_report_message_media
  upload_report_message_media-IsAccounted path message_id type now clean u =
      let key = report_message_key path message_id type now in
      elim (Bool-cases (services.machine.can_read path)) [
        | inr e ↦ inr (plain (upload_message file_not_readable), rw e refl, inl (rw e refl))
        | inl e ↦
            let type' = get_content_type_from_extension (extension_or (extname path) type) in
            let put = send_put services.object_store key type' u in
            elim (Result-cases put.0) [
              | inr (x, f) ↦ inr (
                x,
                rw (e, f, ◌>>=◌) refl,
                inl (
                    rw (e, f, ◌>>=◌)
                      (ap (λ t. get t.bucket (c ∷ cs)) (send_put-err services key type' u x f))),
              )
              | inl (a, f) ↦ inl (
                url_of services.machine key,
                rw (e, f, ◌>>=◌) refl,
                rw (e, f, ◌>>=◌)
                    (elim (Bool-cases (key == c ∷ cs)) [
                      | inr away ↦ inl (
                          Touches-send_put services.object_store (λ k. key == k) key (eq_refl key)
                            type' u (c ∷ cs) away)
                      | inl mine ↦ inr (names-url_of key clean mine)
                    ]),
              )
            ]
      ]

-- A test that passes behind an upload changes nothing.
pub in_time-IsAccounted :
    (j : Text) (m : Action UploadDb Text) (late : Bool) (e : Exception)
    → late ≡ false
    → IsAccounted j m
    → IsAccounted j (m >>= λ url. throw_if late e >> pure url)
in_time-IsAccounted j m late e on_time h u = elim (h u) [
  | inl (url, f, alt) ↦ inl (url, rw (f, on_time, ◌>>=◌) refl, rw (f, on_time, ◌>>=◌) alt)
  | inr (x, f, alt) ↦ inr (x, rw (f, ◌>>=◌) refl, rw (f, ◌>>=◌) alt)
]
