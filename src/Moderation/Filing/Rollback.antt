-- ===== src/Moderation/Filing/Rollback.antt =====
-- What the rollback of a report deletes.
use thunderchat_server.Base.{
  ◌≡◌, refl, ap, ◌∙◌, arith, Bool, true, false, ◌||◌, Option, none, some, List, [], ◌∷◌, ◌++◌, ◌==◌,
  any, if◌then◌else◌, nat_eq, list_eq, inl, inr, Option-cases, ◌⊎◌, string_eq,
}
use thunderchat_server.Base.Action.{Result-cases, ok, catch, ◌>>=◌}
use thunderchat_server.Base.JsMap.{get}
use thunderchat_server.Security.Utf16.{Text}
use thunderchat_server.Uploads.{UploadDb, send_delete}
use thunderchat_server.Uploads.Files.{object_key, delete_file_by_url}
use thunderchat_server.Uploads.Files.Frame.{Deletes}
use thunderchat_server.Moderation.UserReports.{FilingServices}
use thunderchat_server.Moderation.Filing.{delete_quietly, delete_each, rollback_uploaded_files}

abbrev is_key : Option Text → Text → Bool
is_key none j = false
is_key (some []) j = false
is_key (some (u ∷ us)) j = (u ∷ us) == j

-- Whether an address is that of the object with a key.
abbrev pub names : Text → Text → Bool
names j url = is_key (object_key url) j

-- Whether one of the addresses is.
abbrev pub listed : Text → List Text → Bool
listed j urls = any (names j) urls

pub listed-append :
    (j : Text) (xs ys : List Text) → listed j (xs ++ ys) ≡ (listed j xs || listed j ys)
listed-append j [] ys = refl
listed-append j (x ∷ xs) ys = ground (arith, listed-append j xs ys)

if_or {ℓ} :
    {A : Type ℓ} (a b : Bool) (o : Option A)
    → (if b then none else (if a then none else o)) ≡ (if a || b then none else o)
if_or true true o = refl
if_or true false o = refl
if_or false true o = refl
if_or false false o = refl

same_or_none {ℓ} :
    {A : Type ℓ} (c : Bool) (o p : Option A) → p ≡ (if c then none else o) → (p ≡ o) ⊎ (p ≡ none)
same_or_none true o p h = inr h
same_or_none false o p h = inl h

module _ (services : FilingServices) (deletes : Deletes services.upload.object_store)
    (j : Text) where
  get-send_delete_if :
      (k : Text) (u : UploadDb)
      → get (send_delete services.upload.object_store k u).1.bucket j
        ≡ (if k == j then none else get u.bucket j)
  unfolding send_delete
  get-send_delete_if k u =
      let (b, e) = deletes k u.bucket in
      rw (e, send_delete) (services.upload.object_store.delete_object-some k u.bucket b j e)

  get-delete_file_by_url :
      (url : Text) (u : UploadDb)
      → get (delete_file_by_url services.upload url u).1.bucket j
        ≡ (if names j url then none else get u.bucket j)
  unfolding delete_file_by_url
  get-delete_file_by_url url u = elim (Option-cases (object_key url)) [
    | inl e ↦ rw (e, delete_file_by_url) refl
    | inr ([], e) ↦ rw (e, delete_file_by_url) refl
    | inr (c ∷ cs, e) ↦ rw (e, delete_file_by_url) (get-send_delete_if (c ∷ cs) u)
  ]

  quietly :
      (url : Text) (u : UploadDb)
      → delete_quietly services url u ≡ (ok tt, (delete_file_by_url services.upload url u).1)
  quietly url u = elim (Result-cases (delete_file_by_url services.upload url u).0) [
    | inl (a, e) ↦ rw (e, catch) refl
    | inr (x, e) ↦ rw (e, catch) refl
  ]

  -- After a rollback no object stands under an address that it went through, and all others stand
  -- as before.
  pub get-rollback_uploaded_files :
      (urls : List Text) (u : UploadDb)
      → get (rollback_uploaded_files services urls u).1.bucket j
        ≡ (if listed j urls then none else get u.bucket j)
  unfolding rollback_uploaded_files
  get-rollback_uploaded_files [] u = refl
  get-rollback_uploaded_files (url ∷ urls) u =
      let rest = get-rollback_uploaded_files urls (delete_quietly services url u).1 in
      let first = ap (λ p. get p.1.bucket j) (quietly url u) ∙ get-delete_file_by_url url u in
      rw (ap (λ p. p.0) (quietly url u), ◌>>=◌)
        (rest ∙ rw first (if_or (names j url) (listed j urls) (get u.bucket j)))

  -- The rollback of the images ends at an address that it cannot read.
  pub get-delete_each :
      (urls : List Text) (u : UploadDb)
      → (get (delete_each services urls u).1.bucket j ≡ get u.bucket j)
        ⊎ (get (delete_each services urls u).1.bucket j ≡ none)
  unfolding delete_each
  get-delete_each [] u = inl refl
  get-delete_each (url ∷ urls) u =
      let here = get-delete_file_by_url url u in
      elim (Result-cases (delete_file_by_url services.upload url u).0) [
        | inr (x, e) ↦ rw (e, ◌>>=◌) (same_or_none (names j url) _ _ here)
        | inl (a, e) ↦
            rw (e, ◌>>=◌)
              (elim (get-delete_each urls (delete_file_by_url services.upload url u).1) [
                | inr gone ↦ inr gone
                | inl same ↦ same_or_none (names j url) _ _ (same ∙ here)
              ])
      ]
