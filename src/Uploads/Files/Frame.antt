-- ===== src/Uploads/Files/Frame.antt =====
-- Which objects an upload changes, and that a rollback deletes.
use thunderchat_server.Base.{
  String, ◌≡◌, refl, ◌∙◌, Bool, true, false, none, some, ◌==◌, inl, inr, Option-cases, Bool-cases,
  eq_refl, list_eq, lists_equal_iff, nat_eq,
}
use thunderchat_server.Base.Action.{Action, Exception, Result-cases, ok, catch, ◌>>=◌}
use thunderchat_server.Base.JsMap.{get}
use thunderchat_server.Security.Utf16.{Text}
use thunderchat_server.Uploads.{ObjectStore, UploadDb, Bucket, send_put, send_delete}

-- An action changes objects under keys of `own` at most.
abbrev pub Touches : {A : Type 0} → (Text → Bool) → Action UploadDb A → Type 0
Touches own m = (s : UploadDb) (j : Text) → own j ≡ false → get (m s).1.bucket j ≡ get s.bucket j

module _ (own : Text → Bool) where
  pub Touches-bind :
      {A B : Type 0} (m : Action UploadDb A) (f : A → Action UploadDb B)
      → Touches own m
      → ((a : A) → Touches own (f a))
      → Touches own (m >>= f)
  Touches-bind m f h k s j free = elim (Result-cases (m s).0) [
    | inl (a, e) ↦ rw (e, ◌>>=◌) (k a (m s).1 j free ∙ h s j free)
    | inr (x, e) ↦ rw (e, ◌>>=◌) (h s j free)
  ]

  pub Touches-catch :
      {A : Type 0} (m : Action UploadDb A) (f : Exception → Action UploadDb A)
      → Touches own m
      → ((e : Exception) → Touches own (f e))
      → Touches own (catch m f)
  Touches-catch m f h k s j free = elim (Result-cases (m s).0) [
    | inl (a, e) ↦ rw (e, catch) (h s j free)
    | inr (x, e) ↦ rw (e, catch) (k x (m s).1 j free ∙ h s j free)
  ]

module _ (store : ObjectStore) (own : Text → Bool) (k : Text) (mine : own k ≡ true) where
  not_mine : (j : Text) → own j ≡ false → (k == j) ≡ false
  not_mine j free = elim (Bool-cases (k == j)) [
    | inr e ↦ e
    | inl e ↦ let same : k ≡ j = (lists_equal_iff k j).0 e in absurd (cc)
  ]

  pub Touches-send_put : (type : String) → Touches own (send_put store k type)
  unfolding send_put
  Touches-send_put type s j free = elim (Option-cases (store.put_object k type s.bucket)) [
    | inl e ↦ rw (e, send_put) refl
    | inr (b, e) ↦
        rw (e, send_put) (store.put_object-some k type s.bucket b j e ∙ rw (not_mine j free) refl)
  ]

  pub Touches-send_delete : Touches own (send_delete store k)
  unfolding send_delete
  Touches-send_delete s j free = elim (Option-cases (store.delete_object k s.bucket)) [
    | inl e ↦ rw (e, send_delete) refl
    | inr (b, e) ↦
        rw (e, send_delete) (store.delete_object-some k s.bucket b j e ∙ rw (not_mine j free) refl)
  ]

-- The store never rejects to delete an object.
abbrev pub Deletes : ObjectStore → Type 0
Deletes store = (k : Text) (b : Bucket) → (b' : Bucket) × (store.delete_object k b ≡ some b')

pub get-send_delete :
    (store : ObjectStore) (k : Text) (s : UploadDb)
    → Deletes store
    → (send_delete store k s ≡ (ok tt, (send_delete store k s).1))
      × (get (send_delete store k s).1.bucket k ≡ none)
unfolding send_delete
get-send_delete store k s deletes =
    let (b, e) = deletes k s.bucket in
    rw (e, send_delete) (refl, store.delete_object-some k s.bucket b k e ∙ rw (eq_refl k) refl)
