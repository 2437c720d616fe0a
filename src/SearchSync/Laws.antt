-- ===== src/SearchSync/Laws.antt =====
-- What a synchronised message leaves in the search engine.
use thunderchat_server.Base.{
  ℕ, zero, suc, ◌+◌, ◌≡◌, ◌⊎◌, refl, ap, sym, ◌∙◌, arith, Bool, true, ◌&&◌, ltb, Option, none, [],
  ◌∷◌, ◌≤◌, some, List, ◌==◌, if◌then◌else◌, false, nat_eq, inl, inr, Option-cases, Bool-cases,
}
use thunderchat_server.Base.Action.{
  Action, Exception, Result, Result-cases, ok, err, system_error, db_error, not_found,
  group_chat_message, group_chat_not_found,
}
use thunderchat_server.Base.JsMap.{Map, get}
use thunderchat_server.Security.Utf16.{Text}
use thunderchat_server.Retry.{retry_async_request, retry_async_request_lem, before, Fail}
use thunderchat_server.SearchSync.{
  is_set, or_zero, SearchEngine, SyncState, SyncedMessage, MessageDoc, valid_user_ids_of,
  message_doc, index_message, delete_document, without_content, no_hook,
  recursive_create_update_message, recursive_delete_message,
}

-- The documents and the members are those of another state.
abbrev IsSame : SyncState → SyncState → Type 0
IsSame s t = (t.documents ≡ s.documents) × (t.group_members ≡ s.group_members)

module _ (request : Action SyncState (Unit {0})) where
  abbrev Rejects : Type 0
  Rejects = (s : SyncState) (e : Exception) → (request s).0 ≡ err e → IsSame s (request s).1

  before-IsSame :
      (n k : ℕ) (s : SyncState)
      → Rejects
      → Fail request no_hook 3 n k s
      → IsSame s (before request no_hook 3 n k s)
  before-IsSame zero k s rejects h = (refl, refl)
  before-IsSame (suc n) k s rejects h = elim (Result-cases (request s).0) [
    | inl (a, e) ↦ absurd (ground arith)
    | inr (x, e) ↦
        let (docs, groups) = rejects s x e in
        let more : Fail request no_hook 3 n (suc k) (request s).1 = ground arith in
        let (docs', groups') = before-IsSame n (suc k) (request s).1 rejects more in
        let step : before request no_hook 3 (suc n) k s
            ≡ before request no_hook 3 n (suc k) (request s).1 =
          ground arith in
        (
          ap (λ t. t.documents) step ∙ (docs' ∙ docs),
          ap (λ t. t.group_members) step ∙ (groups' ∙ groups),
        )
  ]

  -- A request that is retried answers as its last run, which finds everything as it was.
  retried :
      (s : SyncState)
      → Rejects
      → (t : SyncState) × IsSame s t × (retry_async_request request no_hook 3 s ≡ request t)
  retried s rejects =
      let (n, bound, fail, same, end) = retry_async_request_lem request no_hook 3 s in
      (before request no_hook 3 n 0 s, before-IsSame n 0 s rejects fail, same)

-- What is left of an answer behind the `catch`.
abbrev settled : Result (Unit {0}) × SyncState → Result (Unit {0}) × SyncState
settled p = elim p.0 [ ok a ↦ (ok a, p.1) | err e ↦ (err system_error, p.1) ]

failed :
    (p : Result (Unit {0}) × SyncState) (e : Exception)
    → p.0 ≡ err e
    → settled p ≡ (err system_error, p.1)
failed (ok a, s) e h = absurd (ground arith)
failed (err x, s) e h = refl

-- Whether a message has the id of a direct chat and that of its receiver, both no 0.
abbrev both : Option ℕ → Option ℕ → Bool
both (some chat) (some user) = ltb 0 chat && ltb 0 user
both _ _ = false

abbrev pub is_private : SyncedMessage → Bool
is_private m = both m.direct_chat_id m.recipient_id

both_set : (d r : Option ℕ) → (is_set d && is_set r) ≡ both d r
both_set none r = refl
both_set (some zero) none = refl
both_set (some zero) (some b) = ground arith
both_set (some (suc a)) none = refl
both_set (some (suc a)) (some zero) = ground arith
both_set (some (suc a)) (some (suc b)) = ground arith

-- Who may find a message: its two users, the members of its group chat, or nobody.
abbrev pub Readers : SyncedMessage → Map ℕ (List ℕ) → List ℕ → Type 0
Readers m members ids =
    ((user : ℕ) × (is_private m ≡ true)
      × (m.recipient_id ≡ some user)
      × (ids ≡ user ∷ m.author_id ∷ []))
    ⊎ (((group : ℕ) × (is_private m ≡ false)
          × (1 ≤ group)
          × (m.group_chat_id ≡ some group)
          × (get members group ≡ some ids))
        ⊎ ((is_private m ≡ false)
            × ((m.group_chat_id ≡ none) ⊎ (m.group_chat_id ≡ some 0))
            × (ids ≡ [])))

of_group :
    (m : SyncedMessage) (members : Map ℕ (List ℕ)) (ids : List ℕ) (g : Option ℕ)
    → m.group_chat_id ≡ g
    → is_private m ≡ false
    → (if is_set g then get members (or_zero g) else some []) ≡ some ids
    → Readers m members ids
of_group m members ids none e other h = inr (inr (other, inl e, ground arith))
of_group m members ids (some zero) e other h = inr (inr (other, inr e, ground arith))
of_group m members ids (some (suc n)) e other h = inr (inl (suc n, other, omega arith, e, h))

readers_lem :
    (m : SyncedMessage) (members : Map ℕ (List ℕ)) (ids : List ℕ)
    → valid_user_ids_of m members ≡ some ids
    → Readers m members ids
readers_lem m members ids h =
    let same = both_set m.direct_chat_id m.recipient_id in
    elim (Bool-cases (is_private m)) [
      | inr other ↦ of_group m members ids m.group_chat_id refl other (ground arith)
      | inl private ↦ elim (Option-cases m.recipient_id) [
        | inl nobody ↦ absurd (ground arith)
        | inr (user, to) ↦ inl (user, private, to, ground arith)
      ]
    ]

module _ (engine : SearchEngine) (replace_html_tag : Text → Text) (m : SyncedMessage) where
  abbrev run : Action SyncState (Unit {0})
  run = index_message engine replace_html_tag m

  abbrev Indexed : SyncState → Type 0
  Indexed s =
      (ids : List ℕ) × (docs : Map ℕ MessageDoc) × (valid_user_ids_of m s.group_members ≡ some ids)
      × (engine.index s.requests m.id (message_doc engine replace_html_tag m ids) s.documents
          ≡ some docs)
      × (run s ≡ (ok tt, record s { documents = docs; requests = s.requests + 1 }))

  run_cases :
      (s : SyncState) → Indexed s ⊎ ((e : Exception) × ((run s).0 ≡ err e) × IsSame s (run s).1)
  run_cases s = elim (Option-cases (valid_user_ids_of m s.group_members)) [
    | inl missing ↦ inr (
      not_found (group_chat_message group_chat_not_found),
      rw missing refl,
      rw missing (refl, refl),
    )
    | inr (ids, there) ↦
        elim (Option-cases
          (engine.index s.requests m.id (message_doc engine replace_html_tag m ids) s.documents)) [
            | inl rejected ↦
                inr (db_error, rw (there, rejected) refl, rw (there, rejected) (refl, refl))
            | inr (docs, done) ↦ inl (ids, docs, there, done, rw (there, done) refl)
          ]
  ]

  run-Rejects : Rejects run
  run-Rejects s e h = elim (run_cases s) [
    | inl (ids, docs, there, done, same) ↦ absurd (ground (arith, ap (λ p. p.0) same))
    | inr (x, thrown, same) ↦ same
  ]

  -- A message that is synchronised has a document that is not deleted, with its content, and no
  -- other document is changed; where it fails none is. The document may be found by the receiver
  -- and the author of a message of a direct chat, by the members of the group chat for one of a
  -- group chat, and by nobody for a message of neither.
  pub recursive_create_update_message_lem :
      (s s' : SyncState) (r : Result (Unit {0})) (j : ℕ)
      → recursive_create_update_message engine replace_html_tag m s ≡ (r, s')
      → ((ids : List ℕ) × (doc : MessageDoc) × (r ≡ ok tt)
          × Readers m s.group_members ids
          × (doc.doc_id ≡ m.id)
          × (doc.valid_user_ids ≡ ids)
          × (doc.original_content ≡ m.content)
          × (doc.is_deleted ≡ false)
          × (get s'.documents j ≡ (if m.id == j then some doc else get s.documents j)))
        ⊎ ((r ≡ err system_error) × (s'.documents ≡ s.documents))
  unfolding recursive_create_update_message
  recursive_create_update_message_lem s s' r j h =
      let (t, (documents, groups), whole) = retried run s run-Rejects in
      elim (run_cases t) [
        | inl (ids, docs, there, done, same) ↦
            let ended = whole ∙ same in
            let answer : ◌≡◌ {A = Result (Unit {0}) × SyncState} (r, s')
                (ok tt, record t { documents = docs; requests = t.requests + 1 }) =
              sym h ∙ ap settled ended in
            inl (
              ids,
              message_doc engine replace_html_tag m ids,
              ap (λ p. p.0) answer,
              readers_lem m s.group_members ids (ap (valid_user_ids_of m) (sym groups) ∙ there),
              refl,
              refl,
              refl,
              refl,
              ap (λ p. get p.1.documents j) answer
                  ∙ engine.index-some t.requests m.id (message_doc engine replace_html_tag m ids)
                      t.documents docs j done
                  ∙ rw documents refl,
            )
        | inr (e, thrown, same) ↦
            let answer : ◌≡◌ {A = Result (Unit {0}) × SyncState} (r, s')
                (err system_error, (run t).1) =
              sym h ∙ (ap settled whole ∙ failed (run t) e thrown) in
            inr (ap (λ p. p.0) answer, ap (λ p. p.1.documents) answer ∙ (same.0 ∙ documents))
      ]

  abbrev del : Action SyncState (Unit {0})
  del = delete_document engine replace_html_tag m

  del_cases :
      (s : SyncState)
      → ((docs : Map ℕ MessageDoc) × (engine.update s.requests m.id without_content s.documents
            ≡ some docs)
          × (del s ≡ (ok tt, record s { documents = docs; requests = s.requests + 1 })))
        ⊎ ((e : Exception) × ((del s).0 ≡ err e) × IsSame s (del s).1)
  del_cases s = elim (Option-cases (engine.update s.requests m.id without_content s.documents)) [
    | inl rejected ↦ inr (db_error, rw rejected refl, rw rejected (refl, refl))
    | inr (docs, done) ↦ inl (docs, done, rw done refl)
  ]

  del-Rejects : Rejects del
  del-Rejects s e h = elim (del_cases s) [
    | inl (docs, done, same) ↦ absurd (ground (arith, ap (λ p. p.0) same))
    | inr (x, thrown, same) ↦ same
  ]

  -- A message that is deleted in the search engine had a document there, which is marked and empty
  -- after it, and no other document is changed; where it fails none is.
  pub recursive_delete_message_lem :
      (s s' : SyncState) (r : Result (Unit {0})) (j : ℕ)
      → recursive_delete_message engine replace_html_tag m s ≡ (r, s')
      → ((old : MessageDoc) × (r ≡ ok tt)
          × (get s.documents m.id ≡ some old)
          × (get s'.documents j
              ≡ (if m.id == j then some (without_content old) else get s.documents j)))
        ⊎ ((r ≡ err system_error) × (s'.documents ≡ s.documents))
  unfolding recursive_delete_message
  recursive_delete_message_lem s s' r j h =
      let (t, (documents, groups), whole) = retried del s del-Rejects in
      elim (del_cases t) [
        | inl (docs, done, same) ↦
            let ended = whole ∙ same in
            let answer : ◌≡◌ {A = Result (Unit {0}) × SyncState} (r, s')
                (ok tt, record t { documents = docs; requests = t.requests + 1 }) =
              sym h ∙ ap settled ended in
            let (old, there, law) =
              engine.update-some t.requests m.id without_content t.documents docs j done in
            inl (
              old,
              ap (λ p. p.0) answer,
              ap (λ d. get d m.id) (sym documents) ∙ there,
              ap (λ p. get p.1.documents j) answer ∙ law ∙ rw documents refl,
            )
        | inr (e, thrown, same) ↦
            let answer : ◌≡◌ {A = Result (Unit {0}) × SyncState} (r, s')
                (err system_error, (del t).1) =
              sym h ∙ (ap settled whole ∙ failed (del t) e thrown) in
            inr (ap (λ p. p.0) answer, ap (λ p. p.1.documents) answer ∙ (same.0 ∙ documents))
      ]
