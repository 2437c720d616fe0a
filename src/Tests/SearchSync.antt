-- ===== src/Tests/SearchSync.antt =====
-- A message of a group chat and a private one, with a search engine in memory.
use thunderchat_server.Base.{
  ℕ, false, ◌≡◌, ◌⊎◌, refl, ap, sym, ◌∙◌, arith, none, some, List, [], ◌∷◌, ◌==◌, if◌then◌else◌,
  nat_eq, Option, Option-cases, inl, inr,
}
use thunderchat_server.Base.Action.{Result, ok, err, system_error}
use thunderchat_server.Base.JsMap.{Map, get, set, get-set}
use thunderchat_server.Messages.{MessageType}
use thunderchat_server.Security.Utf16.{Text}
use thunderchat_server.SearchSync.{
  MessageDoc, SyncedMessage, SyncState, SearchEngine, message_doc, recursive_create_update_message,
}
use thunderchat_server.SearchSync.Laws.{Readers, recursive_create_update_message_lem}
use thunderchat_server.Uploads.Names.{units}

same_docs : {m m' : Map ℕ MessageDoc} → some m ≡ some m' → m ≡ m'
same_docs h = ground arith

abbrev updated :
    Option MessageDoc → ℕ → (MessageDoc → MessageDoc) → Map ℕ MessageDoc → Option (Map ℕ MessageDoc)
updated none id f m = none
updated (some old) id f m = some (set m id (f old))

abbrev engine : SearchEngine
engine = record {
  index = λ n id doc m. some (set m id doc);
  update = λ n id f m. updated (get m id) id f m;
  index-some = λ n id doc m m' j h. ap (λ d. get d j) (sym (same_docs h)) ∙ get-set m id j doc;
  update-some = λ n id f m m' j h. elim (Option-cases (get m id)) [
    | inl e ↦ absurd (ground arith)
    | inr (old, e) ↦
        let same : some (set m id (f old)) ≡ some m' = rw e at h in
        (old, e, ap (λ d. get d j) (sym (same_docs same)) ∙ get-set m id j (f old))
  ];
}

abbrev plain_text : Text → Text
plain_text content = content

abbrev group_message : SyncedMessage
group_message = record {
  id = 7;
  direct_chat_id = none;
  recipient_id = none;
  group_chat_id = some 3;
  author_id = 1;
  content = units "hi";
  type = MessageType.text;
  created_at = 5;
  media = none;
}

abbrev before_sync : SyncState
before_sync = record { documents = []; group_members = (3, 1 ∷ 2 ∷ []) ∷ []; requests = 0 }

abbrev after_sync : SyncState
after_sync = record before_sync {
  documents = (7, message_doc engine plain_text group_message (1 ∷ 2 ∷ [])) ∷ [];
  requests = 1;
}

recursive_create_update_message_lem_example :
    ((ids : List ℕ) × (doc : MessageDoc) × (◌≡◌ {A = Result (Unit {0})} (ok tt) (ok tt))
      × Readers group_message before_sync.group_members ids
      × (doc.doc_id ≡ 7)
      × (doc.valid_user_ids ≡ ids)
      × (doc.original_content ≡ units "hi")
      × (doc.is_deleted ≡ false)
      × (get after_sync.documents 7
          ≡ (if ◌==◌ {A = ℕ} 7 7 then some doc else get before_sync.documents 7)))
    ⊎ ((◌≡◌ {A = Result (Unit {0})} (ok tt) (err system_error))
        × (after_sync.documents ≡ before_sync.documents))
unfolding recursive_create_update_message set get
recursive_create_update_message_lem_example =
    recursive_create_update_message_lem engine plain_text group_message before_sync after_sync
      (ok tt) 7 refl
