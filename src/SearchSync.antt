-- ===== src/SearchSync.antt =====
-- configs/elasticsearch/sync-data-to-ES/sync-data-to-ES.worker.ts: the documents of messages in the
-- search engine. What hides HTML tags in a content is a regular expression, a parameter here.
pub mod Laws
use thunderchat_server.Base.{
  ℕ, ◌+◌, zero, suc, Bool, true, false, ◌&&◌, ◌≡◌, Option, none, some, List, [], ◌∷◌, ◌==◌,
  if◌then◌else◌, nat_eq,
}
use thunderchat_server.Base.Action.{
  Action, Exception, pure, throw, gets, catch, not_found, system_error, db_error, ok, err,
  group_chat_message, group_chat_not_found, ◌>>=◌,
}
use thunderchat_server.Base.JsMap.{Map, get}
use thunderchat_server.Security.Utf16.{Text}
use thunderchat_server.Messages.{MessageType, MediaType}
use thunderchat_server.Retry.{retry_async_request}

pub record MessageDoc : Type 0 where
  pub doc_id : ℕ
  pub content : Text
  pub original_content : Text
  pub message_type : MessageType
  pub valid_user_ids : List ℕ
  pub created_at : ℕ
  pub is_deleted : Bool

pub record SyncedMessage : Type 0 where
  pub id : ℕ
  pub direct_chat_id : Option ℕ
  pub recipient_id : Option ℕ
  pub group_chat_id : Option ℕ
  pub author_id : ℕ
  pub content : Text
  pub type : MessageType
  pub created_at : ℕ
  pub media : Option (MediaType × Text)

-- The ids of the members by the id of their group chat, and the number of requests so far.
pub record SyncState : Type 0 where
  pub documents : Map ℕ MessageDoc
  pub group_members : Map ℕ (List ℕ)
  pub requests : ℕ

-- The client of the search engine, which may reject any request.
pub record SearchEngine : Type 0 where
  pub index : (request id : ℕ) → MessageDoc → Map ℕ MessageDoc → Option (Map ℕ MessageDoc)
  pub update :
      (request id : ℕ) → (MessageDoc → MessageDoc) → Map ℕ MessageDoc → Option (Map ℕ MessageDoc)
  pub index-some :
      (n id : ℕ) (doc : MessageDoc) (m m' : Map ℕ MessageDoc) (j : ℕ)
      → index n id doc m ≡ some m'
      → get m' j ≡ (if id == j then some doc else get m j)
  pub update-some :
      (n id : ℕ) (f : MessageDoc → MessageDoc) (m m' : Map ℕ MessageDoc) (j : ℕ)
      → update n id f m ≡ some m'
      → (old : MessageDoc) × (get m id ≡ some old)
        × (get m' j ≡ (if id == j then some (f old) else get m j))

abbrev pub max_retries : ℕ
max_retries = 3

-- Whether an id is truthy.
abbrev pub is_set : Option ℕ → Bool
is_set none = false
is_set (some zero) = false
is_set (some (suc n)) = true

abbrev pub or_zero : Option ℕ → ℕ
or_zero none = 0
or_zero (some n) = n

abbrev pub without_content : MessageDoc → MessageDoc
without_content doc = record doc { is_deleted = true; content = []; original_content = [] }

-- The users in the document; none where the group chat is not there.
abbrev pub valid_user_ids_of : SyncedMessage → Map ℕ (List ℕ) → Option (List ℕ)
valid_user_ids_of m members =
    if is_set m.direct_chat_id && is_set m.recipient_id
    then some (or_zero m.recipient_id ∷ m.author_id ∷ [])
    else (if is_set m.group_chat_id then get members (or_zero m.group_chat_id) else some [])

abbrev or_group_chat_not_found : Option (List ℕ) → Action SyncState (List ℕ)
or_group_chat_not_found none = throw (not_found (group_chat_message group_chat_not_found))
or_group_chat_not_found (some ids) = pure ids

abbrev pub no_hook : Exception → ℕ → SyncState → SyncState
no_hook e retries_count s = s

abbrev pub answered : Option (Map ℕ MessageDoc) → Action SyncState (Unit {0})
answered none s = (err db_error, record s { requests = s.requests + 1 })
answered (some m) s = (ok tt, record s { documents = m; requests = s.requests + 1 })

module _ (engine : SearchEngine) (replace_html_tag : Text → Text) where
  abbrev file_name_or : Option (MediaType × Text) → Text → Text
  file_name_or (some (MediaType.document, [])) content = replace_html_tag content
  file_name_or (some (MediaType.document, u ∷ us)) content = u ∷ us
  file_name_or _ content = replace_html_tag content

  abbrev doc_content : MessageType → Option (MediaType × Text) → Text → Text
  doc_content MessageType.media media content = file_name_or media content
  doc_content _ media content = replace_html_tag content

  abbrev pub message_doc : SyncedMessage → List ℕ → MessageDoc
  message_doc m ids = record {
    doc_id = m.id;
    content = doc_content m.type m.media m.content;
    original_content = m.content;
    message_type = m.type;
    valid_user_ids = ids;
    created_at = m.created_at;
    is_deleted = false;
  }

  abbrev pub index_message : SyncedMessage → Action SyncState (Unit {0})
  index_message m = do
    found ← gets (λ s. valid_user_ids_of m s.group_members)
    ids ← or_group_chat_not_found found
    (λ s. answered (engine.index s.requests m.id (message_doc m ids) s.documents) s)

  unfoldable pub recursive_create_update_message : SyncedMessage → Action SyncState (Unit {0})
  unfolding retry_async_request
  recursive_create_update_message m =
      catch (retry_async_request (index_message m) no_hook max_retries) (λ e. throw system_error)

  abbrev pub delete_document : SyncedMessage → Action SyncState (Unit {0})
  delete_document m s = answered (engine.update s.requests m.id without_content s.documents) s

  unfoldable pub recursive_delete_message : SyncedMessage → Action SyncState (Unit {0})
  unfolding retry_async_request
  recursive_delete_message m =
      catch (retry_async_request (delete_document m) no_hook max_retries) (λ e. throw system_error)
