-- ===== src/Messages/Pages.antt =====
-- message/message.service.ts: the pages of the messages of a chat, and the messages around one.
pub mod Laws
use thunderchat_server.Base.{
  ℕ, suc, Bool, true, false, not, ◌&&◌, Option, none, some, List, [], ◌∷◌, ◌++◌, ◌==◌,
  if◌then◌else◌, ltb, leb, length, nat_eq,
}
use thunderchat_server.Base.Prisma.{Client, Pages}
use thunderchat_server.Base.Sort.{sort_by}
use thunderchat_server.Messages.{ChatMessage, unconstrained, is_id}

-- A row with the time that its author's client gave it.
pub record TimedMessage : Type 0 where
  pub row : ChatMessage
  pub created_at : ℕ

pub data SortType : Type 0 where
  time_asc time_desc : SortType

-- A column that is asked for with `undefined` is not looked at.
abbrev pub asked : Option ℕ → Option ℕ → Bool
asked none column = true
asked (some id) column = is_id column id

abbrev pub in_chats : Option ℕ → Option ℕ → TimedMessage → Bool
in_chats direct_chat_id group_chat_id m =
    asked direct_chat_id m.row.direct_chat_id && asked group_chat_id m.row.group_chat_id

abbrev pub message_id : TimedMessage → ℕ
message_id m = m.row.id

abbrev pub sent_at : TimedMessage → ℕ
sent_at m = m.created_at

-- `lte` or `lt`; an offset that is `undefined` is not looked at.
abbrev pub is_older : Bool → Option ℕ → ℕ → Bool
is_older equal_offset none id = true
is_older equal_offset (some offset) id = if equal_offset then leb id offset else ltb id offset

-- The `where` of the query.
abbrev pub requested : Option ℕ → Option ℕ → Option ℕ → Bool → TimedMessage → Bool
requested offset direct_chat_id group_chat_id equal_offset m =
    is_older equal_offset offset m.row.id && in_chats direct_chat_id group_chat_id m

-- `curr.createdAt - next.createdAt`; the other order of the enum has no case of its own.
unfoldable pub sort_fetched_messages : List TimedMessage → SortType → List TimedMessage
sort_fetched_messages ms time_asc = sort_by (λ y x. ltb y.created_at x.created_at) ms
sort_fetched_messages ms time_desc = ms

-- `slice(0, -1)`
abbrev pub without_last : List TimedMessage → List TimedMessage
without_last [] = []
without_last (m ∷ []) = []
without_last (m ∷ n ∷ ms) = m ∷ without_last (n ∷ ms)

abbrev pub reverse_onto : List TimedMessage → List TimedMessage → List TimedMessage
reverse_onto [] ms = ms
reverse_onto (m ∷ ns) ms = reverse_onto ns (m ∷ ms)

-- Whether two columns agree, also where both are null.
abbrev pub same_column : Option ℕ → Option ℕ → Bool
same_column none none = true
same_column (some a) (some b) = a == b
same_column _ _ = false

abbrev pub earlier_in_chat : TimedMessage → TimedMessage → Bool
earlier_in_chat center m =
    same_column m.row.direct_chat_id center.row.direct_chat_id && ltb m.created_at center.created_at

abbrev pub later_in_chat : TimedMessage → TimedMessage → Bool
later_in_chat center m =
    same_column m.row.direct_chat_id center.row.direct_chat_id && ltb center.created_at m.created_at

module _ (message : Client TimedMessage unconstrained) (pages : Pages TimedMessage) where
  open pages use {find_page}

  unfoldable pub get_newer_direct_messages :
      ℕ → Option ℕ → Option ℕ → ℕ → List TimedMessage → List TimedMessage
  get_newer_direct_messages offset direct_chat_id group_chat_id limit ms =
      find_page true message_id
        (λ m. ltb offset m.row.id && in_chats direct_chat_id group_chat_id m) limit ms

  unfoldable pub get_older_direct_messages :
      Option ℕ → Option ℕ → Option ℕ → ℕ → Bool → List TimedMessage → List TimedMessage
  get_older_direct_messages offset direct_chat_id group_chat_id limit equal_offset ms =
      find_page false message_id (requested offset direct_chat_id group_chat_id equal_offset) limit
        ms

  -- `hasMoreMessages` and `directMessages`.
  unfoldable pub get_older_direct_messages_handler :
      Option ℕ
      → Option ℕ
      → Option ℕ
      → ℕ
      → Bool
      → SortType
      → List TimedMessage
      → Bool × List TimedMessage
  unfolding get_older_direct_messages sort_fetched_messages
  get_older_direct_messages_handler offset direct_chat_id group_chat_id limit is_first_time
        sort_type ms =
      let messages =
        get_older_direct_messages offset direct_chat_id group_chat_id (suc limit) is_first_time
          ms in
      let page = if ltb limit (length messages) then without_last messages else messages in
      (ltb limit (length messages), sort_fetched_messages page sort_type)

  -- The mark on the last message is left out; `none` where the error is thrown.
  unfoldable pub get_message_context : ℕ → List TimedMessage → Option (List TimedMessage)
  get_message_context id ms = elim (message.find_first (λ m. m.row.id == id) ms) [
    | none ↦ none
    | some center ↦ some (
        reverse_onto (find_page false sent_at (earlier_in_chat center) 10 ms)
          (center ∷ find_page true sent_at (later_in_chat center) 10 ms))
  ]
