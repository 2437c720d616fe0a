-- ===== src/Messages/Pages/Laws.antt =====
-- What a page holds, and what stands around a message.
use thunderchat_server.Base.{
  ℕ, suc, ◌+◌, ◌-◌, ◌≤◌, ◌≡◌, refl, sym, ap, subst, ◌∙◌, arith, Bool, true, false, ◌&&◌, ◌||◌,
  Option, none, some, List, [], ◌∷◌, ◌==◌, if◌then◌else◌, ltb, length, count, All, nat_eq, eq_refl,
  inl, inr, Bool-cases,
}
use thunderchat_server.Base.Prisma.{Client, Pages, mem-count}
use thunderchat_server.Base.Sort.{length-sort_by, All-sort_by}
use mathlib.Core.List.{Memᴰ}
use thunderchat_server.Messages.{unconstrained}
use thunderchat_server.Messages.Pages.{
  TimedMessage, SortType, time_asc, time_desc, sent_at, requested, sort_fetched_messages,
  without_last, reverse_onto, earlier_in_chat, later_in_chat, get_older_direct_messages,
  get_older_direct_messages_handler, get_message_context,
}

length-sort_fetched :
    (ms : List TimedMessage) (t : SortType) → length (sort_fetched_messages ms t) ≡ length ms
unfolding sort_fetched_messages
length-sort_fetched ms time_asc = length-sort_by _ ms
length-sort_fetched ms time_desc = refl

All-sort_fetched :
    (p : TimedMessage → Bool) (ms : List TimedMessage) (t : SortType)
    → All (λ m. p m ≡ true) ms
    → All (λ m. p m ≡ true) (sort_fetched_messages ms t)
unfolding sort_fetched_messages
All-sort_fetched p ms time_asc v = All-sort_by (λ m. p m ≡ true) _ ms v
All-sort_fetched p ms time_desc v = v

length-without_last : (ms : List TimedMessage) → length (without_last ms) ≡ length ms - 1
length-without_last [] = ground arith
length-without_last (m ∷ []) = ground arith
length-without_last (m ∷ k ∷ ms) = ground (arith, length-without_last (k ∷ ms))

All-without_last :
    (p : TimedMessage → Bool) (ms : List TimedMessage)
    → All (λ m. p m ≡ true) ms
    → All (λ m. p m ≡ true) (without_last ms)
All-without_last p [] v = tt
All-without_last p (m ∷ []) v = tt
All-without_last p (m ∷ k ∷ ms) v = (v.0, All-without_last p (k ∷ ms) v.1)

count-reverse_onto :
    (q : TimedMessage → Bool) (ns ms : List TimedMessage)
    → count q (reverse_onto ns ms) ≡ count q ns + count q ms
count-reverse_onto q [] ms = ground arith
count-reverse_onto q (n ∷ ns) ms = ground (arith, count-reverse_onto q ns (n ∷ ms))

-- The chat that a page is asked for, by the one id that is given.
pub data Chat : Type 0 where
  direct group : (id : ℕ) → Chat

abbrev pub direct_id : Chat → Option ℕ
direct_id (Chat.direct id) = some id
direct_id (Chat.group id) = none

abbrev pub group_id : Chat → Option ℕ
group_id (Chat.direct id) = none
group_id (Chat.group id) = some id

abbrev column_of : Chat → TimedMessage → Option ℕ
column_of (Chat.direct id) m = m.row.direct_chat_id
column_of (Chat.group id) m = m.row.group_chat_id

abbrev id_of : Chat → ℕ
id_of (Chat.direct id) = id
id_of (Chat.group id) = id

abbrev has_id : Option ℕ → ℕ → Bool
has_id none id = false
has_id (some n) id = n == id

-- Whether a message is one of a chat.
abbrev pub stands_in : Chat → TimedMessage → Bool
stands_in chat m = has_id (column_of chat m) (id_of chat)

-- Whether a message comes before the offset, or is the one at it on a first page.
abbrev pub precedes : Bool → Option ℕ → TimedMessage → Bool
precedes is_first_time none m = true
precedes is_first_time (some offset) m = ltb m.row.id offset || is_first_time && m.row.id == offset

requested_lem :
    (chat : Chat) (offset : Option ℕ) (is_first_time : Bool) (m : TimedMessage)
    → requested offset (direct_id chat) (group_id chat) is_first_time m
      ≡ (precedes is_first_time offset m && stands_in chat m)
requested_lem (Chat.direct id) none is_first_time m = ground arith
requested_lem (Chat.direct id) (some offset) is_first_time m = ground arith
requested_lem (Chat.group id) none is_first_time m = ground arith
requested_lem (Chat.group id) (some offset) is_first_time m = ground arith

module _ (message : Client TimedMessage unconstrained) (pages : Pages TimedMessage) where
  handler_parts :
      (offset direct_chat_id group_chat_id : Option ℕ) (limit : ℕ) (is_first_time : Bool)
      (sort_type : SortType) (ms : List TimedMessage)
      → let p = requested offset direct_chat_id group_chat_id is_first_time in
        let (has_more, page) =
          get_older_direct_messages_handler message pages offset direct_chat_id group_chat_id limit
            is_first_time sort_type ms in
        (has_more ≡ ltb limit (count p ms))
        × (length page ≡ (if ltb limit (count p ms) then limit else count p ms))
        × All (λ m. p m ≡ true) page
  unfolding get_older_direct_messages_handler get_older_direct_messages
  handler_parts offset direct_chat_id group_chat_id limit is_first_time sort_type ms =
      let p = requested offset direct_chat_id group_chat_id is_first_time in
      let messages =
        get_older_direct_messages message pages offset direct_chat_id group_chat_id (suc limit)
          is_first_time ms in
      let all = pages.find_page-passes false (λ m. m.row.id) p (suc limit) ms in
      let size = pages.length-find_page false (λ m. m.row.id) p (suc limit) ms in
      elim (Bool-cases (ltb limit (count p ms))) [
        | inl more ↦
            let full : length messages ≡ suc limit = ground arith in
            let larger : ltb limit (length messages) ≡ true = ground arith in
            rw (larger, more)
              (
                refl,
                length-sort_fetched (without_last messages) sort_type
                    ∙ length-without_last messages
                    ∙ omega arith,
                All-sort_fetched p (without_last messages) sort_type
                    (All-without_last p messages all),
              )
        | inr fewer ↦
            let full : length messages ≡ count p ms = ground arith in
            let larger : ltb limit (length messages) ≡ false = ground arith in
            rw (larger, fewer)
              (
                refl,
                length-sort_fetched messages sort_type ∙ full,
                All-sort_fetched p messages sort_type all,
              )
      ]

  -- A page of older messages of a chat holds only messages of that chat from before the offset, or
  -- at it where it is the first page, as many as there are up to the limit, and it says that there are
  -- more exactly where there are more than the limit. Without an offset it takes in all of the chat.
  pub get_older_direct_messages_handler_lem :
      (chat : Chat) (offset : Option ℕ) (limit : ℕ) (is_first_time : Bool) (sort_type : SortType)
      (ms : List TimedMessage) (has_more : Bool) (page : List TimedMessage)
      → get_older_direct_messages_handler message pages offset
          (direct_id chat)
          (group_id chat)
          limit
          is_first_time
          sort_type
          ms
        ≡ (has_more, page)
      → let n = count (λ m. precedes is_first_time offset m && stands_in chat m) ms in
        (has_more ≡ ltb limit n)
        × (length page ≡ (if has_more then limit else n))
        × All (λ m. (precedes is_first_time offset m ≡ true) × (stands_in chat m ≡ true)) page
  get_older_direct_messages_handler_lem chat offset limit is_first_time sort_type ms has_more page
        h =
      let p = requested offset (direct_id chat) (group_id chat) is_first_time in
      let q = λ (m : TimedMessage). precedes is_first_time offset m && stands_in chat m in
      let same : p ≡ q = λ i m. requested_lem chat offset is_first_time m i in
      let (more, size, passes) =
        handler_parts offset (direct_id chat) (group_id chat) limit is_first_time sort_type ms in
      let has : has_more ≡ ltb limit (count q ms) =
        sym (ap (λ r. r.0) h) ∙ more ∙ ap (λ t. ltb limit (count t ms)) same in
      let sized : length page ≡ (if ltb limit (count q ms) then limit else count q ms) =
        ap length (sym (ap (λ r. r.1) h))
        ∙ size
        ∙ ap (λ t. if ltb limit (count t ms) then limit else count t ms) same in
      (
        has,
        sized ∙ rw has refl,
        each page (
            subst (All (λ m. q m ≡ true)) (ap (λ r. r.1) h) (
              subst
                (λ t.
                  All (λ m. t m ≡ true)
                    (get_older_direct_messages_handler message pages offset (direct_id chat)
                      (group_id chat) limit is_first_time sort_type ms).1)
                same passes)),
      )
    where
      each :
          (xs : List TimedMessage)
          → All (λ m. (precedes is_first_time offset m && stands_in chat m) ≡ true) xs
          → All (λ m. (precedes is_first_time offset m ≡ true) × (stands_in chat m ≡ true)) xs
      each [] v = tt
      each (m ∷ xs) v = ((ground arith, ground arith), each xs v.1)

  -- The messages around a message of a group chat take in messages of every group chat: an earlier
  -- one of any group chat stands among them, where at most ten messages of group chats are earlier.
  pub get_message_context-other_groups :
      (id : ℕ) (ms context : List TimedMessage) (center other : TimedMessage)
      → message.find_first (λ m. m.row.id == id) ms ≡ some center
      → get_message_context message pages id ms ≡ some context
      → center.row.direct_chat_id ≡ none
      → other.row.direct_chat_id ≡ none
      → ltb other.created_at center.created_at ≡ true
      → Memᴰ other ms
      → count (earlier_in_chat center) ms ≤ 10
      → 1 ≤ count (λ m. m.row.id == other.row.id) context
  unfolding get_message_context
  get_message_context-other_groups id ms context center other found h group_center group_other
        before there few =
      let q = λ (m : TimedMessage). m.row.id == other.row.id in
      let prev = pages.find_page false sent_at (earlier_in_chat center) 10 ms in
      let next = pages.find_page true sent_at (later_in_chat center) 10 ms in
      let whole : context ≡ reverse_onto prev (center ∷ next) = ground arith in
      let passes : (earlier_in_chat center other && q other) ≡ true =
        ground (arith, eq_refl other.row.id) in
      let one = mem-count (λ (m : TimedMessage). earlier_in_chat center m && q m) there passes in
      let all = pages.count-find_page false sent_at (earlier_in_chat center) q 10 ms few in
      rw whole (omega (arith, count-reverse_onto q prev (center ∷ next), one, all))
