-- ===== src/Tests/Pages.antt =====
-- A page of the messages of a direct chat, and the messages around one of a group chat.
use thunderchat_server.Base.{
  ℕ, ◌≡◌, refl, true, false, ◌&&◌, Option, none, some, List, [], ◌∷◌, if◌then◌else◌, ltb, length,
  count, All, nat_eq,
}
use thunderchat_server.Base.Prisma.{Client, Pages}
use thunderchat_server.Base.Prisma.InMemory.{in_memory}
use thunderchat_server.Base.Prisma.Ordered.{in_memory_pages}
use thunderchat_server.Messages.{text, sent, unconstrained}
use thunderchat_server.Messages.Pages.{TimedMessage, time_asc, get_older_direct_messages_handler}
use thunderchat_server.Messages.Pages.Laws.{
  Chat, precedes, stands_in, get_older_direct_messages_handler_lem,
}

abbrev table : Client TimedMessage unconstrained
table = in_memory _

abbrev pages : Pages TimedMessage
pages = in_memory_pages

abbrev timed : ℕ → Option ℕ → Option ℕ → TimedMessage
timed id direct_chat_id group_chat_id = record {
  row = record {
    id = id;
    content = "";
    author_id = 1;
    recipient_id = none;
    direct_chat_id = direct_chat_id;
    group_chat_id = group_chat_id;
    type = text;
    status = sent;
    sticker_id = none;
    reply_to_id = none;
    is_deleted = false;
    media = none;
  };
  created_at = id;
}

abbrev direct : List TimedMessage
direct =
    timed 4 (some 7) none
    ∷ timed 3 (some 7) none
    ∷ timed 2 (some 8) none
    ∷ timed 1 (some 7) none
    ∷ []

get_older_direct_messages_handler_lem_example :
    let n = count (λ m. precedes false (some 4) m && stands_in (Chat.direct 7) m) direct in
    (true ≡ ltb 1 n)
    × (length (timed 3 (some 7) none ∷ []) ≡ (if true then 1 else n))
    × All
        (λ m. (precedes false (some 4) m ≡ true) × (stands_in (Chat.direct 7) m ≡ true))
        (timed 3 (some 7) none ∷ [])
unfolding get_older_direct_messages_handler
get_older_direct_messages_handler_lem_example =
    get_older_direct_messages_handler_lem table pages (Chat.direct 7) (some 4) 1 false time_asc
      direct true (timed 3 (some 7) none ∷ []) refl
