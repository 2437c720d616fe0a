-- ===== src/Tests/Friends.antt =====
-- Requests, friendships, blocks and the test of a direct message between users 1 and 2.
use thunderchat_server.Base.{
  ℕ, ◌≡◌, ◌↔◌, refl, Bool, true, false, not, ◌&&◌, some, [], ◌∷◌, ◌==◌, count, nat_eq,
}
use mathlib.Core.List.{Memᴰ}
use thunderchat_server.Base.Action.{ok}
use thunderchat_server.Friend.{
  pending, accepted, FriendRequest, Friend, BlockedUser, FriendDb, empty_friend_db, blocks_between,
  friends_between, requests_between,
}
use thunderchat_server.Friend.Blocks.{unblock_user}
use thunderchat_server.Friend.Requests.{
  send_friend_request, friend_request_action, is_friend, remove_friend,
}
use thunderchat_server.Friend.MaySend.{
  check_can_send_message_in_direct_chat, can_send_direct_message, friends_only,
}
use thunderchat_server.Friend.SendLaws.{
  MaySend, check_can_send_message_in_direct_chat_iff, stranger_may_send,
}
use thunderchat_server.Friend.RequestLaws.{IsStored, send_friend_request_lem}
use thunderchat_server.Friend.Removal.{remove_friend_lem}
use thunderchat_server.Tests.{friend_tables}

-- User 1 has asked user 2, who wants messages of friends only.
abbrev request : FriendRequest
request = record { id = 5; sender_id = 1; recipient_id = 2; status = pending }

abbrev asked : FriendDb
asked = record empty_friend_db {
  users = 1 ∷ 2 ∷ [];
  friend_requests = request ∷ [];
  settings = record { user_id = 2; only_receive_friend_message = true } ∷ [];
}

abbrev strangers : FriendDb
strangers = record empty_friend_db { users = 1 ∷ 2 ∷ [] }

abbrev block : BlockedUser
block = record { id = 3; blocker_user_id = 1; blocked_user_id = 2 }

abbrev blocked : FriendDb
blocked = record strangers { blocked_users = block ∷ [] }

check_can_send_message_in_direct_chat_iff_example :
    (check_can_send_message_in_direct_chat friend_tables 1 2 asked ≡ ok tt)
    ↔ MaySend friend_tables 1 2 asked
check_can_send_message_in_direct_chat_iff_example =
    check_can_send_message_in_direct_chat_iff friend_tables 1 2 asked

stranger_may_send_example :
    (check_can_send_message_in_direct_chat friend_tables 1 2 asked ≡ ok tt)
    × (can_send_direct_message friend_tables 1 2 asked ≡ some friends_only)
stranger_may_send_example =
    stranger_may_send friend_tables 1 2 request asked refl refl refl (Memᴰ.head refl) refl refl

abbrev after_sending : FriendDb
after_sending = (send_friend_request friend_tables 1 2 strangers).1

abbrev sent : FriendRequest
sent = record { id = 1; sender_id = 1; recipient_id = 2; status = pending }

send_friend_request_lem_example :
    ((◌==◌ {A = ℕ} 1 2) ≡ false)
    × (count (blocks_between 1 2) strangers.blocked_users ≡ 0)
    × (sent.sender_id ≡ 1)
    × (sent.recipient_id ≡ 2)
    × (sent.status ≡ pending)
    × (after_sending.friends ≡ [])
    × (after_sending.blocked_users ≡ [])
    × IsStored friend_tables 1 2 sent strangers after_sending
unfolding send_friend_request
send_friend_request_lem_example =
    send_friend_request_lem friend_tables 1 2 strangers after_sending sent refl

abbrev after_accepting : FriendDb
after_accepting = (friend_request_action friend_tables 5 accepted 1 asked).1

remove_friend_lem_example :
    let s = (remove_friend friend_tables 2 1 asked).1 in
    (is_friend friend_tables 2 1 s ≡ false)
    × (count (friends_between 2 1) s.friends ≡ 0)
    × ((p : Friend → Bool)
        → count (λ f. not (friends_between 2 1 f) && p f) s.friends
          ≡ count (λ f. not (friends_between 2 1 f) && p f) asked.friends)
    × ((p : FriendRequest → Bool)
        → count (λ r. not (requests_between 2 1 r) && p r) s.friend_requests
          ≡ count (λ r. not (requests_between 2 1 r) && p r) asked.friend_requests)
unfolding remove_friend
remove_friend_lem_example =
    remove_friend_lem friend_tables 2 1 asked (remove_friend friend_tables 2 1 asked).1 refl

abbrev unblocked : FriendDb
unblocked = (unblock_user friend_tables 1 2 blocked).1
