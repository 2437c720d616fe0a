-- ===== src/Friend/Requests.antt =====
-- friend-request/friend-request.service.ts, and of friend/friend.service.ts the calls that test
-- and end a friendship.
use thunderchat_server.Base.{
  ℕ, Bool, true, false, not, ◌&&◌, ◌||◌, Option, none, some, List, ◌==◌, is_some, nat_eq,
}
use thunderchat_server.Base.Action.{
  UserMessage, user_message, FriendRequestMessage, friend_request_message, bad_request, Action,
  pure, gets, query, modify, throw_if, ◌>>=◌, ◌>>◌,
}
use thunderchat_server.Friend.{
  RequestStatus, pending, accepted, rejected, FriendRequest, Friend, BlockedUser, FriendDb,
  FriendClients, requests_between, friends_between, emit, sends_friend_request,
  acts_on_friend_request,
}
use thunderchat_server.Friend.Blocks.{check_blocked_user}

abbrev pub is_one_of_two : ℕ → ℕ → ℕ → Bool
is_one_of_two u v w = w == u || w == v

-- Sender and recipient are both among the two users.
abbrev pub relates : ℕ → ℕ → FriendRequest → Bool
relates u v r = is_one_of_two u v r.sender_id && is_one_of_two u v r.recipient_id

abbrev pub has_id : ℕ → FriendRequest → Bool
has_id id r = r.id == id

abbrev pub new_request : ℕ → ℕ → ℕ → FriendRequest
new_request sender_id recipient_id id = record {
  id = id;
  sender_id = sender_id;
  recipient_id = recipient_id;
  status = pending;
}

abbrev pub renew_request : ℕ → ℕ → RequestStatus → FriendRequest → FriendRequest
renew_request sender_id recipient_id status r = record r {
  sender_id = sender_id;
  recipient_id = recipient_id;
  status = status;
}

abbrev pub with_requests :
    {A : Type 0} → Option (A × List FriendRequest) → FriendDb → Option (A × FriendDb)
with_requests none s = none
with_requests (some (a, rs)) s = some (a, record s { friend_requests = rs })

abbrev without_answer : {R : Type 0} → Option (List R) → Option (Unit {0} × List R)
without_answer none = none
without_answer (some rs) = some (tt, rs)

abbrev with_friends : {A : Type 0} → Option (A × List Friend) → FriendDb → Option (A × FriendDb)
with_friends none s = none
with_friends (some (a, fs)) s = some (a, record s { friends = fs })

abbrev pub blocked_is : ℕ → Option BlockedUser → Bool
blocked_is u none = false
blocked_is u (some b) = b.blocked_user_id == u

abbrev pub blocker_is : ℕ → Option BlockedUser → Bool
blocker_is u none = false
blocker_is u (some b) = b.blocker_user_id == u

abbrev pub is_open : RequestStatus → Bool
is_open pending = true
is_open accepted = true
is_open rejected = false

abbrev pub set_status : RequestStatus → FriendRequest → FriendRequest
set_status status r = record r { status = status }

module _ (db : FriendClients) where
  open db use {friend_request, friend, user}

  unfoldable pub find_sent_friend_request : ℕ → ℕ → FriendDb → Option FriendRequest
  find_sent_friend_request sender_id recipient_id s =
      friend_request.find_first (relates sender_id recipient_id) s.friend_requests

  unfoldable pub check_blocked : ℕ → ℕ → Action FriendDb (Unit {0})
  unfolding check_blocked_user
  check_blocked sender_id recipient_id = do
    blocked ← gets (check_blocked_user db sender_id recipient_id)
    throw_if (blocked_is sender_id blocked)
        (bad_request (user_message UserMessage.you_are_blocked_by_this_user))
    throw_if (blocker_is sender_id blocked)
        (bad_request (user_message UserMessage.you_have_blocked_this_user))

  -- A new request, or the old one made to go from the sender to the recipient again.
  abbrev pub write_request : ℕ → ℕ → Option FriendRequest → Action FriendDb FriendRequest
  write_request sender_id recipient_id none = query (λ s.
      with_requests (friend_request.create (new_request sender_id recipient_id) s.friend_requests)
        s)
  write_request sender_id recipient_id (some existing) = do
    throw_if (is_open existing.status)
        (bad_request (friend_request_message FriendRequestMessage.invitation_sent_before))
    query (λ s.
        with_requests
          (friend_request.update (has_id existing.id) (renew_request sender_id recipient_id pending)
            s.friend_requests)
          s)

  unfoldable pub send_friend_request : ℕ → ℕ → Action FriendDb FriendRequest
  unfolding check_blocked find_sent_friend_request
  send_friend_request sender_id recipient_id = do
    throw_if (sender_id == recipient_id)
        (bad_request (friend_request_message FriendRequestMessage.send_to_myself))
    check_blocked sender_id recipient_id
    existing ← gets (find_sent_friend_request sender_id recipient_id)
    request ← write_request sender_id recipient_id existing
    sender ← gets (λ s. user.find_first (λ u. u == sender_id) s.users)
    throw_if (not (is_some sender))
        (bad_request (friend_request_message FriendRequestMessage.sender_not_found))
    modify (emit (sends_friend_request recipient_id sender_id request))
    pure request

  abbrev pub write_status : ℕ → RequestStatus → Action FriendDb FriendRequest
  write_status request_id status = query (λ s.
      with_requests
        (friend_request.update (has_id request_id) (set_status status) s.friend_requests) s)

  abbrev pub new_friend : FriendRequest → ℕ → Friend
  new_friend r id = record { id = id; sender_id = r.sender_id; recipient_id = r.recipient_id }

  -- The two queries of an acceptance do not use the transaction that they stand in: the first is
  -- kept if the second is rejected.
  abbrev pub act : ℕ → RequestStatus → Action FriendDb (Unit {0})
  act request_id accepted = do
    request ← write_status request_id accepted
    query (λ s. with_friends (friend.create (new_friend request) s.friends) s)
    pure tt
  act request_id rejected = do write_status request_id rejected; pure tt
  act request_id pending = pure tt

  unfoldable pub friend_request_action : ℕ → RequestStatus → ℕ → Action FriendDb (Unit {0})
  friend_request_action request_id action sender_id = do
    act request_id action
    modify (emit (acts_on_friend_request sender_id request_id action))

  -- The test of `FriendService`: it looks for a request between the two.
  unfoldable pub find_by_ids : ℕ → ℕ → FriendDb → Option FriendRequest
  find_by_ids user_id friend_id s =
      friend_request.find_first (requests_between user_id friend_id) s.friend_requests

  unfoldable pub is_friend : ℕ → ℕ → FriendDb → Bool
  unfolding find_by_ids
  is_friend user_id friend_id s = is_some (find_by_ids user_id friend_id s)

  unfoldable pub remove_friend : ℕ → ℕ → Action FriendDb (Unit {0})
  remove_friend user_id friend_id = do
    query (λ s.
        with_friends
          (without_answer (friend.delete_many (friends_between user_id friend_id) s.friends)) s)
    query (λ s.
        with_requests
          (without_answer
            (friend_request.delete_many (requests_between user_id friend_id) s.friend_requests))
          s)
