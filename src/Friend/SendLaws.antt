-- ===== src/Friend/SendLaws.antt =====
-- Exactly who passes the test of the gateway, and where it differs from the helper's.
use thunderchat_server.Base.{
  ℕ, ◌≤◌, ◌≡◌, ◌↔◌, ◌⊎◌, Bool, true, false, none, some, List, arith, ◌==◌, is_some, count, nat_eq,
  Option-cases, Bool-cases, inl, inr,
}
use mathlib.Core.List.{Memᴰ}
use thunderchat_server.Base.Prisma.{Client, mem-count}
use thunderchat_server.Base.Action.{ok}
use thunderchat_server.Friend.{
  FriendRequest, BlockedUser, FriendDb, FriendClients, requests_between, friends_between,
  blocks_between,
}
use thunderchat_server.Friend.Blocks.{check_blocked_user}
use thunderchat_server.Friend.Requests.{is_friend}
use thunderchat_server.Friend.MaySend.{
  wants_only_friends, check_can_send_message_in_direct_chat, can_send_direct_message, friends_only,
}

-- A query for the first row finds one exactly when there is one.
find_first-count :
    {R : Type 0} {clash : R → R → Bool} (c : Client R clash) (p : R → Bool) (rs : List R)
    → (is_some (c.find_first p rs) ≡ true) ↔ (1 ≤ count p rs)
find_first-count c p rs = elim (Option-cases (c.find_first p rs)) [
  | inl e ↦ (λ h. absurd (ground arith), λ h. absurd (omega (arith, c.find_first-none p rs e)))
  | inr (r, e) ↦
      let (passes, there) = c.find_first-some p rs r e in
      (λ h. mem-count p there passes, λ h. ground arith)
]

-- The message may be sent: to a receiver who wants only friends if a request stands between the
-- two, and to any other receiver if neither has blocked the other.
abbrev pub MaySend : FriendClients → ℕ → ℕ → FriendDb → Type 0
MaySend db u v s =
    ((wants_only_friends db v s ≡ true) × (1 ≤ count (requests_between u v) s.friend_requests))
    ⊎ ((wants_only_friends db v s ≡ false) × (count (blocks_between u v) s.blocked_users ≡ 0))

module _ (db : FriendClients) where
  open db use {friend_request, friend, blocked_user}

  block_of :
      (u v : ℕ) (s : FriendDb)
      → (check_blocked_user db u v s ≡ none) × (count (blocks_between u v) s.blocked_users ≡ 0)
        ⊎ ((b : BlockedUser) × (check_blocked_user db u v s ≡ some b)
            × (blocks_between u v b ≡ true)
            × (1 ≤ count (blocks_between u v) s.blocked_users))
  unfolding check_blocked_user
  block_of u v s =
      elim (Option-cases (blocked_user.find_first (blocks_between u v) s.blocked_users)) [
        | inl e ↦ inl (e, blocked_user.find_first-none (blocks_between u v) s.blocked_users e)
        | inr (b, e) ↦
            let (passes, there) =
              blocked_user.find_first-some (blocks_between u v) s.blocked_users b e in
            inr (b, e, passes, mem-count (blocks_between u v) there passes)
      ]

  friend_of :
      (u v : ℕ) (s : FriendDb)
      → (is_friend db u v s ≡ true) ↔ (1 ≤ count (requests_between u v) s.friend_requests)
  unfolding is_friend
  friend_of u v s = find_first-count friend_request (requests_between u v) s.friend_requests

  -- The gateway lets a direct message pass exactly where the receiver wants messages of friends
  -- only and a request of any status stands between the two users, or does not want that and
  -- neither has blocked the other.
  pub check_can_send_message_in_direct_chat_iff :
      (u v : ℕ) (s : FriendDb)
      → (check_can_send_message_in_direct_chat db u v s ≡ ok tt) ↔ MaySend db u v s
  unfolding check_can_send_message_in_direct_chat
  check_can_send_message_in_direct_chat_iff u v s = elim (Bool-cases (wants_only_friends db v s)) [
    | inl only ↦ (
      λ h. inl (only, (friend_of u v s).0 (ground arith)),
      elim [ inl (_, there) ↦ ground (arith, (friend_of u v s).1 there) | inr (any, _) ↦ cc ],
    )
    | inr any ↦ elim (block_of u v s) [
      | inl (e, clear) ↦ (λ h. inr (any, clear), λ h. ground arith)
      | inr (b, e, between, there) ↦ (
        λ h. absurd (ground arith),
        elim [ inl (only, _) ↦ cc | inr (_, clear) ↦ absurd (omega arith) ],
      )
    ]
  ]

  -- Between two users whose ids are not 0, of whom the receiver wants messages of friends only,
  -- any request in the table makes the gateway let a message pass although no friendship is
  -- stored; the helper refuses the same message.
  pub stranger_may_send :
      (u v : ℕ) (r : FriendRequest) (s : FriendDb)
      → (u == 0) ≡ false
      → (v == 0) ≡ false
      → wants_only_friends db v s ≡ true
      → Memᴰ r s.friend_requests
      → requests_between u v r ≡ true
      → count (friends_between u v) s.friends ≡ 0
      → (check_can_send_message_in_direct_chat db u v s ≡ ok tt)
        × (can_send_direct_message db u v s ≡ some friends_only)
  unfolding can_send_direct_message
  stranger_may_send u v r s pu pv only there between alone = (
    (check_can_send_message_in_direct_chat_iff u v s).1
        (inl (only, mem-count (requests_between u v) there between)),
    elim (Option-cases (friend.find_first (friends_between u v) s.friends)) [
      | inl e ↦ ground arith
      | inr (f, e) ↦
          let (passes, is) = friend.find_first-some (friends_between u v) s.friends f e in
          absurd (omega (arith, mem-count (friends_between u v) is passes))
    ],
  )
