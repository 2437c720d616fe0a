-- ===== src/Friend/Removal.antt =====
-- What ending a friendship and lifting a block take away, and what they leave.
use thunderchat_server.Base.{
  ℕ, ◌≤◌, ◌≡◌, refl, Bool, true, false, not, ◌&&◌, List, [], ◌∷◌, arith, ◌==◌, count, filter,
  count-filter-not, ◌&&◌, count-disjoint, nat_eq, Option-cases, inl, inr,
}
use thunderchat_server.Base.Action.{ok}
use thunderchat_server.Base.Prisma.{mem-count}
use thunderchat_server.Friend.{
  FriendRequest, Friend, BlockedUser, FriendDb, FriendClients, requests_between, friends_between,
  blocks_between, blocks,
}
use thunderchat_server.Friend.Blocks.{unblock_user, find_blocked_user}
use thunderchat_server.Friend.Requests.{find_by_ids, is_friend, remove_friend}

count-filter_self :
    {A : Type 0} (p : A → Bool) (xs : List A) → count p (filter (λ x. not (p x)) xs) ≡ 0
count-filter_self p [] = refl
count-filter_self p (x ∷ xs) = ground (arith, count-filter_self p xs)

-- A deletion takes what it names, and leaves what it does not.
deleted :
    {A : Type 0} (p : A → Bool) (xs ys : List A)
    → ys ≡ filter (λ x. not (p x)) xs
    → (count p ys ≡ 0)
      × ((q : A → Bool) → count (λ x. not (p x) && q x) ys ≡ count (λ x. not (p x) && q x) xs)
deleted {A = A} p xs ys e = (
  rw e (count-filter_self p xs),
  λ q.
      let others = λ (x : A). not (p x) && q x in
      rw e (
        omega
          (arith, count-filter-not others p xs, count-disjoint others p xs (λ x h. ground arith))),
)

module _ (db : FriendClients) where
  open db use {friend_request, friend, blocked_user}

  -- What the two deletions leave.
  removed :
      (u v : ℕ) (s s' : FriendDb)
      → remove_friend db u v s ≡ (ok tt, s')
      → (s'.friends ≡ filter (λ f. not (friends_between u v f)) s.friends)
        × (s'.friend_requests ≡ filter (λ r. not (requests_between u v r)) s.friend_requests)
  unfolding remove_friend
  removed u v s s' h = elim (Option-cases (friend.delete_many (friends_between u v) s.friends)) [
    | inl rejected ↦ absurd (ground arith)
    | inr (fs, done) ↦
        elim (Option-cases (friend_request.delete_many (requests_between u v) s.friend_requests)) [
          | inl rejected ↦ absurd (ground arith)
          | inr (rs, gone) ↦ (
            ground (arith, friend.delete_many-some (friends_between u v) s.friends fs done),
            ground (
              arith,
              friend_request.delete_many-some (requests_between u v) s.friend_requests rs gone,
            ),
          )
        ]
  ]

  -- After a friendship is ended without an error the test for friends fails for the two users, no
  -- friendship and no request stands between them in either order, and every other one is left.
  pub remove_friend_lem :
      (u v : ℕ) (s s' : FriendDb)
      → remove_friend db u v s ≡ (ok tt, s')
      → (is_friend db u v s' ≡ false)
        × (count (friends_between u v) s'.friends ≡ 0)
        × ((p : Friend → Bool)
            → count (λ f. not (friends_between u v f) && p f) s'.friends
              ≡ count (λ f. not (friends_between u v f) && p f) s.friends)
        × ((p : FriendRequest → Bool)
            → count (λ r. not (requests_between u v r) && p r) s'.friend_requests
              ≡ count (λ r. not (requests_between u v r) && p r) s.friend_requests)
  unfolding remove_friend is_friend find_by_ids
  remove_friend_lem u v s s' h =
      let (friends, requests) = removed u v s s' h in
      let (no_friend, other_friends) = deleted (friends_between u v) s.friends s'.friends friends in
      let (no_request, other_requests) =
        deleted (requests_between u v) s.friend_requests s'.friend_requests requests in
      (
        elim (Option-cases (find_by_ids db u v s')) [
          | inl e ↦ ground arith
          | inr (r, e) ↦
              let (passes, there) = friend_request.find_first-some (requests_between u v) _ r e in
              absurd (omega (arith, mem-count (requests_between u v) there passes))
        ],
        no_friend,
        other_friends,
        other_requests,
      )

  -- A call to lift a block that succeeds finds a block by that user of the other and leaves none,
  -- and leaves every other block as it was.
  pub unblock_user_lem :
      (u v : ℕ) (s s' : FriendDb)
      → unblock_user db u v s ≡ (ok tt, s')
      → (1 ≤ count (blocks u v) s.blocked_users)
        × (count (blocks u v) s'.blocked_users ≡ 0)
        × ((p : BlockedUser → Bool)
            → count (λ b. not (blocks u v b) && p b) s'.blocked_users
              ≡ count (λ b. not (blocks u v b) && p b) s.blocked_users)
  unfolding unblock_user find_blocked_user
  unblock_user_lem u v s s' e =
      elim (Option-cases (blocked_user.find_first (blocks_between u v) s.blocked_users)) [
        | inl hit ↦ absurd (ground arith)
        | inr (b, hit) ↦
            let (passes, there) =
              blocked_user.find_first-some (blocks_between u v) s.blocked_users b hit in
            let own : (b.blocker_user_id == u) ≡ true = ground arith in
            elim (Option-cases (blocked_user.delete_many (blocks u v) s.blocked_users)) [
              | inl rejected ↦ absurd (ground arith)
              | inr (bs, done) ↦
                  let (gone, others) = deleted (blocks u v) s.blocked_users s'.blocked_users (
                    ground (
                      arith,
                      blocked_user.delete_many-some (blocks u v) s.blocked_users bs done,
                    )) in
                  (mem-count (blocks u v) there (ground arith), gone, others)
            ]
      ]
