-- ===== src/Friend/RequestLaws.antt =====
-- What a friend request that is sent or accepted has met and leaves.
use thunderchat_server.Base.{
  ℕ, ◌+◌, ◌≡◌, ◌⊎◌, refl, ap, sym, subst, ◌∙◌, true, false, ◌∷◌, arith, ◌==◌, inl, inr, count,
  nat_eq, nat_beq_iff, map, if◌then◌else◌, eq_refl, Option-cases,
}
use mathlib.Core.List.{Memᴰ}
use thunderchat_server.Base.Action.{ok}
use thunderchat_server.Base.Prisma.{mem-map_if}
use thunderchat_server.Friend.{
  RequestStatus, pending, accepted, rejected, FriendRequest, FriendDb, FriendClients,
  friends_between, blocks_between,
}
use thunderchat_server.Friend.Requests.{
  send_friend_request, friend_request_action, relates, has_id, new_request, renew_request, is_open,
  set_status, new_friend,
}

module _ (db : FriendClients) where
  open db use {friend_request, friend, blocked_user}

  -- The table holds the request: as a new row, or as the old one of the two, which was rejected.
  abbrev pub IsStored : ℕ → ℕ → FriendRequest → FriendDb → FriendDb → Type 0
  IsStored u v r s s' =
      Memᴰ r s'.friend_requests
      × ((s'.friend_requests ≡ r ∷ s.friend_requests)
          ⊎ ((old : FriendRequest) × Memᴰ old s.friend_requests
              × (relates u v old ≡ true)
              × (old.status ≡ rejected)
              × (s'.friend_requests
                  ≡ map (λ x. if x.id == old.id then renew_request u v pending x else x)
                      s.friend_requests)))

  was_rejected : (status : RequestStatus) → is_open status ≡ false → status ≡ rejected
  was_rejected pending h = absurd (ground arith)
  was_rejected accepted h = absurd (ground arith)
  was_rejected rejected h = refl

  -- The row that is written.
  written :
      (u v : ℕ) (s s' : FriendDb) (r : FriendRequest)
      → send_friend_request db u v s ≡ (ok r, s')
      → (r.sender_id ≡ u)
        × (r.recipient_id ≡ v)
        × (r.status ≡ pending)
        × (s'.friends ≡ s.friends)
        × (s'.blocked_users ≡ s.blocked_users)
        × IsStored u v r s s'
  unfolding send_friend_request
  written u v s s' r e =
      elim (Option-cases (friend_request.find_first (relates u v) s.friend_requests)) [
        | inl absent ↦
            elim (Option-cases (friend_request.create (new_request u v) s.friend_requests)) [
              | inl failed ↦ absurd (ground arith)
              | inr ((x, rs), made) ↦
                  let (id, own, more, _) =
                    friend_request.create-some (new_request u v) s.friend_requests x rs made in
                  let is : r ≡ new_request u v id = ground arith ∙ own in
                  let now : s'.friend_requests ≡ r ∷ s.friend_requests = ground (arith, more) in
                  (
                    rw is refl,
                    rw is refl,
                    rw is refl,
                    ground arith,
                    ground arith,
                    (subst (Memᴰ r) (sym now) (Memᴰ.head refl), inl now),
                  )
            ]
        | inr (old, hit) ↦
            elim (Option-cases (
              friend_request.update (has_id old.id) (renew_request u v pending)
                s.friend_requests)) [
                  | inl failed ↦ absurd (ground arith)
                  | inr ((x, rs), done) ↦
                      let (before, member, passes, new, all) =
                        friend_request.update-some (has_id old.id) (renew_request u v pending)
                          s.friend_requests x rs done in
                      let is : r ≡ renew_request u v pending before = ground arith ∙ new in
                      let now : s'.friend_requests
                          ≡ map (λ x. if has_id old.id x then renew_request u v pending x else x)
                              s.friend_requests =
                        ground (arith, all) in
                      let hit_facts = friend_request.find_first-some (relates u v) _ old hit in
                      (
                        rw is refl,
                        rw is refl,
                        rw is refl,
                        ground arith,
                        ground arith,
                        (
                          subst (Memᴰ r) (sym now) (
                              rw is (
                                mem-map_if (has_id old.id) (renew_request u v pending) passes
                                  member)),
                          inr (
                            old,
                            hit_facts.1,
                            hit_facts.0,
                            was_rejected old.status (ground arith),
                            now,
                          ),
                        ),
                      )
                ]
      ]

  -- A request that is sent goes from the sender to another user, with no block between the two, and
  -- waits for an answer. It stands in the table: as a row more, or in the place of a request
  -- between the two that was rejected, and no row with another id is changed. No friend and no block
  -- is changed either.
  pub send_friend_request_lem :
      (u v : ℕ) (s s' : FriendDb) (r : FriendRequest)
      → send_friend_request db u v s ≡ (ok r, s')
      → ((u == v) ≡ false)
        × (count (blocks_between u v) s.blocked_users ≡ 0)
        × (r.sender_id ≡ u)
        × (r.recipient_id ≡ v)
        × (r.status ≡ pending)
        × (s'.friends ≡ s.friends)
        × (s'.blocked_users ≡ s.blocked_users)
        × IsStored u v r s s'
  unfolding send_friend_request
  send_friend_request_lem u v s s' r e =
      elim (Option-cases (blocked_user.find_first (blocks_between u v) s.blocked_users)) [
        | inr (b, hit) ↦
            let (between, _) =
              blocked_user.find_first-some (blocks_between u v) s.blocked_users b hit in
            absurd
              (ground (arith, nat_beq_iff b.blocker_user_id u, nat_beq_iff b.blocked_user_id u))
        | inl clear ↦
            let (from, to, waits, fs, bs, stored) = written u v s s' r e in
            (
              ground arith,
              blocked_user.find_first-none (blocks_between u v) s.blocked_users clear,
              from,
              to,
              waits,
              fs,
              bs,
              stored,
            )
      ]

  -- An acceptance that succeeds is of a request in the table, whatever its status, and stores one
  -- more friendship between its two users.
  pub friend_request_action-accepted :
      (id u : ℕ) (s s' : FriendDb)
      → friend_request_action db id accepted u s ≡ (ok tt, s')
      → (r : FriendRequest) × Memᴰ r s.friend_requests
        × (r.id ≡ id)
        × (count (friends_between r.sender_id r.recipient_id) s'.friends
            ≡ count (friends_between r.sender_id r.recipient_id) s.friends + 1)
  unfolding friend_request_action
  friend_request_action-accepted id u s s' e =
      elim (Option-cases
        (friend_request.update (has_id id) (set_status accepted) s.friend_requests)) [
          | inl failed ↦ absurd (ground arith)
          | inr ((x, rs), done) ↦
              let (r, there, named, new, rows) =
                friend_request.update-some (has_id id) (set_status accepted) s.friend_requests x rs
                  done in
              elim (Option-cases (friend.create (new_friend db x) s.friends)) [
                | inl failed ↦ absurd (ground arith)
                | inr ((y, fs), made) ↦
                    let (row, own, more, _) =
                      friend.create-some (new_friend db x) s.friends y fs made in
                    let now : s'.friends ≡ new_friend db x row ∷ s.friends =
                      (ground arith ∙ more) ∙ ap (λ z. z ∷ s.friends) own in
                    (
                      r,
                      there,
                      ground (arith, nat_beq_iff r.id id),
                      rw (now, new) (ground (arith, eq_refl r.sender_id, eq_refl r.recipient_id)),
                    )
              ]
        ]
