-- ===== src/Friend/Blocks.antt =====
-- user/block-user.service.ts.
use thunderchat_server.Base.{ℕ, not, Option, none, some, List, ◌==◌, nat_eq}
use thunderchat_server.Base.Action.{
  UserMessage, user_message, bad_request, Action, pure, throw, gets, query, throw_if, ◌>>=◌, ◌>>◌,
}
use thunderchat_server.Friend.{BlockedUser, FriendDb, FriendClients, blocks, blocks_between}

abbrev new_block : ℕ → ℕ → ℕ → BlockedUser
new_block blocker_user_id blocked_user_id id = record {
  id = id;
  blocker_user_id = blocker_user_id;
  blocked_user_id = blocked_user_id;
}

abbrev with_blocks : {A : Type 0} → Option (A × List BlockedUser) → FriendDb → Option (A × FriendDb)
with_blocks none s = none
with_blocks (some (a, bs)) s = some (a, record s { blocked_users = bs })

abbrev with_all_blocks : Option (List BlockedUser) → FriendDb → Option (Unit {0} × FriendDb)
with_all_blocks none s = none
with_all_blocks (some bs) s = some (tt, record s { blocked_users = bs })

abbrev or_user_not_found : Option BlockedUser → Action FriendDb BlockedUser
or_user_not_found none = throw (bad_request (user_message UserMessage.user_not_found))
or_user_not_found (some b) = pure b

module _ (db : FriendClients) where
  open db use {blocked_user}

  unfoldable pub find_blocked_user : ℕ → ℕ → FriendDb → Option BlockedUser
  find_blocked_user user_id other_user_id s =
      blocked_user.find_first (blocks_between user_id other_user_id) s.blocked_users

  -- With the profiles of the two users, which are left out.
  unfoldable pub check_blocked_user : ℕ → ℕ → FriendDb → Option BlockedUser
  check_blocked_user blocker_id blocked_id s =
      blocked_user.find_first (blocks_between blocker_id blocked_id) s.blocked_users

  unfoldable pub block_user : ℕ → ℕ → Action FriendDb BlockedUser
  block_user blocker_user_id blocked_user_id = query (λ s.
      with_blocks (blocked_user.create (new_block blocker_user_id blocked_user_id) s.blocked_users)
        s)

  unfoldable pub unblock_user : ℕ → ℕ → Action FriendDb (Unit {0})
  unfolding find_blocked_user
  unblock_user blocker_id other_user_id = do
    found ← gets (find_blocked_user blocker_id other_user_id)
    b ← or_user_not_found found
    throw_if (not (b.blocker_user_id == blocker_id))
        (bad_request (user_message UserMessage.you_are_not_blocker))
    query (λ s.
        with_all_blocks (blocked_user.delete_many (blocks blocker_id other_user_id) s.blocked_users)
          s)
