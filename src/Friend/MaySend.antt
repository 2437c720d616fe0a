-- ===== src/Friend/MaySend.antt =====
-- Who may write to whom: `checkCanSendMessageInDirectChat` of messaging/messaging.gateway.ts, and
-- message/can-send-message.helper.ts, which asks the same of other tables.
use thunderchat_server.Base.{
  ℕ, Bool, false, not, Option, none, some, ◌==◌, if◌then◌else◌, is_some, nat_eq,
}
use thunderchat_server.Base.Action.{
  UserMessage, user_message, only_receive_friend_message, forbidden, Result, ok, err,
}
use thunderchat_server.Friend.{UserSettings, FriendDb, FriendClients, friends_between}
use thunderchat_server.Friend.Blocks.{check_blocked_user}
use thunderchat_server.Friend.Requests.{is_friend, blocked_is}

abbrev pub settings_of : ℕ → UserSettings → Bool
settings_of user_id x = x.user_id == user_id

-- `settings?.onlyReceiveFriendMessage`
abbrev only_friends : Option UserSettings → Bool
only_friends none = false
only_friends (some x) = x.only_receive_friend_message

-- The exceptions of the helper; the first two have texts of their own.
pub data HelperError : Type 0 where
  sender_id_not_valid receiver_id_not_valid friends_only : HelperError

module _ (db : FriendClients) where
  open db use {user_settings, friend}

  abbrev pub wants_only_friends : ℕ → FriendDb → Bool
  wants_only_friends user_id s =
      only_friends (user_settings.find_first (settings_of user_id) s.settings)

  unfoldable pub check_can_send_message_in_direct_chat : ℕ → ℕ → FriendDb → Result (Unit {0})
  unfolding is_friend check_blocked_user
  check_can_send_message_in_direct_chat client_id receiver_id s =
      let blocked = check_blocked_user db client_id receiver_id s in
      if wants_only_friends receiver_id s
      then (if is_friend db client_id receiver_id s
          then ok tt
          else err (forbidden only_receive_friend_message))
      else (if blocked_is client_id blocked
          then err (forbidden (user_message UserMessage.you_are_blocked_by_this_user))
          else (if blocked_is receiver_id blocked
              then err (forbidden (user_message UserMessage.you_have_blocked_this_user))
              else ok tt))

  -- `none` where the message may be sent.
  unfoldable pub can_send_direct_message : ℕ → ℕ → FriendDb → Option HelperError
  can_send_direct_message sender_id receiver_id s =
      if sender_id == 0
      then some sender_id_not_valid
      else (if receiver_id == 0
          then some receiver_id_not_valid
          else (if not (wants_only_friends receiver_id s)
              then none
              else (if is_some (friend.find_first (friends_between sender_id receiver_id) s.friends)
                  then none
                  else some friends_only)))
