-- ===== src/Base/Action.antt =====
-- Service calls: a state and exceptions. What was written before an exception stays written, so
-- the state comes back with it. The messages are those of the source's enums.
use mathlib.Core.Path.{◌≡◌, refl}
use mathlib.Core.Logic.{◌⊎◌, inl, inr}
use mathlib.Core.Bool.{Bool}
use native.Mathlib.Omega.{arith}
use mathlib.Core.Option.{Option, none, some}
use thunderchat_server.Base.Tests.{if◌then◌else◌}

pub data CallMessage : Type 0 where
  invalid_status session_not_found something_went_wrong : CallMessage

pub data GroupMemberMessage : Type 0 where
  members_already_in_group_chat failed_to_remove_member max_add_member_at_once : GroupMemberMessage
  max_add_member_total min_member_in_group_chat : GroupMemberMessage
  admin_cannot_leave_group_chat user_has_no_permission_send_message : GroupMemberMessage
  user_has_no_permission_pin_message user_not_in_group_chat : GroupMemberMessage
  member_info_not_found user_already_a_member_of_group : GroupMemberMessage

pub data GroupChatMessage : Type 0 where
  member_not_found invalid_invite_link group_chat_not_found : GroupChatMessage
  user_already_in_group_chat group_chat_permission_not_found : GroupChatMessage
  user_has_no_permission_update_group_chat : GroupChatMessage
  user_already_has_requested_to_join_group group_name_too_short : GroupChatMessage
  group_members_too_few : GroupChatMessage

pub data RoleMessage : Type 0 where
  member_has_no_permission group_chat_id_is_not_valid group_chat_id_not_found : RoleMessage

pub data PinMessage : Type 0 where
  cannot_pin_more_than_5_messages message_already_pinned invalid_params : PinMessage

pub data PinConversationMessage : Type 0 where
  cannot_pin_or_unpin_direct_or_group_chat invalid_params : PinConversationMessage
  max_pinned_chats_reached : PinConversationMessage

pub data FriendRequestMessage : Type 0 where
  sender_not_found invitation_sent_before send_to_myself : FriendRequestMessage
  friend_request_not_found : FriendRequestMessage

pub data UserMessage : Type 0 where
  user_not_found you_are_blocked_by_this_user you_have_blocked_this_user : UserMessage
  you_are_not_blocker : UserMessage

pub data GatewayMessage : Type 0 where
  sender_not_found invalid_message_format invalid_message_type user_not_in_group_chat :
      GatewayMessage

pub data AuthMessage : Type 0 where
  user_existed incorrect_email_password invalid_admin_credentials : AuthMessage

-- Texts that user/user.service.ts writes out where it throws.
pub data PasswordMessage : Type 0 where
  otp_invalid_or_expired otp_attempts_exceeded reset_token_invalid_or_expired : PasswordMessage
  user_not_found old_password_incorrect : PasswordMessage

-- Texts that the upload services write out where they throw, and the errors of what they call.
pub data UploadMessage : Type 0 where
  bucket_not_set file_type_not_allowed file_size_exceeds_limit unknown_file_type : UploadMessage
  failed_to_create_thumbnail object_key_not_found file_not_readable : UploadMessage
  download_failed screenshot_failed s3_error : UploadMessage

pub data UserReportMessage : Type 0 where
  message_not_found upload_failed file_not_found media_upload_failed : UserReportMessage
  file_path_required upload_timeout content_required no_url_returned : UserReportMessage

-- One constructor for each enum of messages.
pub data Message : Type 0 where
  call_message : CallMessage → Message
  group_member_message : GroupMemberMessage → Message
  group_chat_message : GroupChatMessage → Message
  role_message : RoleMessage → Message
  pin_message : PinMessage → Message
  pin_conversation_message : PinConversationMessage → Message
  friend_request_message : FriendRequestMessage → Message
  user_message : UserMessage → Message
  gateway_message : GatewayMessage → Message
  auth_message : AuthMessage → Message
  password_message : PasswordMessage → Message
  upload_message : UploadMessage → Message
  user_report_message : UserReportMessage → Message
  only_receive_friend_message message_overlaps account_banned : Message

-- The exception classes of Nest; `plain` is an `Error`, `db_error` is a rejected promise of the
-- Prisma client, and `system_error` a `SystemException`.
pub data Exception : Type 0 where
  bad_request not_found forbidden unauthorized conflict bad_gateway internal ws plain :
      Message → Exception
  internal_error db_error system_error : Exception

pub data Result {ℓ} (A : Type ℓ) : Type ℓ where
  ok : A → Result A
  err : Exception → Result A

pub Result-cases {ℓ} :
    {A : Type ℓ} (r : Result A) → ((a : A) × (r ≡ ok a)) ⊎ ((e : Exception) × (r ≡ err e))
Result-cases (ok a) = inl (a, refl)
Result-cases (err e) = inr (e, refl)

abbrev pub Action : Type 0 → Type 0 → Type 0
Action S A = S → Result A × S

module _ {S A : Type 0} where
  abbrev pub pure : A → Action S A
  pure a s = (ok a, s)

  abbrev pub throw : Exception → Action S A
  throw e s = (err e, s)

  abbrev pub gets : (S → A) → Action S A
  gets f s = (ok (f s), s)

  -- A query of the Prisma client that changes the state, or is rejected.
  abbrev pub query : (S → Option (A × S)) → Action S A
  query q s = elim (q s) [ none ↦ (err db_error, s) | some (a, s') ↦ (ok a, s') ]

infixl 5 ◌>>=◌ ◌>>◌
abbrev pub ◌>>=◌ : {S A B : Type 0} → Action S A → (A → Action S B) → Action S B
◌>>=◌ m f s = let (r, s') = m s in elim r [ ok a ↦ f a s' | err e ↦ (err e, s') ]

abbrev pub ◌>>◌ : {S A B : Type 0} → Action S A → Action S B → Action S B
m >> k = m >>= λ _. k

abbrev pub modify : {S : Type 0} → (S → S) → Action S (Unit {0})
modify f s = (ok tt, f s)

abbrev pub throw_if : {S : Type 0} → Bool → Exception → Action S (Unit {0})
throw_if c e s = (if c then err e else ok tt, s)

-- `try { m } catch (e) { h(e) }`: what m wrote before it threw stays written.
abbrev pub catch : {S A : Type 0} → Action S A → (Exception → Action S A) → Action S A
catch m h s = let (r, s') = m s in elim r [ ok a ↦ (ok a, s') | err e ↦ h e s' ]

-- A chain that succeeds is one whose parts do.
pub bind_ok :
    {S A B : Type 0} (m : Action S A) (f : A → Action S B) (s s' : S) (b : B)
    → (m >>= f) s ≡ (ok b, s')
    → (a : A) × (t : S) × (m s ≡ (ok a, t)) × (f a t ≡ (ok b, s'))
bind_ok m f s s' b h = go (m s) refl
  where
    go : (r : Result _ × _) → m s ≡ r → (a : _) × (t : _) × (m s ≡ (ok a, t)) × (f a t ≡ (ok b, s'))
    go (ok a, t) e = (a, t, e, ground arith)
    go (err x, t) e = absurd (ground arith)

module _ {S A B : Type 0} (m : Action S A) (f : A → Action S B) (s t : S) where
  pub bind-of_ok : (a : A) → m s ≡ (ok a, t) → (m >>= f) s ≡ f a t
  bind-of_ok a h = ground arith

  pub bind-of_err : (e : Exception) → m s ≡ (err e, t) → (m >>= f) s ≡ (err e, t)
  bind-of_err e h = ground arith
