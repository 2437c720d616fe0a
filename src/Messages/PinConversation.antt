-- ===== src/Messages/PinConversation.antt =====
-- pin-conversation/pin-conversation.service.ts: the chats that a user has pinned.
use thunderchat_server.Base.{
  ℕ, ◌≤◌, ◌<◌, ◌≡◌, refl, ap, ◌∙◌, Bool, true, false, not, ◌&&◌, Option, none, some, List, ◌∷◌,
  arith, ◌==◌, leb, if◌then◌else◌, ◌⊎◌, inl, inr, count, count-filter_le, count-filter-not, filter,
  nat_eq, nat_beq_iff, eq_refl, Option-cases,
}
use thunderchat_server.Base.Prisma.{Client, mem-count}
use thunderchat_server.Base.Action.{
  PinConversationMessage, pin_conversation_message, bad_request, ok, Action, gets, query, throw_if,
  ◌>>=◌, ◌>>◌,
}
use thunderchat_server.Messages.{is_id}

pub record PinnedChat : Type 0 where
  pub id : ℕ
  pub direct_chat_id : Option ℕ
  pub group_chat_id : Option ℕ
  pub pinned_by : ℕ

-- `id Int @id`
abbrev pub same_id : PinnedChat → PinnedChat → Bool
same_id a b = a.id == b.id

abbrev pub max_pinned_chats : ℕ
max_pinned_chats = 5

-- `!id`
abbrev falsy : Option ℕ → Bool
falsy none = true
falsy (some id) = id == 0

-- `...(id && { column: id })`: a condition on the column where the id is given.
abbrev matches : Option ℕ → Option ℕ → Bool
matches column none = true
matches column (some id) = if id == 0 then true else is_id column id

abbrev pub pinned_by_user : ℕ → PinnedChat → Bool
pinned_by_user user_id p = p.pinned_by == user_id

abbrev pub is_pin_of : ℕ → Option ℕ → Option ℕ → PinnedChat → Bool
is_pin_of user_id direct_chat_id group_chat_id p =
    matches p.direct_chat_id direct_chat_id
    && matches p.group_chat_id group_chat_id
    && pinned_by_user user_id p

abbrev given : Option ℕ → Option ℕ
given none = none
given (some id) = if id == 0 then none else some id

abbrev pub new_pinned_chat : ℕ → Option ℕ → Option ℕ → ℕ → PinnedChat
new_pinned_chat user_id direct_chat_id group_chat_id id = record {
  id = id;
  direct_chat_id = given direct_chat_id;
  group_chat_id = given group_chat_id;
  pinned_by = user_id;
}

abbrev deleted : Option (List PinnedChat) → Option (Bool × List PinnedChat)
deleted none = none
deleted (some ps) = some (false, ps)

abbrev created : Option (PinnedChat × List PinnedChat) → Option (Bool × List PinnedChat)
created none = none
created (some (_, ps)) = some (true, ps)

matches-given : (d : Option ℕ) → matches (given d) d ≡ true
matches-given none = refl
matches-given (some k) = ground (arith, eq_refl k)

new_is_pin : (u : ℕ) (d g : Option ℕ) (id : ℕ) → is_pin_of u d g (new_pinned_chat u d g id) ≡ true
new_is_pin u d g id = ground (arith, eq_refl u, matches-given d, matches-given g)

-- The state is the table; the answer is whether the chat is pinned now.
module _ (pinned_chat : Client PinnedChat same_id) where
  abbrev pin_chat : ℕ → Option ℕ → Option ℕ → Action (List PinnedChat) Bool
  pin_chat user_id direct_chat_id group_chat_id = do
    n ← gets (λ s. pinned_chat.count (pinned_by_user user_id) s)
    throw_if (leb max_pinned_chats n)
        (bad_request (pin_conversation_message PinConversationMessage.max_pinned_chats_reached))
    query
        (λ s. created (pinned_chat.create (new_pinned_chat user_id direct_chat_id group_chat_id) s))

  abbrev toggle : ℕ → Option ℕ → Option ℕ → Option PinnedChat → Action (List PinnedChat) Bool
  toggle user_id direct_chat_id group_chat_id none = pin_chat user_id direct_chat_id group_chat_id
  toggle user_id direct_chat_id group_chat_id (some p) =
      query (λ s. deleted (pinned_chat.delete (λ q. q.id == p.id) s))

  unfoldable pub toggle_pin_conversation : ℕ → Option ℕ → Option ℕ → Action (List PinnedChat) Bool
  toggle_pin_conversation user_id direct_chat_id group_chat_id = do
    throw_if (not (falsy direct_chat_id) && not (falsy group_chat_id)) (
        bad_request (
          pin_conversation_message PinConversationMessage.cannot_pin_or_unpin_direct_or_group_chat))
    throw_if (falsy direct_chat_id && falsy group_chat_id)
        (bad_request (pin_conversation_message PinConversationMessage.invalid_params))
    found ← gets (pinned_chat.find_first (is_pin_of user_id direct_chat_id group_chat_id))
    toggle user_id direct_chat_id group_chat_id found

  unfoldable pub get_pinned_chats_by_user : ℕ → List PinnedChat → List PinnedChat
  get_pinned_chats_by_user user_id = pinned_chat.find_many (pinned_by_user user_id)

  -- If no user has more than five pinned chats, none has after a call that succeeds, and its
  -- answer says what it did: a chat that the user had not pinned is pinned once, or there are
  -- fewer pins of the chat by the user than before.
  pub toggle_pin_conversation_lem :
      (u : ℕ) (d g : Option ℕ) (s s' : List PinnedChat) (b : Bool)
      → ((v : ℕ) → count (pinned_by_user v) s ≤ 5)
      → toggle_pin_conversation u d g s ≡ (ok b, s')
      → ((v : ℕ) → count (pinned_by_user v) s' ≤ 5)
        × ((b ≡ true) × (count (is_pin_of u d g) s ≡ 0) × (count (is_pin_of u d g) s' ≡ 1)
            ⊎ (b ≡ false) × (count (is_pin_of u d g) s' < count (is_pin_of u d g) s))
  unfolding toggle_pin_conversation
  toggle_pin_conversation_lem u d g s s' b few e =
      elim (Option-cases (pinned_chat.find_first (is_pin_of u d g) s)) [
        | inl absent ↦
            let mk = new_pinned_chat u d g in
            elim (Option-cases (pinned_chat.create mk s)) [
              | inl failed ↦ absurd (ground arith)
              | inr ((p, ps), made) ↦
                  let (id, own, rows, _) = pinned_chat.create-some mk s p ps made in
                  let now : s' ≡ mk id ∷ s = (ground arith ∙ rows) ∙ ap (λ q. q ∷ s) own in
                  let room : count (pinned_by_user u) s ≤ 4 =
                    ground (arith, pinned_chat.count_lem (pinned_by_user u) s) in
                  let before = pinned_chat.find_first-none (is_pin_of u d g) s absent in
                  (
                    λ v. rw now (ground (arith, few v, nat_beq_iff u v)),
                    inl (ground arith, before, rw now (ground (arith, new_is_pin u d g id))),
                  )
            ]
        | inr (p, hit) ↦
            let (passes, there) = pinned_chat.find_first-some (is_pin_of u d g) s p hit in
            let own = λ (q : PinnedChat). q.id == p.id in
            elim (Option-cases (pinned_chat.delete own s)) [
              | inl failed ↦ absurd (ground arith)
              | inr (ps, gone) ↦
                  let (_, rows) = pinned_chat.delete-some own s ps gone in
                  let now : s' ≡ filter (λ q. not (own q)) s = ground arith ∙ rows in
                  (
                    λ v. rw now (
                        omega
                          (arith, few v, count-filter_le (λ q. not (own q)) (pinned_by_user v) s)),
                    inr (
                      ground arith,
                      rw now (
                          omega (
                            arith,
                            count-filter-not (is_pin_of u d g) own s,
                            mem-count (λ q. own q && is_pin_of u d g q) there
                                (ground (arith, eq_refl p.id)),
                          )),
                    ),
                  )
            ]
      ]
