-- ===== src/Messages/PinBounds.antt =====
-- What pins there are after any call: five in a chat at most, and no message twice in a chat.
use thunderchat_server.Base.{
  ℕ, ◌≤◌, ◌≡◌, sym, subst, ap, ◌∙◌, Bool, true, false, not, ◌||◌, none, some, List, ◌∷◌, arith, leb,
  inl, inr, count, filter, count-filter_le, nat_eq, nat_beq_iff, Option-cases, Bool-cases,
}
use thunderchat_server.Base.Action.{Result}
use thunderchat_server.Group.{Member, Permission}
use thunderchat_server.Group.Members.{find_member_in_group_chat}
use thunderchat_server.Group.Chats.{check_group_chat_permission, is_admin}
use thunderchat_server.Messages.{PinnedMessage, ChatDb, ChatClients}
use thunderchat_server.Messages.Pin.{
  PinResult, pin_or_unpin_message, pin_or_unpin_message_in_group_chat, direct_pin, in_direct_chat,
  group_pin, in_group_chat, new_pin, max_pinned_messages,
}

-- Five pins in a chat, and one of a message in a chat, at most.
abbrev pub IsValid : List PinnedMessage → Type 0
IsValid ps =
    ((d : ℕ) → count (in_direct_chat d) ps ≤ 5)
    × ((g : ℕ) → count (in_group_chat g) ps ≤ 5)
    × ((m d : ℕ) → count (direct_pin m d) ps ≤ 1)
    × ((m g : ℕ) → count (group_pin m g) ps ≤ 1)

-- What a call does to the pins.
data Change (this here : PinnedMessage → Bool) (mk : ℕ → PinnedMessage) (ps : List PinnedMessage)
    : List PinnedMessage → Type 0 where
  kept : (qs : List PinnedMessage) → qs ≡ ps → Change this here mk ps qs
  added :
      (id : ℕ)
      → (qs : List PinnedMessage) → qs ≡ mk id ∷ ps
      → count this ps ≡ 0
      → count here ps ≤ 4
      → Change this here mk ps qs
  removed :
      (qs : List PinnedMessage) → qs ≡ filter (λ p. not (this p)) ps → Change this here mk ps qs

less-IsValid :
    (p : PinnedMessage → Bool) (ps : List PinnedMessage) → IsValid ps → IsValid (filter p ps)
less-IsValid p ps (d, g, md, mg) = (
  λ c. omega (arith, count-filter_le p (in_direct_chat c) ps, d c),
  λ c. omega (arith, count-filter_le p (in_group_chat c) ps, g c),
  λ m c. omega (arith, count-filter_le p (direct_pin m c) ps, md m c),
  λ m c. omega (arith, count-filter_le p (group_pin m c) ps, mg m c),
)

direct-IsValid :
    (m d u : ℕ) (ps qs : List PinnedMessage)
    → IsValid ps
    → Change (direct_pin m d) (in_direct_chat d) (new_pin m (some d) none u) ps qs
    → IsValid qs
direct-IsValid m d u ps qs v (kept _ e) = subst IsValid (sym e) v
direct-IsValid m d u ps qs v (removed _ e) = subst IsValid (sym e) (less-IsValid _ ps v)
direct-IsValid m d u ps qs (vd, vg, vmd, vmg) (added id _ e this here) = subst IsValid (sym e) (
  λ c. ground (arith, vd c, nat_beq_iff d c),
  λ c. ground (arith, vg c),
  λ n c. ground (arith, vmd n c, nat_beq_iff d c, nat_beq_iff m n),
  λ n c. ground (arith, vmg n c),
)

group-IsValid :
    (m g u : ℕ) (ps qs : List PinnedMessage)
    → IsValid ps
    → Change (group_pin m g) (in_group_chat g) (new_pin m none (some g) u) ps qs
    → IsValid qs
group-IsValid m g u ps qs v (kept _ e) = subst IsValid (sym e) v
group-IsValid m g u ps qs v (removed _ e) = subst IsValid (sym e) (less-IsValid _ ps v)
group-IsValid m g u ps qs (vd, vg, vmd, vmg) (added id _ e this here) = subst IsValid (sym e) (
  λ c. ground (arith, vd c),
  λ c. ground (arith, vg c, nat_beq_iff g c),
  λ n c. ground (arith, vmd n c),
  λ n c. ground (arith, vmg n c, nat_beq_iff g c, nat_beq_iff m n),
)

module _ (db : ChatClients) where
  open db use {message, pinned_message, group_clients}

  direct-Change :
      (m d u : ℕ) (b : Bool) (s s' : ChatDb) (r : Result PinResult)
      → pin_or_unpin_message db m d u b s ≡ (r, s')
      → Change
          (direct_pin m d)
          (in_direct_chat d)
          (new_pin m (some d) none u)
          s.pinned_messages
          s'.pinned_messages
  unfolding pin_or_unpin_message
  direct-Change m d u true s s' r e =
      elim (Option-cases (pinned_message.find_first (direct_pin m d) s.pinned_messages)) [
        | inr (p, hit) ↦ kept _ (ground arith)
        | inl absent ↦
            elim (Bool-cases (
              leb max_pinned_messages
                (pinned_message.count (in_direct_chat d) s.pinned_messages))) [
                  | inl full ↦ kept _ (ground arith)
                  | inr room ↦
                      elim (Option-cases
                        (pinned_message.create (new_pin m (some d) none u) s.pinned_messages)) [
                          | inl failed ↦ kept _ (ground arith)
                          | inr ((p, ps), made) ↦
                              let (id, own, rows, _) =
                                pinned_message.create-some (new_pin m (some d) none u)
                                  s.pinned_messages p ps made in
                              let now : s'.pinned_messages ≡ ps = ground arith in
                              added id _ (now ∙ rows ∙ ap (λ q. q ∷ s.pinned_messages) own)
                                (pinned_message.find_first-none (direct_pin m d) s.pinned_messages
                                  absent)
                                (ground (
                                  arith,
                                  pinned_message.count_lem (in_direct_chat d) s.pinned_messages,
                                ))
                        ]
                ]
      ]
  direct-Change m d u false s s' r e =
      elim (Option-cases (pinned_message.delete_many (direct_pin m d) s.pinned_messages)) [
        | inl rejected ↦ kept _ (ground arith)
        | inr (ps, done) ↦
            let rows = pinned_message.delete_many-some (direct_pin m d) s.pinned_messages ps done in
            removed _ (ground (arith, rows))
      ]

  -- For a member who may pin.
  permitted :
      (m g u : ℕ) (b : Bool) (s s' : ChatDb) (r : Result PinResult) (x : Member)
      → find_member_in_group_chat group_clients g u s.group ≡ some x
      → (is_admin x.role
          || check_group_chat_permission group_clients g Permission.pin_message s.group)
        ≡ true
      → pin_or_unpin_message_in_group_chat db m g u b s ≡ (r, s')
      → Change
          (group_pin m g)
          (in_group_chat g)
          (new_pin m none (some g) u)
          s.pinned_messages
          s'.pinned_messages
  unfolding pin_or_unpin_message_in_group_chat
  permitted m g u true s s' r x inside may e =
      elim (Option-cases (pinned_message.find_first (group_pin m g) s.pinned_messages)) [
        | inr (p, hit) ↦ kept _ (ground arith)
        | inl absent ↦
            elim (Bool-cases (
              leb max_pinned_messages (pinned_message.count (in_group_chat g) s.pinned_messages))) [
                | inl full ↦ kept _ (ground arith)
                | inr room ↦
                    let mk = new_pin m none (some g) u in
                    elim (Option-cases (pinned_message.create mk s.pinned_messages)) [
                      | inl failed ↦ kept _ (ground arith)
                      | inr ((p, ps), made) ↦
                          let (id, own, rows, _) =
                            pinned_message.create-some mk s.pinned_messages p ps made in
                          let now : s'.pinned_messages ≡ ps = ground arith in
                          added id _ (now ∙ rows ∙ ap (λ q. q ∷ s.pinned_messages) own)
                            (pinned_message.find_first-none (group_pin m g) s.pinned_messages
                              absent)
                            (ground
                              (arith, pinned_message.count_lem (in_group_chat g) s.pinned_messages))
                    ]
              ]
      ]
  permitted m g u false s s' r x inside may e =
      elim (Option-cases (pinned_message.delete_many (group_pin m g) s.pinned_messages)) [
        | inl rejected ↦ kept _ (ground arith)
        | inr (ps, done) ↦
            let rows = pinned_message.delete_many-some (group_pin m g) s.pinned_messages ps done in
            removed _ (ground (arith, rows))
      ]

  group-Change :
      (m g u : ℕ) (b : Bool) (s s' : ChatDb) (r : Result PinResult)
      → pin_or_unpin_message_in_group_chat db m g u b s ≡ (r, s')
      → Change
          (group_pin m g)
          (in_group_chat g)
          (new_pin m none (some g) u)
          s.pinned_messages
          s'.pinned_messages
  unfolding pin_or_unpin_message_in_group_chat
  group-Change m g u b s s' r e =
      elim (Option-cases (find_member_in_group_chat group_clients g u s.group)) [
        | inl outside ↦ kept _ (ground arith)
        | inr (x, inside) ↦
            elim (Bool-cases (
              is_admin x.role
              || check_group_chat_permission group_clients g Permission.pin_message s.group)) [
                | inr refused ↦ kept _ (ground arith)
                | inl may ↦ permitted m g u b s s' r x inside may e
              ]
      ]

  -- Whatever a call to pin or unpin a message of a direct chat answers, it leaves at most five
  -- pins in each chat and at most one of each message in each chat, if it was so before.
  pub pin_or_unpin_message-IsValid :
      (m d u : ℕ) (b : Bool) (s s' : ChatDb) (r : Result PinResult)
      → IsValid s.pinned_messages
      → pin_or_unpin_message db m d u b s ≡ (r, s')
      → IsValid s'.pinned_messages
  pin_or_unpin_message-IsValid m d u b s s' r v e =
      direct-IsValid m d u s.pinned_messages s'.pinned_messages v (direct-Change m d u b s s' r e)

  -- Whatever a call to pin or unpin a message of a group chat answers, it leaves at most five pins
  -- in each chat and at most one of each message in each chat, if it was so before.
  pub pin_or_unpin_message_in_group_chat-IsValid :
      (m g u : ℕ) (b : Bool) (s s' : ChatDb) (r : Result PinResult)
      → IsValid s.pinned_messages
      → pin_or_unpin_message_in_group_chat db m g u b s ≡ (r, s')
      → IsValid s'.pinned_messages
  pin_or_unpin_message_in_group_chat-IsValid m g u b s s' r v e =
      group-IsValid m g u s.pinned_messages s'.pinned_messages v (group-Change m g u b s s' r e)
