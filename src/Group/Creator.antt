-- ===== src/Group/Creator.antt =====
-- What becomes of the user who made a group chat.
use thunderchat_server.Base.{
  ℕ, String, ◌+◌, ◌≤◌, ◌≡◌, refl, ap, ◌∙◌, true, false, not, Option, List, [], ◌∷◌, ◌++◌, map,
  arith, ◌==◌, length, length-map, count, count-append, includes, filter, count-filter-not,
  count-disjoint, nat_eq, nat_beq_iff, Option-cases, Bool-cases, inl, inr, ltb,
}
use mathlib.Core.List.{Memᴰ}
use thunderchat_server.Base.Prisma.{Distinct, mem-count}
use thunderchat_server.Base.Action.{Result, ok}
use thunderchat_server.Group.{
  admin, member, Member, GroupChat, GroupDb, GroupClients, in_group, is_member, same_member,
}
use thunderchat_server.Group.Members.{leave_group_chat, is_created_by}
use thunderchat_server.Group.Chats.{
  create_group_chat, first_member, utf16_length, new_group_chat, all_allowed,
}
use thunderchat_server.Group.Bounds.{count-is_member_le}

first_members-in_group :
    (g c : ℕ) (ids : List ℕ) → count (in_group g) (map (first_member g c) ids) ≡ length ids
first_members-in_group g c [] = refl
first_members-in_group g c (i ∷ ids) =
    ground (arith, first_members-in_group g c ids, nat_beq_iff g g)

first_members-is_member :
    (g c : ℕ) (ids : List ℕ)
    → includes ids c ≡ true
    → 1 ≤ count (is_member g c) (map (first_member g c) ids)
first_members-is_member g c [] h = ground arith
first_members-is_member g c (i ∷ ids) h =
    ground (arith, first_members-is_member g c ids, nat_beq_iff g g)

-- The rows of everybody but the creator are those of plain members.
pub data AllPlain (g c : ℕ) : List Member → Type 0 where
  nil : AllPlain g c []
  plain :
      (m : Member) (ms : List Member)
      → m.group_chat_id ≡ g
      → m.role ≡ member
      → m.joined_by ≡ c
      → AllPlain g c ms
      → AllPlain g c (m ∷ ms)

first_members-AllPlain :
    (g c : ℕ) (ids : List ℕ) → includes ids c ≡ false → AllPlain g c (map (first_member g c) ids)
first_members-AllPlain g c [] h = nil
first_members-AllPlain g c (i ∷ ids) h =
    plain (first_member g c i) (map (first_member g c) ids) refl (ground arith) refl
      (first_members-AllPlain g c ids (ground arith))

not_creator :
    (g u : ℕ) (chat : GroupChat) (chats : List GroupChat)
    → Memᴰ chat chats
    → chat.id ≡ g
    → count (is_created_by g u) chats ≡ 0
    → (chat.creator_id == u) ≡ false
not_creator g u chat chats there id nobody = elim (Bool-cases (chat.creator_id == u)) [
  | inr other ↦ other
  | inl same ↦
      absurd
        (omega (arith, mem-count (is_created_by g u) there (ground (arith, nat_beq_iff chat.id g))))
]

kept_other :
    (g u v : ℕ) (rs : List Member)
    → (v == u) ≡ false
    → count (is_member g v) (filter (λ m. not (is_member g u m)) rs) ≡ count (is_member g v) rs
kept_other g u v rs other = omega (
  arith,
  count-filter-not (is_member g v) (is_member g u) rs,
  count-disjoint (is_member g v) (is_member g u) rs (λ m e. ground arith),
)

module _ (db : GroupClients) where
  open db use {group_chat, group_chat_member, group_chat_permission}

  created :
      (c : ℕ) (name : String) (ids : List ℕ) (url : Option String) (s s' : GroupDb)
      (chat : GroupChat)
      → create_group_chat db c name ids url s ≡ (ok chat, s')
      → (ltb (utf16_length name) 2 ≡ false)
        × (1 ≤ length ids)
        × (chat.creator_id ≡ c)
        × (s'.members ≡ map (first_member chat.id c) (c ∷ ids) ++ s.members)
        × (Distinct same_member s.members → Distinct same_member s'.members)
  unfolding create_group_chat
  created c name ids url s s' chat e =
      elim (Option-cases (group_chat.create (new_group_chat name url c) s.groups)) [
        | inl failed ↦ absurd (ground arith)
        | inr ((g, gs), made) ↦
            let (id, same, _, _) =
              group_chat.create-some (new_group_chat name url c) s.groups g gs made in
            elim (Option-cases
              (group_chat_member.create_many (map (first_member g.id c) (c ∷ ids)) s.members)) [
                | inl failed ↦ absurd (ground arith)
                | inr (rows, inserted) ↦
                    elim (Option-cases
                      (group_chat_permission.create (all_allowed g.id) s.permissions)) [
                        | inl failed ↦ absurd (ground arith)
                        | inr (p, allowed) ↦
                            let (more, distinct) =
                              group_chat_member.create_many-some
                                (map (first_member g.id c) (c ∷ ids)) s.members rows inserted in
                            let is : g ≡ chat = ground arith in
                            let now : s'.members ≡ rows = ground arith in
                            (
                              ground arith,
                              ground arith,
                              ground arith,
                              now
                                  ∙ more
                                  ∙ ap
                                      (λ (x : GroupChat).
                                        map (first_member x.id c) (c ∷ ids) ++ s.members)
                                      is,
                              λ d. rw now (distinct d),
                            )
                      ]
              ]
      ]

  -- Where no user stands twice in a group chat, one that is made has its creator as a member once,
  -- as an admin, and besides at least one other user; the creator is not among these, and they are
  -- plain members.
  pub create_group_chat-founder :
      (c : ℕ) (name : String) (ids : List ℕ) (url : Option String) (s s' : GroupDb)
      (chat : GroupChat)
      → Distinct same_member s.members
      → create_group_chat db c name ids url s ≡ (ok chat, s')
      → (chat.creator_id ≡ c)
        × (1 ≤ length ids)
        × (count (is_member chat.id c) s'.members ≡ 1)
        × (includes ids c ≡ false)
        × ((others : List Member) × AllPlain chat.id c others
            × (length others ≡ length ids)
            × (s'.members
                ≡ record { group_chat_id = chat.id; user_id = c; role = admin; joined_by = c }
                  ∷ (others ++ s.members)))
  create_group_chat-founder c name ids url s s' chat d e =
      let (_, two, by, rows, distinct) = created c name ids url s s' chat e in
      let others = map (first_member chat.id c) ids in
      let all : count (is_member chat.id c) s'.members
          ≡ count (is_member chat.id c) (map (first_member chat.id c) (c ∷ ids))
            + count (is_member chat.id c) s.members =
        rw rows
          (count-append (is_member chat.id c) (map (first_member chat.id c) (c ∷ ids)) s.members) in
      let most = count-is_member_le chat.id c s'.members (distinct d) in
      let own : 1 + count (is_member chat.id c) others
          ≡ count (is_member chat.id c) (map (first_member chat.id c) (c ∷ ids)) =
        ground (arith, nat_beq_iff c c, nat_beq_iff chat.id chat.id) in
      let alone : includes ids c ≡ false = elim (Bool-cases (includes ids c)) [
        | inr out ↦ out
        | inl twice ↦ absurd (omega (arith, first_members-is_member chat.id c ids twice))
      ] in
      (
        by,
        two,
        omega arith,
        alone,
        (
          others,
          first_members-AllPlain chat.id c ids alone,
          length-map (first_member chat.id c) ids,
          rows ∙ ground (arith, nat_beq_iff c c),
        ),
      )

  -- Whoever calls to leave a group chat that is in the table, and whatever the answer, its creator
  -- stands in it as often as before.
  pub leave_group_chat-creator :
      (g u : ℕ) (s s' : GroupDb) (chat : GroupChat) (r : Result (Unit {0}))
      → Memᴰ chat s.groups
      → chat.id ≡ g
      → leave_group_chat db g u s ≡ (r, s')
      → count (is_member g chat.creator_id) s'.members
        ≡ count (is_member g chat.creator_id) s.members
  unfolding leave_group_chat
  leave_group_chat-creator g u s s' chat r there id e =
      elim (Option-cases (group_chat.find_first (is_created_by g u) s.groups)) [
        | inr (x, found) ↦
            let (by, _) = group_chat.find_first-some (is_created_by g u) s.groups x found in
            let same : s' ≡ s = ground arith in
            ap (λ (t : GroupDb). count (is_member g chat.creator_id) t.members) same
        | inl absent ↦
            let nobody = group_chat.find_first-none (is_created_by g u) s.groups absent in
            let other = not_creator g u chat s.groups there id nobody in
            elim (Option-cases (group_chat_member.delete (is_member g u) s.members)) [
              | inl failed ↦ ground arith
              | inr (rows, gone) ↦
                  let (_, kept) =
                    group_chat_member.delete-some (is_member g u) s.members rows gone in
                  let now : s'.members ≡ filter (λ m. not (is_member g u m)) s.members =
                    ground arith in
                  rw now (kept_other g u chat.creator_id s.members other)
            ]
      ]
