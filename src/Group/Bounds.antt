-- ===== src/Group/Bounds.antt =====
-- How many members a group chat has after its members change.
use thunderchat_server.Base.{
  ℕ, ◌+◌, ◌≤◌, ◌<◌, ◌≡◌, refl, ap, count_mono, ◌∙◌, true, false, not, List, [], ◌∷◌, ◌++◌, map,
  arith, ◌==◌, if◌then◌else◌, length, includes, count, filter, any, count-filter-not, count-and,
  count-disjoint, count-append, nat_eq, nat_beq_iff, Option-cases, Bool-cases, inl, inr, ◌⊎◌,
}
use thunderchat_server.Base.Prisma.{Distinct}
use thunderchat_server.Base.Action.{ok, err, Exception}
use thunderchat_server.Group.{
  Member, GroupDb, GroupClients, in_group, is_member, has_group_id, same_member,
}
use thunderchat_server.Group.Members.{
  remove_group_chat_member, add_members_to_group_chat, is_one_of, new_member, max_add_member_total,
  max_add_member_at_once,
}

same-is_member :
    (g u : ℕ) (a b : Member)
    → is_member g u a ≡ true
    → is_member g u b ≡ true
    → same_member a b ≡ true
same-is_member g u a b h k = ground arith

absent-is_member :
    (g u : ℕ) (a : Member) (rs : List Member)
    → is_member g u a ≡ true
    → any (same_member a) rs ≡ false
    → count (is_member g u) rs ≡ 0
absent-is_member g u a [] h k = refl
absent-is_member g u a (b ∷ rs) h k =
    ground (arith, absent-is_member g u a rs h, same-is_member g u a b h)

-- A user stands in a group chat at most once.
pub count-is_member_le :
    (g u : ℕ) (rs : List Member) → Distinct same_member rs → count (is_member g u) rs ≤ 1
count-is_member_le g u [] d = omega arith
count-is_member_le g u (a ∷ rs) d =
    ground (arith, count-is_member_le g u rs d.1, absent-is_member g u a rs)

-- The members without one user.
without-member :
    (g u h : ℕ) (rs : List Member)
    → count (in_group h) (filter (λ m. not (is_member g u m)) rs)
        + (if g == h then count (is_member g u) rs else 0)
      ≡ count (in_group h) rs
without-member g u h rs = elim (Bool-cases (g == h)) [
  | inl same ↦ ground (
    arith,
    count-filter-not (in_group h) (is_member g u) rs,
    count-and (in_group h) (is_member g u) rs (λ m e. ground arith),
  )
  | inr other ↦ ground (
    arith,
    count-filter-not (in_group h) (is_member g u) rs,
    count-disjoint (in_group h) (is_member g u) rs (λ m e. ground arith),
  )
]

new_members-in_group :
    (g h x : ℕ) (ids : List ℕ)
    → count (in_group h) (map (new_member g x) ids) ≡ (if g == h then length ids else 0)
new_members-in_group g h x [] = ground arith
new_members-in_group g h x (i ∷ ids) = ground (arith, new_members-in_group g h x ids)

new_members-is_member :
    (g u x : ℕ) (ids : List ℕ)
    → includes ids u ≡ true
    → 1 ≤ count (is_member g u) (map (new_member g x) ids)
new_members-is_member g u x [] h = ground arith
new_members-is_member g u x (i ∷ ids) h =
    ground (arith, new_members-is_member g u x ids, nat_beq_iff g g)

one_of-is_member :
    (g u : ℕ) (ids : List ℕ) (rs : List Member)
    → includes ids u ≡ true
    → count (is_one_of g ids) rs ≡ 0
    → count (is_member g u) rs ≡ 0
one_of-is_member g u ids rs h none_there =
    omega (arith, count_mono (is_one_of g ids) (is_member g u) rs (λ m e. implied m e))
  where
    implied : (m : Member) → is_member g u m ≡ true → is_one_of g ids m ≡ true
    implied m e = ground (arith, nat_beq_iff m.user_id u)

module _ (db : GroupClients) where
  open db use {group_chat, group_chat_member}

  -- What a removal that succeeds has found and done.
  removed :
      (g u : ℕ) (s s' : GroupDb)
      → remove_group_chat_member db g u s ≡ (ok tt, s')
      → (s'.members ≡ filter (λ m. not (is_member g u m)) s.members)
        × (1 ≤ count (is_member g u) s.members)
        × ((count (in_group g) s.members ≡ 0) ⊎ (2 < count (in_group g) s.members))
  unfolding remove_group_chat_member
  removed g u s s' e = elim (Option-cases (group_chat_member.delete (is_member g u) s.members)) [
    | inl none_left ↦ absurd (ground (arith, group_chat_member.count_lem (in_group g) s.members))
    | inr (rows, hit) ↦
        let (there, kept) = group_chat_member.delete-some (is_member g u) s.members rows hit in
        (ground arith, there, ground (arith, group_chat_member.count_lem (in_group g) s.members))
  ]

  -- Where no user stands twice in a group chat, a removal that succeeds takes exactly one member
  -- from the group chat, who was there, and leaves it at least two; no other group chat changes
  -- its number.
  pub remove_group_chat_member-bound :
      (g u : ℕ) (s s' : GroupDb)
      → Distinct same_member s.members
      → remove_group_chat_member db g u s ≡ (ok tt, s')
      → (2 ≤ count (in_group g) s'.members)
        × (count (in_group g) s'.members + 1 ≡ count (in_group g) s.members)
        × (count (is_member g u) s.members ≡ 1)
        × ((h : ℕ)
            → count (in_group h) s'.members + (if g == h then 1 else 0)
              ≡ count (in_group h) s.members)
  remove_group_chat_member-bound g u s s' d e =
      let (rows, there, enough) = removed g u s s' e in
      let once = count-is_member_le g u s.members d in
      let own = without-member g u g s.members in
      (
        rw rows (ground (arith, nat_beq_iff g g)),
        rw rows (ground (arith, nat_beq_iff g g)),
        omega arith,
        λ h. rw rows (ground (arith, without-member g u h s.members)),
      )

  -- What an addition that succeeds has found and done.
  added :
      (g x : ℕ) (ids : List ℕ) (s s' : GroupDb) (ms : List Member)
      → add_members_to_group_chat db g ids x s ≡ (ok ms, s')
      → (s'.members ≡ map (new_member g x) ids ++ s.members)
        × (length ids ≤ max_add_member_at_once)
        × (count (in_group g) s.members + length ids ≤ max_add_member_total)
        × (count (is_one_of g ids) s.members ≡ 0)
        × (Distinct same_member s.members → Distinct same_member s'.members)
  unfolding add_members_to_group_chat
  added g x ids s s' ms e =
      elim (Option-cases (group_chat.update (has_group_id g) (λ c. c) s.groups)) [
        | inl no_group ↦ absurd (ground (arith, group_chat_member.count_lem (in_group g) s.members))
        | inr (chat, found) ↦
            elim (Option-cases
              (group_chat_member.create_many (map (new_member g x) ids) s.members)) [
                | inl clash ↦
                    absurd (ground (arith, group_chat_member.count_lem (in_group g) s.members))
                | inr (rows, created) ↦
                    let (more, distinct) =
                      group_chat_member.create_many-some (map (new_member g x) ids) s.members rows
                        created in
                    let same : s'.members ≡ rows = ground arith in
                    (
                      same ∙ more,
                      ground arith,
                      ground (arith, group_chat_member.count_lem (in_group g) s.members),
                      ground
                          (arith, group_chat_member.length-find_many (is_one_of g ids) s.members),
                      λ d. rw same (distinct d),
                    )
              ]
      ]

  -- Where no user stands twice in a group chat, an addition that succeeds has at most ten users,
  -- of whom none was in the group chat and each is in it once now; it makes the group chat larger
  -- by as many, to at most a thousand members, and no other group chat changes its number.
  pub add_members_to_group_chat-bound :
      (g x : ℕ) (ids : List ℕ) (s s' : GroupDb) (ms : List Member)
      → Distinct same_member s.members
      → add_members_to_group_chat db g ids x s ≡ (ok ms, s')
      → (length ids ≤ 10)
        × (count (in_group g) s'.members ≡ count (in_group g) s.members + length ids)
        × (count (in_group g) s'.members ≤ 1000)
        × ((u : ℕ)
            → (includes ids u ≡ false)
              ⊎ (count (is_member g u) s.members ≡ 0) × (count (is_member g u) s'.members ≡ 1))
        × ((h : ℕ)
            → count (in_group h) s'.members
              ≡ count (in_group h) s.members + (if g == h then length ids else 0))
  add_members_to_group_chat-bound g x ids s s' ms d e =
      let (rows, few, room, absent, distinct) = added g x ids s s' ms e in
      let new = map (new_member g x) ids in
      let grown : count (in_group g) s'.members ≡ count (in_group g) s.members + length ids =
        rw (rows, count-append (in_group g) new s.members, new_members-in_group g g x ids)
          (ground (arith, nat_beq_iff g g)) in
      (
        few,
        grown,
        omega arith,
        λ u. elim (Bool-cases (includes ids u)) [
          | inr out ↦ inl out
          | inl one ↦
              let before = one_of-is_member g u ids s.members one absent in
              inr (
                before,
                omega (
                  arith,
                  count-is_member_le g u s'.members (distinct d),
                  new_members-is_member g u x ids one,
                  ap (count (is_member g u)) rows,
                  count-append (is_member g u) new s.members,
                ),
              )
        ],
        λ h.
            rw (rows, count-append (in_group h) new s.members, new_members-in_group g h x ids)
              (omega arith),
      )

  -- An addition of members that throws leaves everything as it was.
  pub add_members_to_group_chat-error :
      (g x : ℕ) (ids : List ℕ) (s s' : GroupDb) (e : Exception)
      → add_members_to_group_chat db g ids x s ≡ (err e, s')
      → s' ≡ s
  unfolding add_members_to_group_chat
  add_members_to_group_chat-error g x ids s s' e h = ground arith
