-- ===== src/Moderation/Bans/Laws.antt =====
-- Which ban counts, who can log in, and what the message about a ban says.
use Prim.Native.Nat.{◌*◌}
use thunderchat_server.Base.{
  ℕ, ◌+◌, ◌≤◌, ◌<◌, ◌≡◌, refl, ◌∙◌, arith, Bool, true, false, some, List, [], ◌∷◌, if◌then◌else◌,
  nat_eq, string_eq, inl, inr, ◌⊎◌, Option-cases, All, is_some, length, ap, count, find, not, ◌&&◌,
  ◌==◌, Option, none,
}
use thunderchat_server.Base.Prisma.{All-mem, mem-count}
use mathlib.Core.List.{Memᴰ}
use thunderchat_server.Account.{Account}
use thunderchat_server.Moderation.{
  ViolationActionType, warning, temporary_ban, permanent_ban, ViolationReport, ViolationAction,
  ModerationDb, ModerationClients,
}
use thunderchat_server.Moderation.Bans.{
  Part, days, hours, minutes, day_ms, hour_ms, minute_ms, remaining_parts, bans_user, status_of,
  check_user_ban_status,
}

abbrev pub part_ms : Part → ℕ
part_ms (days n) = n * day_ms
part_ms (hours n) = n * hour_ms
part_ms (minutes n) = n * minute_ms

abbrev pub total_ms : List Part → ℕ
total_ms [] = 0
total_ms (p ∷ ps) = part_ms p + total_ms ps

-- The time that a message about a ban shows is the remaining time, rounded down to minutes, and it
-- shows something always.
pub remaining_parts_lem :
    (remaining : ℕ)
    → (total_ms (remaining_parts remaining) ≤ remaining)
      × (remaining < total_ms (remaining_parts remaining) + minute_ms)
      × (1 ≤ length (remaining_parts remaining))
unfolding remaining_parts
remaining_parts_lem remaining = ground arith

only_one :
    (r newest : ViolationAction) (a b : Bool)
    → a ≡ true
    → b ≡ true
    → (if b then newest.created_at else 0) ≤ r.created_at
    → (r ≡ newest) ⊎ (if a then r.created_at else 0) < newest.created_at
    → r ≡ newest
only_one r newest a b pa pb top (inl same) = same
only_one r newest a b pa pb top (inr less) = absurd (ground arith)

abbrev is_warning : ViolationActionType → Bool
is_warning t = elim t [ warning ↦ true | temporary_ban ↦ false | permanent_ban ↦ false ]

-- A temporary or permanent ban by a report about the user.
abbrev pub restricts : List ViolationReport → ℕ → ViolationAction → Bool
restricts reports user_id a =
    not (is_warning a.action_type)
    && is_some (find (λ r. r.id == a.report_id && r.reported_user_id == user_id) reports)

-- A ban that is over, or has no end; none at all is over too.
abbrev pub IsOver : ℕ → Option ViolationAction → Type 0
IsOver now none = Unit
IsOver now (some a) =
    (a.action_type ≡ temporary_ban)
    × ((a.banned_until ≡ none) ⊎ ((end : ℕ) × (a.banned_until ≡ some end) × (end ≤ now)))

module _ (db : ModerationClients) where
  open db use {user, latest_action}

  -- Where the query is not rejected, the newest of the bans of a user decides alone, whatever
  -- earlier bans say.
  pub check_user_ban_status-latest :
      (user_id now : ℕ) (s : ModerationDb) (newest : ViolationAction)
      → is_some
          (latest_action.find_latest (λ a. a.created_at) (bans_user s.reports user_id) s.actions)
        ≡ true
      → Memᴰ newest s.actions
      → bans_user s.reports user_id newest ≡ true
      → All
          (λ a.
            (a ≡ newest)
            ⊎ (if bans_user s.reports user_id a then a.created_at else 0) < newest.created_at)
          s.actions
      → check_user_ban_status db user_id now s ≡ status_of newest now
  unfolding check_user_ban_status
  check_user_ban_status-latest user_id now s newest answered there bans older =
      let p = bans_user s.reports user_id in
      elim (Option-cases (latest_action.find_latest (λ a. a.created_at) p s.actions)) [
        | inl rejected ↦ absurd (ground arith)
        | inr (o, asked) ↦ elim (Option-cases o) [
          | inl nothing ↦
              let counted =
                latest_action.find_latest-none _ p s.actions (asked ∙ ap some nothing) in
              absurd (omega (arith, mem-count p there bans, counted))
          | inr (r, something) ↦
              let (passes, member, most) =
                latest_action.find_latest-some _ p s.actions r (asked ∙ ap some something) in
              let top =
                All-mem (λ a. (if p a then a.created_at else 0) ≤ r.created_at) most there in
              let rank =
                All-mem (λ a. (a ≡ newest) ⊎ (if p a then a.created_at else 0) < newest.created_at)
                  older member in
              let same : r ≡ newest = only_one r newest (p r) (p newest) passes bans top rank in
              rw (asked, something, same) refl
        ]
      ]

  -- What the query for the newest ban of a user finds, where it is answered: none where there is none,
  -- or one of the actions that restrict the user, and no other of these is newer.
  abbrev pub IsNewest : ℕ → ModerationDb → Option ViolationAction → Type 0
  IsNewest user_id s none = count (restricts s.reports user_id) s.actions ≡ 0
  IsNewest user_id s (some a) =
      (restricts s.reports user_id a ≡ true)
      × Memᴰ a s.actions
      × All (λ x. (if restricts s.reports user_id x then x.created_at else 0) ≤ a.created_at)
          s.actions

  -- A user is free where the query for bans is rejected, or the newest ban of the user, if any, is
  -- over.
  abbrev pub IsFree : ℕ → ℕ → ModerationDb → Type 0
  IsFree user_id now s =
      let asked =
        latest_action.find_latest (λ a. a.created_at) (bans_user s.reports user_id) s.actions in
      (asked ≡ none)
      ⊎ ((newest : Option ViolationAction) × (asked ≡ some newest)
          × IsNewest user_id s newest
          × IsOver now newest)
