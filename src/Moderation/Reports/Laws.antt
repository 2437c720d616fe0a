-- ===== src/Moderation/Reports/Laws.antt =====
-- A report is dealt with once, and a ban that fails changes no table.
use thunderchat_server.Base.{
  ℕ, ◌≡◌, ◌≢◌, refl, sym, ap, ◌∙◌, subst, ◌&&◌, arith, String, true, false, Option, some, List, [],
  ◌∷◌, if◌then◌else◌, map, is_some, nat_eq, inl, inr, ◌⊎◌, Bool-cases, Option-cases, All,
}
use thunderchat_server.Base.Prisma.{All-mem}
use thunderchat_server.Base.Action.{Exception, Result, Result-cases, ok, err, db_error}
use thunderchat_server.Account.{has_account_id}
use thunderchat_server.Moderation.{
  ReportStatus, ViolationActionType, ViolationReport, ViolationAction, resolved, ModerationDb,
  ModerationClients, has_report_id,
}
use thunderchat_server.Moderation.Reports.{
  Until, Failure, report_not_found, user_not_found, report_already_processed, new_action,
  with_status, Response, success, failure, is_unprocessed, banned_until_of, ban_reported_user,
  update_violation_report_status, tables_back,
}
use thunderchat_server.Moderation.Violations.{ban_messages}

-- What a ban that succeeds has done.
pub record IsBanned (db : ModerationClients) (report_id : ℕ) (ban_type : ViolationActionType)
    (reason : String) (duration : Option ℕ) (given : Until) (ids : List ℕ) (now : ℕ)
    (s s' : ModerationDb) : Type 0 where
  pub banned_until : Option ℕ
  pub report : ViolationReport
  pub action : ViolationAction
  pub actions : List ViolationAction
  pub updated : ViolationReport
  pub reports : List ViolationReport
  pub end_found : banned_until_of ban_type given duration now ≡ some banned_until
  pub found : db.violation_report.find_first (has_report_id report_id) s.reports ≡ some report
  pub was_pending : is_unprocessed report ≡ true
  pub action_created :
      db.violation_action.create (new_action report_id ban_type reason banned_until now) s.actions
      ≡ some (action, actions)
  pub processed :
      db.violation_report.update (has_report_id report_id) (with_status resolved) s.reports
      ≡ some (updated, reports)
  pub messages_done :
      ban_messages db ids s (record s { actions = actions; reports = reports }) ≡ (ok tt, s')

ban_messages_result :
    (db : ModerationClients) (ids : List ℕ) (before s : ModerationDb)
    → (r : Result (Unit {0})) × (s' : ModerationDb) × (ban_messages db ids before s ≡ (r, s'))
ban_messages_result db ids before s = (_, _, refl)

ban_messages_err :
    (db : ModerationClients) (ids : List ℕ) (before s s' : ModerationDb) (e : Exception)
    → ban_messages db ids before s ≡ (err e, s')
    → (s'.deleted_files ≡ s.deleted_files) × (s'.sent ≡ s.sent)
unfolding ban_messages
ban_messages_err db [] before s s' e h = absurd (ground arith)
ban_messages_err db (id ∷ ids) before s s' e h = (ground arith, ground arith)

module _ (db : ModerationClients) (report_id : ℕ) (ban_type : ViolationActionType) (reason : String)
    (duration : Option ℕ) (given : Until) (ids : List ℕ) (now : ℕ) (s s' : ModerationDb) where
  open db use {violation_report, violation_action, user, commits}

  -- Nothing is changed; or the ban is done; or it is done but for its commit, which is rejected.
  abbrev pub Ended : Result Response → Type 0
  Ended r =
      ((s' ≡ s) × (r ≢ ok success))
      ⊎ (((r ≡ ok success) × IsBanned db report_id ban_type reason duration given ids now s s')
          ⊎ ((r ≡ err db_error)
              × ((done : ModerationDb) × (commits done ≡ false)
                  × IsBanned db report_id ban_type reason duration given ids now s done
                  × (s' ≡ tables_back db s done))))

  module _ (report : ViolationReport) (banned_until : Option ℕ)
      (found : violation_report.find_first (has_report_id report_id) s.reports ≡ some report)
      (known : is_some (user.find_first (has_account_id report.reported_user_id) s.users) ≡ true)
      (waiting : is_unprocessed report ≡ true)
      (ends : banned_until_of ban_type given duration now ≡ some banned_until) where
    ban-Ended :
        (r : Result Response)
        → ban_reported_user db report_id ban_type reason duration given ids now s ≡ (r, s')
        → Ended r
    unfolding ban_reported_user
    ban-Ended r h =
        let mk = new_action report_id ban_type reason banned_until now in
        elim (Option-cases (violation_action.create mk s.actions)) [
          | inl clash ↦ inl (ground arith, ground arith)
          | inr ((action, actions), created) ↦
              elim (Option-cases (
                violation_report.update (has_report_id report_id) (with_status resolved)
                  s.reports)) [
                    | inl rejected ↦ inl (ground arith, ground arith)
                    | inr ((updated, reports), processed) ↦
                        let (r2, s2, ran) =
                          ban_messages_result db ids s
                            (record s { actions = actions; reports = reports }) in
                        elim (Result-cases r2) [
                          | inr (e, failed) ↦
                              let kept =
                                ban_messages_err db ids s
                                  (record s { actions = actions; reports = reports }) s2 e
                                  (ground arith) in
                              inl (ground (arith, kept), ground arith)
                          | inl (u, done) ↦
                              let banned : IsBanned db report_id ban_type reason duration given ids
                                  now s s2 =
                                record {
                                  banned_until = banned_until;
                                  report = report;
                                  action = action;
                                  actions = actions;
                                  updated = updated;
                                  reports = reports;
                                  end_found = ends;
                                  found = found;
                                  was_pending = waiting;
                                  action_created = created;
                                  processed = processed;
                                  messages_done = ground arith;
                                } in
                              elim (Bool-cases (commits s2)) [
                                | inl taken ↦
                                    let same : s2 ≡ s' = ground arith in
                                    inr (
                                      inl (
                                        ground arith,
                                        subst
                                            (IsBanned db report_id ban_type reason duration given
                                              ids now s)
                                            same banned,
                                      ))
                                | inr refused ↦
                                    inr (inr (ground arith, (s2, refused, banned, ground arith)))
                              ]
                        ]
                  ]
        ]

  pub ban_cases :
      (r : Result Response)
      → ban_reported_user db report_id ban_type reason duration given ids now s ≡ (r, s')
      → Ended r
  unfolding ban_reported_user
  ban_cases r h =
      elim (Option-cases (violation_report.find_first (has_report_id report_id) s.reports)) [
        | inl missing ↦ inl (ground arith, ground arith)
        | inr (report, found) ↦
            elim (Bool-cases
              (is_some (user.find_first (has_account_id report.reported_user_id) s.users))) [
                | inr unknown ↦ inl (ground arith, ground arith)
                | inl known ↦ elim (Bool-cases (is_unprocessed report)) [
                  | inr done ↦ inl (ground arith, ground arith)
                  | inl waiting ↦
                      elim (Option-cases (banned_until_of ban_type given duration now)) [
                        | inl bad ↦ inl (ground arith, ground arith)
                        | inr (banned_until, ends) ↦
                            ban-Ended report banned_until found known waiting ends r h
                      ]
                ]
              ]
      ]

-- Where the answer is no success, also where an exception is thrown, every table is as it was. No
-- file is deleted and nothing is sent then either, but where the whole ban was carried out and only its
-- commit was rejected: then the files that it deleted are gone, and what it sent is sent.
pub ban_reported_user-unchanged :
    (db : ModerationClients) (report_id : ℕ) (ban_type : ViolationActionType) (reason : String)
    (duration : Option ℕ) (given : Until) (ids : List ℕ) (now : ℕ) (s s' : ModerationDb)
    (r : Result Response)
    → ban_reported_user db report_id ban_type reason duration given ids now s ≡ (r, s')
    → (r ≡ ok success)
      ⊎ ((s' ≡ record s { deleted_files = s'.deleted_files; sent = s'.sent })
          × (((s'.deleted_files ≡ s.deleted_files) × (s'.sent ≡ s.sent))
              ⊎ ((r ≡ err db_error)
                  × ((done : ModerationDb) × (db.commits done ≡ false)
                      × IsBanned db report_id ban_type reason duration given ids now s done
                      × (s'.deleted_files ≡ done.deleted_files)
                      × (s'.sent ≡ done.sent)))))
ban_reported_user-unchanged db report_id ban_type reason duration given ids now s s' r h =
    elim (ban_cases db report_id ban_type reason duration given ids now s s' r h) [
      | inl same ↦
          inr (rw (same.0) refl, inl (ap (λ t. t.deleted_files) same.0, ap (λ t. t.sent) same.0))
      | inr (inl done) ↦ inl done.0
      | inr (inr (thrown, (done, refused, banned, same))) ↦ inr (
        rw same refl,
        inr (
          thrown,
          (done, refused, banned, ap (λ t. t.deleted_files) same, ap (λ t. t.sent) same),
        ),
      )
    ]

-- No report with an id is pending.
abbrev IsProcessed : ℕ → List ViolationReport → Type 0
IsProcessed id = All (λ r. (has_report_id id r && is_unprocessed r) ≡ false)

resolved_all :
    (id : ℕ) (rs : List ViolationReport)
    → IsProcessed id (map (λ r. if has_report_id id r then with_status resolved r else r) rs)
resolved_all id [] = tt
resolved_all id (r ∷ rs) = (ground arith, resolved_all id rs)

ban_messages_reports :
    (db : ModerationClients) (ids : List ℕ) (before s s' : ModerationDb) (r : Result (Unit {0}))
    → ban_messages db ids before s ≡ (r, s')
    → s'.reports ≡ s.reports
unfolding ban_messages
ban_messages_reports db [] before s s' r h = ground arith
ban_messages_reports db (id ∷ ids) before s s' r h = ground arith

module _ (db : ModerationClients) (report_id : ℕ) (s : ModerationDb)
    (processed : IsProcessed report_id s.reports) where
  open db use {violation_report, user}

  not_pending :
      (r : ViolationReport)
      → violation_report.find_first (has_report_id report_id) s.reports ≡ some r
      → is_unprocessed r ≡ false
  not_pending r found =
      let (passes, member) =
        violation_report.find_first-some (has_report_id report_id) s.reports r found in
      ground (
        arith,
        All-mem (λ x. (has_report_id report_id x && is_unprocessed x) ≡ false) processed member,
      )

  ban_processed :
      (ban_type : ViolationActionType) (reason : String) (duration : Option ℕ) (given : Until)
      (ids : List ℕ) (now : ℕ)
      → (f : Failure) × (ban_reported_user db report_id ban_type reason duration given ids now s
          ≡ (ok (failure f), s))
  unfolding ban_reported_user
  ban_processed ban_type reason duration given ids now =
      elim (Option-cases (violation_report.find_first (has_report_id report_id) s.reports)) [
        | inl missing ↦ (report_not_found, ground arith)
        | inr (r, found) ↦
            elim (Bool-cases
              (is_some (user.find_first (has_account_id r.reported_user_id) s.users))) [
                | inr unknown ↦ (user_not_found, ground arith)
                | inl known ↦ (report_already_processed, ground (arith, not_pending r found))
              ]
      ]

  status_processed :
      (status : ReportStatus)
      → (f : Failure) × (update_violation_report_status db report_id status s ≡ (ok (failure f), s))
  unfolding update_violation_report_status
  status_processed status =
      elim (Option-cases (violation_report.find_first (has_report_id report_id) s.reports)) [
        | inl missing ↦ (report_not_found, ground arith)
        | inr (r, found) ↦ (report_already_processed, ground (arith, not_pending r found))
      ]

-- After a ban that succeeds, no other action on the report succeeds and no other status is set: the
-- answer is a failure, and everything stays as it is.
pub ban_reported_user-once :
    (db : ModerationClients) (report_id : ℕ) (ban_type : ViolationActionType) (reason : String)
    (duration : Option ℕ) (given : Until) (ids : List ℕ) (now : ℕ) (s s' : ModerationDb)
    (next_type : ViolationActionType) (next_reason : String) (next_duration : Option ℕ)
    (next_given : Until) (next_ids : List ℕ) (later : ℕ) (status : ReportStatus)
    → ban_reported_user db report_id ban_type reason duration given ids now s ≡ (ok success, s')
    → ((f : Failure) × (ban_reported_user db report_id next_type next_reason next_duration
            next_given next_ids later s'
          ≡ (ok (failure f), s')))
      × ((f : Failure) × (update_violation_report_status db report_id status s'
            ≡ (ok (failure f), s')))
ban_reported_user-once db report_id ban_type reason duration given ids now s s' next_type
      next_reason next_duration next_given next_ids later status h =
    elim (ban_cases db report_id ban_type reason duration given ids now s s' (ok success) h) [
      | inl (same, no_success) ↦ absurd (no_success refl)
      | inr (inr (thrown, v)) ↦ absurd (ground (arith, thrown))
      | inr (inl (_, v)) ↦
          let (old, member, passes, new, rows) =
            db.violation_report.update-some _ _ _ _ _ v.processed in
          let kept = ban_messages_reports db ids s _ s' (ok tt) v.messages_done in
          let processed : IsProcessed report_id s'.reports =
            subst (IsProcessed report_id) (sym (kept ∙ rows)) (resolved_all report_id s.reports) in
          (
            ban_processed db report_id s' processed next_type next_reason next_duration next_given
                next_ids later,
            status_processed db report_id s' processed status,
          )
    ]
