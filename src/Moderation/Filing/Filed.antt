-- ===== src/Moderation/Filing/Filed.antt =====
-- What a report leaves that is filed.
use mathlib.Core.List.{Memᴰ}
use thunderchat_server.Base.{
  ℕ, ◌+◌, ◌≡◌, ap, sym, ◌∙◌, arith, true, false, List, [], ◌∷◌, ◌==◌, inl, inr, Bool-cases,
  Option-cases, All, nat_eq, length,
}
use thunderchat_server.Base.Action.{Result-cases, ok, pure, bind_ok, ◌>>◌}
use thunderchat_server.Account.{has_account_id}
use thunderchat_server.Moderation.UserReports.{
  FilingServices, FilingDb, Filing, Correspondence, ImageInput, MessageInput, ReportInput, filed,
  is_recent, concerns, new_report,
}
use thunderchat_server.Moderation.Filing.{
  file_image, file_images, file_message, file_messages, file_report, started,
  create_violation_report,
}
use thunderchat_server.Moderation.Filing.Steps.{image_ok, message_ok}

-- A message that is there, and that the reported user wrote or received.
abbrev pub IsOwn : ℕ → List Correspondence → MessageInput → Type 0
IsOwn reported_user_id rows m =
    (x : Correspondence) × (concerns reported_user_id m.message_id x ≡ true) × Memᴰ x rows

module _ (services : FilingServices) where
  images_ok :
      (id : ℕ) (images : List ImageInput) (t t' : Filing) (u : Unit {0})
      → file_images services id images t ≡ (ok u, t')
      → (length t'.db.tables.report_images ≡ length t.db.tables.report_images + length images)
        × (t'.db.tables.reports ≡ t.db.tables.reports)
        × (t'.db.tables.reported_messages ≡ t.db.tables.reported_messages)
        × (t'.db.messages ≡ t.db.messages)
  unfolding file_images
  images_ok id [] t t' u h = (ground arith, ground arith, ground arith, ground arith)
  images_ok id (i ∷ images) t t' u h =
      let (r, t1, one, rest) =
        bind_ok (file_image services id i) (λ r. file_images services id images) t t' u h in
      let (longer, reports, messages, others) = image_ok services id i t t1 r one in
      let (longer', reports', messages', others') = images_ok id images t1 t' u rest in
      (omega (arith, longer, longer'), reports' ∙ reports, messages' ∙ messages, others' ∙ others)

  messages_ok :
      (id reported_user_id : ℕ) (ms : List MessageInput) (t t' : Filing) (u : Unit {0})
      → file_messages services id reported_user_id ms t ≡ (ok u, t')
      → (length t'.db.tables.reported_messages ≡ length t.db.tables.reported_messages + length ms)
        × (t'.db.tables.reports ≡ t.db.tables.reports)
        × (t'.db.tables.report_images ≡ t.db.tables.report_images)
        × (t'.db.messages ≡ t.db.messages)
        × All (IsOwn reported_user_id t.db.messages) ms
  unfolding file_messages
  messages_ok id reported_user_id [] t t' u h =
      (ground arith, ground arith, ground arith, ground arith, tt)
  messages_ok id reported_user_id (m ∷ ms) t t' u h =
      let (r, t1, one, rest) =
        bind_ok (file_message services id reported_user_id m)
          (λ r. file_messages services id reported_user_id ms) t t' u h in
      let (longer, reports, images, others, x, own, member) =
        message_ok services id reported_user_id m t t1 r one in
      let (longer', reports', images', others', owns) =
        messages_ok id reported_user_id ms t1 t' u rest in
      (
        omega (arith, longer, longer'),
        reports' ∙ reports,
        images' ∙ images,
        others' ∙ others,
        ((x, own, member), rw others at owns),
      )

module _ (services : FilingServices) (reporter_id : ℕ) (input : ReportInput) (now : ℕ)
    (s : FilingDb) where
  filed_cases :
      (s' : FilingDb) (id : ℕ)
      → create_violation_report services reporter_id input now s ≡ (filed id, s')
      → ((reporter_id == input.reported_user_id) ≡ false)
        × (t : Filing) × (file_report services reporter_id input now (started services s)
            ≡ (ok id, t))
        × (s' ≡ t.db)
  unfolding create_violation_report
  filed_cases s' id h =
      elim (Option-cases
        (services.user.find_first (has_account_id input.reported_user_id) s.users)) [
          | inl missing ↦ absurd (ground arith)
          | inr (u, there) ↦ elim (Bool-cases (reporter_id == input.reported_user_id)) [
            | inl self ↦ absurd (ground arith)
            | inr other ↦
                elim (Option-cases (
                  services.violation_report.find_first
                    (is_recent reporter_id input.reported_user_id now) s.tables.reports)) [
                      | inr (r, again) ↦ absurd (ground arith)
                      | inl first ↦
                          let run =
                            file_report services reporter_id input now (started services s) in
                          elim (Result-cases run.0) [
                            | inl (n, done) ↦ (other, run.1, ground arith, ground arith)
                            | inr (x, thrown) ↦ absurd (ground arith)
                          ]
                    ]
          ]
        ]

  -- A report that is filed is about another user and waits; it is added with one row for each of its
  -- images and of its messages, and each of these messages was written or received by the reported
  -- user.
  pub create_violation_report-filed :
      (s' : FilingDb) (id : ℕ)
      → create_violation_report services reporter_id input now s ≡ (filed id, s')
      → ((reporter_id == input.reported_user_id) ≡ false)
        × (s'.tables.reports ≡ new_report reporter_id input now id ∷ s.tables.reports)
        × (length s'.tables.report_images
            ≡ length s.tables.report_images + length input.report_images)
        × (length s'.tables.reported_messages
            ≡ length s.tables.reported_messages + length input.reported_messages)
        × All (IsOwn input.reported_user_id s.messages) input.reported_messages
  unfolding file_report
  create_violation_report-filed s' id h =
      let (other, t, run, same) = filed_cases s' id h in
      elim (Option-cases
        (services.violation_report.create (new_report reporter_id input now) s.tables.reports)) [
          | inl rejected ↦ absurd (ground arith)
          | inr ((r, rows), created) ↦
              let (n, is_row, new_rows, free) =
                services.violation_report.create-some _ _ r rows created in
              let t0 : Filing = record (started services s) {
                db = record s { tables = record s.tables { reports = rows } };
              } in
              let (u, t1, images, rest) =
                bind_ok (file_images services r.row.id input.report_images)
                  (λ u.
                    file_messages services r.row.id input.reported_user_id input.reported_messages
                    >> pure r.row.id)
                  t0 t id (ground arith) in
              let (w, t2, messages, last) =
                bind_ok
                  (file_messages services r.row.id input.reported_user_id input.reported_messages)
                  (λ w. pure r.row.id) t1 t id rest in
              let i = images_ok services r.row.id input.report_images t0 t1 u images in
              let m =
                messages_ok services r.row.id input.reported_user_id input.reported_messages t1 t2 w
                  messages in
              let last_db : s' ≡ t2.db = same ∙ ap (λ p. p.1.db) (sym last) in
              let drawn : r.row.id ≡ id = ground arith in
              let head : r ≡ new_report reporter_id input now id =
                is_row
                ∙ ap (new_report reporter_id input now) (ap (λ x. x.row.id) (sym is_row) ∙ drawn) in
              (
                other,
                ap (λ d. d.tables.reports) last_db
                    ∙ (m.1 ∙ (i.1 ∙ (new_rows ∙ ap (λ x. x ∷ s.tables.reports) head))),
                ap (λ d. length d.tables.report_images) last_db ∙ (ap length m.2 ∙ i.0),
                ap (λ d. length d.tables.reported_messages) last_db
                    ∙ (m.0 ∙ ap (λ x. length x + length input.reported_messages) i.2),
                rw i.3 at m.4,
              )
        ]
