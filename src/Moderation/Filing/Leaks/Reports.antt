-- ===== src/Moderation/Filing/Leaks/Reports.antt =====
-- A report as a whole: what its uploads leave is noted or gone.
use thunderchat_server.Base.{ℕ, Option, All, nat_eq, list_eq, String}
use thunderchat_server.Base.Action.{pure, ◌>>◌}
use thunderchat_server.Base.Keeps.{Keeps, Keeps-bind, Keeps-query}
use thunderchat_server.Security.Utf16.{Text}
use thunderchat_server.Uploads.Files.{upload_report_image}
use thunderchat_server.Uploads.Files.Frame.{Deletes}
use thunderchat_server.Moderation.UserReports.{FilingServices, Filing, ReportInput, new_report}
use thunderchat_server.Moderation.Filing.{
  create_report, file_images, upload_in_time, file_messages, file_report,
}
use thunderchat_server.Moderation.Filing.Outcomes.{IsAccounted}
use thunderchat_server.Moderation.Filing.Leaks.{IsSafe, IsPlain}
use thunderchat_server.Moderation.Filing.Leaks.Images.{file_images-Keeps}
use thunderchat_server.Moderation.Filing.Leaks.Media.{file_messages-Keeps}

module _ (services : FilingServices) (deletes : Deletes services.upload.object_store) (j : Text)
    (before : Option String) where
  abbrev IsNoted : Filing → Type 0
  IsNoted = IsSafe services deletes j before

  create_report-Keeps :
      (reporter_id : ℕ) (input : ReportInput) (now : ℕ)
      → Keeps IsNoted (create_report services reporter_id input now)
  create_report-Keeps reporter_id input now =
      Keeps-query IsNoted
        (λ s.
          services.violation_report.create (new_report reporter_id input now) s.db.tables.reports)
        (λ r. r.0)
        (λ r s. record s { db = record s.db { tables = record s.db.tables { reports = r.1 } } })
        (λ r s v. v)

  pub file_report-Keeps :
      (reporter_id : ℕ) (input : ReportInput) (now : ℕ)
      → All
          (λ i. IsAccounted j (upload_report_image services.upload i.file i.at))
          input.report_images
      → All
          (λ m. IsAccounted j (upload_in_time services m) × IsPlain (upload_in_time services m))
          input.reported_messages
      → Keeps IsNoted (file_report services reporter_id input now)
  unfolding file_report
  file_report-Keeps reporter_id input now images messages =
      Keeps-bind IsNoted (create_report services reporter_id input now)
        (λ report.
          file_images services report.row.id input.report_images
          >> (file_messages services report.row.id input.reported_user_id input.reported_messages
              >> pure report.row.id))
        (create_report-Keeps reporter_id input now)
        (λ report.
          Keeps-bind IsNoted (file_images services report.row.id input.report_images)
            (λ u.
              file_messages services report.row.id input.reported_user_id input.reported_messages
              >> pure report.row.id)
            (file_images-Keeps services deletes j before report.row.id input.report_images images)
            (λ u.
              Keeps-bind IsNoted
                (file_messages services report.row.id input.reported_user_id
                  input.reported_messages)
                (λ w. pure report.row.id)
                (file_messages-Keeps services deletes j before report.row.id input.reported_user_id
                  input.reported_messages messages)
                (λ w s v. v)))
