-- ===== src/Tests/Filing.antt =====
-- Reports with a picture and with messages, one of which the reported user has no part in.
use thunderchat_server.Base.{
  ℕ, ◌+◌, ◌≤◌, ◌≡◌, ◌⊎◌, refl, false, none, some, [], ◌∷◌, ◌==◌, nat_eq, list_eq, length, All,
}
use thunderchat_server.Base.Action.{plain, user_report_message, message_not_found}
use thunderchat_server.Base.JsMap.{get, delete}
use thunderchat_server.Base.Prisma.InMemory.{in_memory}
use thunderchat_server.Account.{Account, user}
use thunderchat_server.Moderation.UserReports.{
  FilingDb, FilingServices, Correspondence, ImageInput, MessageInput, ReportInput, ReportCategory,
  ReportedMessageType, new_report,
}
use thunderchat_server.Moderation.Filing.{create_violation_report}
use thunderchat_server.Moderation.Filing.Evidence.{create_violation_report-evidence}
use thunderchat_server.Moderation.Filing.Failed.{IsRegular, create_violation_report-failed}
use thunderchat_server.Moderation.Filing.Filed.{IsOwn, create_violation_report-filed}
use thunderchat_server.Security.Utf16.{Text}
use thunderchat_server.Uploads.{url_of}
use thunderchat_server.Uploads.Files.{file_key_of, report_message_key}
use thunderchat_server.Uploads.Names.{units, second_part}
use thunderchat_server.Uploads.Types.{get_extension_from_content_type}
use thunderchat_server.Tests.Uploads.{upload, machine, picture}

abbrev services : FilingServices
services = record {
  user = in_memory _;
  message = in_memory _;
  violation_report = in_memory _;
  report_image = in_memory _;
  reported_message = in_memory _;
  upload = upload;
  times_out = λ id. false;
}

abbrev bob : Account
bob = record { id = 2; email = "bob"; password = "secret"; role = user }

abbrev from_bob : Correspondence
from_bob = record { id = 7; author_id = 2; recipient_id = some 1 }

abbrev foreign : Correspondence
foreign = record { id = 8; author_id = 3; recipient_id = some 1 }

abbrev video_url : Text
video_url = url_of machine (units "k")

abbrev server : FilingDb
server = record {
  users = bob ∷ [];
  messages = foreign ∷ from_bob ∷ [];
  tables = record { reports = []; report_images = []; reported_messages = [] };
  uploads = record { bucket = (units "k", "video/mp4") ∷ []; media = [] };
}

abbrev image : ImageInput
image = record { file = picture; at = 5 }

abbrev words : MessageInput
words = record {
  message_id = 7;
  message_type = ReportedMessageType.text;
  message_content = units "hi";
  at = 6;
}

abbrev video : MessageInput
video = record words { message_type = ReportedMessageType.video; message_content = video_url }

abbrev other : MessageInput
other = record words { message_id = 8 }

abbrev good : ReportInput
good = record {
  reported_user_id = 2;
  report_category = ReportCategory.bother;
  reason_text = none;
  reported_messages = words ∷ [];
  report_images = image ∷ [];
}

abbrev bad : ReportInput
bad = record good { reported_messages = words ∷ other ∷ [] }

abbrev with_video : ReportInput
with_video = record good { reported_messages = video ∷ other ∷ []; report_images = [] }

abbrev after_good : FilingDb
after_good = (create_violation_report services 1 good 9 server).1

abbrev after_bad : FilingDb
after_bad = (create_violation_report services 1 bad 9 server).1

create_violation_report-filed_example :
    ((◌==◌ {A = ℕ} 1 2) ≡ false)
    × (after_good.tables.reports ≡ new_report 1 good 9 1 ∷ [])
    × (length after_good.tables.report_images ≡ 0 + 1)
    × (length after_good.tables.reported_messages ≡ 0 + 1)
    × All (IsOwn 2 server.messages) (words ∷ [])
unfolding create_violation_report
create_violation_report-filed_example =
    create_violation_report-filed services 1 good 9 server after_good 1 refl

regular : IsRegular services 1 bad 9 server
unfolding file_key_of report_message_key get_extension_from_content_type
regular = record {
  deletes = λ k b. (delete b k, refl);
  host = (_, refl);
  image_keys = (refl, tt);
  message_keys = (refl, (refl, tt));
  in_time = (refl, (refl, tt));
}

create_violation_report-failed_example :
    (after_bad.tables ≡ server.tables)
    × (after_bad.users ≡ server.users)
    × (after_bad.messages ≡ server.messages)
    × ((get after_bad.uploads.bucket (units "k") ≡ get server.uploads.bucket (units "k"))
        ⊎ (get after_bad.uploads.bucket (units "k") ≡ none))
    × (length server.uploads.media ≤ length after_bad.uploads.media)
    × (length after_bad.uploads.media ≤ length server.uploads.media + length bad.report_images)
unfolding create_violation_report
create_violation_report-failed_example =
    create_violation_report-failed services 1 bad 9 server after_bad
      (plain (user_report_message message_not_found)) 107 [] regular (refl, tt) refl

create_violation_report-evidence_example :
    get (create_violation_report services 1 with_video 9 server).1.uploads.bucket (units "k") ≡ none
unfolding second_part
create_violation_report-evidence_example =
    create_violation_report-evidence services 1 with_video 9 server video other [] bob
      (new_report 1 with_video 9 1) (new_report 1 with_video 9 1 ∷ []) from_bob (units "k")
      (λ k b. (delete b k, refl)) refl refl refl refl refl refl refl refl refl refl refl refl
