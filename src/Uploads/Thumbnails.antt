-- ===== src/Uploads/Thumbnails.antt =====
-- upload/thumbnail.service.ts: the picture of a video. The files that it writes meanwhile are deleted
-- at its end and left out; nothing throws behind the upload, so that its own rollback is never
-- reached.
use thunderchat_server.Base.{not, Option, none, some, ◌++◌, if◌then◌else◌}
use thunderchat_server.Base.Action.{
  Action, pure, throw_if, plain, upload_message, download_failed, screenshot_failed, ◌>>◌,
}
use thunderchat_server.Security.Utf16.{Text}
use thunderchat_server.Uploads.{UploadDb, UploadServices, send_put, url_of}
use thunderchat_server.Uploads.Names.{units, basename, extname, without_end}

unfoldable pub generate_thumbnail_key : Text → Text
generate_thumbnail_key video_key =
    without_end (basename video_key) (extname video_key) ++ units "_thumb.jpg"

abbrev pub thumbnail_object : Text → Text
thumbnail_object video_key = units "thumbnail/" ++ generate_thumbnail_key video_key

module _ (services : UploadServices) where
  open services use {object_store, machine}

  unfoldable pub upload_thumbnail_to_s3 : Text → Action UploadDb Text
  unfolding send_put
  upload_thumbnail_to_s3 thumbnail_key = do
    send_put object_store (units "thumbnail/" ++ thumbnail_key) "image/jpeg"
    pure (url_of machine (units "thumbnail/" ++ thumbnail_key))

  unfoldable pub generate_video_thumbnail : Text → Text → Action UploadDb Text
  unfolding upload_thumbnail_to_s3
  generate_video_thumbnail video_url video_key = do
    throw_if (not (machine.can_download video_url)) (plain (upload_message download_failed))
    throw_if (not (machine.can_screenshot video_url)) (plain (upload_message screenshot_failed))
    upload_thumbnail_to_s3 (generate_thumbnail_key video_key)

  unfoldable pub check_thumbnail_exists : Text → UploadDb → Option Text
  check_thumbnail_exists video_key s =
      if object_store.find_object (thumbnail_object video_key) s.bucket
      then some (url_of machine (thumbnail_object video_key))
      else none
