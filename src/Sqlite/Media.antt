-- ===== src/Sqlite/Media.antt =====
-- internal/store/sqlite/media.go
use whatsmeow_api.Prelude.{String, Option, none, some, ◌==◌, if◌then◌else◌}
use whatsmeow_api.Errors.{Result, ok, err, not_found, failure}
use whatsmeow_api.Store.{MediaRef}
use whatsmeow_api.Table
use whatsmeow_api.Sqlite.Tables.{MediaRow, Db, media_key, has_message}

abbrev pub media_row : MediaRef → MediaRow
media_row m = record {
  message_id = m.message_id;
  mime = m.mime;
  size = m.size;
  sha256 = m.sha256;
  path = m.path;
}

abbrev pub scan_media : MediaRow → MediaRef
scan_media r = record {
  message_id = r.message_id;
  mime = r.mime;
  size = r.size;
  sha256 = r.sha256;
  path = r.path;
}

-- The message must be there first.
unfoldable pub put : MediaRef → Db → Result Db
put m db =
    if has_message m.message_id db
    then ok (record db { media = Table.put media_key ◌==◌ (media_row m) db.media })
    else err (failure "media put: FOREIGN KEY constraint failed")

abbrev scan_found : Option MediaRow → Result MediaRef
scan_found none = err not_found
scan_found (some r) = ok (scan_media r)

unfoldable pub get_by_message_id : String → Db → Result MediaRef
get_by_message_id id db = scan_found (Table.find media_key ◌==◌ id db.media)
