-- ===== src/Sqlite/Kv.antt =====
-- internal/store/sqlite/kv.go
use whatsmeow_api.Prelude.{String, Option, none, some, ◌==◌}
use whatsmeow_api.Errors.{Result, ok, err, not_found}
use whatsmeow_api.Table
use whatsmeow_api.Sqlite.Tables.{KvRow, Db, kv_key}

abbrev found : Option KvRow → Result String
found none = err not_found
found (some r) = ok r.value

unfoldable pub get : String → Db → Result String
get key db = found (Table.find kv_key ◌==◌ key db.kv)

unfoldable pub set : String → String → Db → Result Db
set key value db =
    ok (record db { kv = Table.put kv_key ◌==◌ (record { key = key; value = value }) db.kv })

unfoldable pub delete : String → Db → Result Db
delete key db = ok (record db { kv = Table.delete kv_key ◌==◌ key db.kv })
