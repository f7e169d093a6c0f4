-- ===== src/Sqlite/Contacts.antt =====
-- internal/store/sqlite/contacts.go. `lower` and `like` are SQLite's LOWER and LIKE on texts, and
-- `to_lower` is Go's strings.ToLower.
use whatsmeow_api.Prelude.{
  ℕ, String, Bool, ◌||◌, Option, none, some, List, map, keep, length, ◌==◌, ℤ,
}
use Prim.Native.String.{◌++◌ as ◌<>◌}
use whatsmeow_api.Errors.{Result, ok, err, not_found}
use whatsmeow_api.Store.{Contact}
use whatsmeow_api.Order.{order_by, limit_rows, text_leb}
use whatsmeow_api.Table
use whatsmeow_api.Sqlite.Tables.{ContactRow, Db, contact_key, nullable_string, null_string}

abbrev pub contact_row : Contact → ContactRow
contact_row c = record {
  jid = c.jid;
  push_name = nullable_string c.push_name;
  full_name = nullable_string c.full_name;
  business_name = nullable_string c.business_name;
}

unfoldable pub scan_contact : ContactRow → Contact
scan_contact r = record {
  jid = r.jid;
  push_name = null_string r.push_name;
  full_name = null_string r.full_name;
  business_name = null_string r.business_name;
}

unfoldable pub put : Contact → Db → Result Db
put c db = ok (record db { contacts = Table.put contact_key ◌==◌ (contact_row c) db.contacts })

abbrev scan_found : Option ContactRow → Result Contact
scan_found none = err not_found
scan_found (some r) = ok (scan_contact r)

unfoldable pub get : String → Db → Result Contact
unfolding scan_contact
get jid db = scan_found (Table.find contact_key ◌==◌ jid db.contacts)

-- ORDER BY jid ASC
abbrev pub by_jid : ContactRow → ContactRow → Bool
by_jid a b = text_leb a.jid b.jid

unfoldable pub list : Db → Result (List Contact)
unfolding scan_contact order_by
list db = ok (map scan_contact (order_by by_jid db.contacts))

module _ (to_lower lower : String → String) (like : String → String → Bool) where
  abbrev pub search_where : String → ContactRow → Bool
  search_where pat r =
      like pat (lower (null_string r.push_name))
      || like pat (lower (null_string r.full_name))
      || like pat (lower (null_string r.business_name))

  unfoldable pub search : String → ℤ → Db → Result (List Contact)
  unfolding scan_contact order_by
  search query limit db = ok (
      map scan_contact (
        limit_rows limit
          (order_by by_jid (keep (search_where ("%" <> (to_lower query <> "%"))) db.contacts))))

unfoldable pub contacts_count : Db → Result ℕ
contacts_count db = ok (length db.contacts)
