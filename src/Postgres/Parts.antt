-- ===== src/Postgres/Parts.antt =====
-- internal/store/postgres/{contacts,media,events_log,kv,reactions,receipts}.go
use whatsmeow_api.Prelude.{
  ℕ, ◌+◌, String, Bool, ◌||◌, Option, none, some, List, [], ◌∷◌, ◌++◌, map, keep, length, ltb, leb,
  ◌==◌, if◌then◌else◌, ℤ,
}
use Prim.Native.String.{◌++◌ as ◌<>◌}
use whatsmeow_api.Errors.{Result, ok, err, not_found, failure, ◌>>=◌}
use whatsmeow_api.Store.{Contact, MediaRef, EventLogEntry, Reaction, Receipt}
use whatsmeow_api.Order.{order_by}
use whatsmeow_api.Table
use whatsmeow_api.Sqlite.Tables.{
  ContactRow, MediaRow, KvRow, contact_key, media_key, kv_key, pair_eq, triple_eq, null_string,
}
use whatsmeow_api.Sqlite.Contacts.{contact_row, scan_contact}
use whatsmeow_api.Sqlite.Media.{media_row, scan_media}
use whatsmeow_api.Postgres.Tables.{
  PgEvent, PgReaction, PgReceipt, PgDb, PgEngine, pg_reaction_key, pg_receipt_key, pg_has_message,
  limited, is_text, are_texts, taken, contact_fits, media_fits, value_fits, reaction_fits,
  receipt_fits,
}

-- contacts.go; a contact's row has no column in which the two stores differ.
abbrev contact_found : Option ContactRow → Result Contact
contact_found none = err not_found
contact_found (some r) = ok (scan_contact r)

unfoldable pub pg_contacts_get : String → PgDb → Result Contact
unfolding scan_contact
pg_contacts_get jid db =
    taken (is_text jid) (contact_found (Table.find contact_key ◌==◌ jid db.contacts))

unfoldable pub pg_contacts_count : PgDb → Result ℕ
pg_contacts_count db = ok (length db.contacts)

-- media.go
abbrev media_found : Option MediaRow → Result MediaRef
media_found none = err not_found
media_found (some r) = ok (scan_media r)

unfoldable pub pg_media_get : String → PgDb → Result MediaRef
pg_media_get id db = taken (is_text id) (media_found (Table.find media_key ◌==◌ id db.media))

-- kv.go
abbrev value_found : Option KvRow → Result String
value_found none = err not_found
value_found (some r) = ok r.value

unfoldable pub pg_kv_get : String → PgDb → Result String
pg_kv_get key db = taken (is_text key) (value_found (Table.find kv_key ◌==◌ key db.kv))

unfoldable pub pg_kv_delete : String → PgDb → Result PgDb
pg_kv_delete key db =
    taken (is_text key) (ok (record db { kv = Table.delete kv_key ◌==◌ key db.kv }))

unfoldable pub pg_reactions_delete : String → String → PgDb → Result PgDb
pg_reactions_delete message_id sender_jid db = taken (are_texts (message_id ∷ sender_jid ∷ [])) (
    ok (record db {
      reactions = Table.delete pg_reaction_key pair_eq (message_id, sender_jid) db.reactions;
    }))

module _ (g : PgEngine) where
  unfoldable pub pg_contacts_put : Contact → PgDb → Result PgDb
  pg_contacts_put c db =
      taken (contact_fits g c)
        (ok (record db { contacts = Table.put contact_key ◌==◌ (contact_row c) db.contacts }))

  unfoldable pub pg_media_put : MediaRef → PgDb → Result PgDb
  pg_media_put m db = taken (media_fits g m) (
      if pg_has_message m.message_id db
      then ok (record db { media = Table.put media_key ◌==◌ (media_row m) db.media })
      else err (failure "media put: violates foreign key constraint"))

  unfoldable pub pg_kv_set : String → String → PgDb → Result PgDb
  pg_kv_set key value db =
      taken (value_fits g key value)
        (ok (record db { kv = Table.put kv_key ◌==◌ (record { key = key; value = value }) db.kv }))

  unfoldable pub pg_contacts_list : PgDb → Result (List Contact)
  unfolding scan_contact order_by
  pg_contacts_list db = ok (map scan_contact (order_by (λ a b. g.collate a.jid b.jid) db.contacts))

  abbrev contact_where : String → ContactRow → Bool
  contact_where pat r =
      g.like pat (g.lower (null_string r.push_name))
      || g.like pat (g.lower (null_string r.full_name))
      || g.like pat (g.lower (null_string r.business_name))

  unfoldable pub pg_contacts_search : String → ℤ → PgDb → Result (List Contact)
  unfolding scan_contact order_by limited
  pg_contacts_search query limit db = taken (is_text query) (
      limited limit (
        order_by (λ a b. g.collate a.jid b.jid)
          (keep (contact_where ("%" <> (g.to_lower query <> "%"))) db.contacts))
      >>= λ rows. ok (map scan_contact rows))

  -- events_log.go; the sequence gives the next number.
  unfoldable pub pg_events_append : EventLogEntry → PgDb → Result (ℕ × PgDb)
  pg_events_append e db =
      let seq = db.last_seq + 1 in
      let row : PgEvent = record {
        seq = seq;
        ts = g.kept e.time;
        type = e.type;
        payload = e.payload;
      } in
      taken (is_text e.type)
        (ok (seq, record db { events_log = db.events_log ++ (row ∷ []); last_seq = seq }))

  abbrev scan_pg_event : PgEvent → EventLogEntry
  scan_pg_event r = record { seq = r.seq; time = r.ts; type = r.type; payload = r.payload }

  unfoldable pub pg_since_seq : ℕ → ℤ → PgDb → Result (List EventLogEntry)
  unfolding order_by limited
  pg_since_seq seq limit db =
      limited limit (order_by (λ a b. leb a.seq b.seq) (keep (λ r. ltb seq r.seq) db.events_log))
      >>= λ rows. ok (map scan_pg_event rows)

  -- reactions.go
  unfoldable pub pg_reactions_put : Reaction → PgDb → Result PgDb
  pg_reactions_put r db = taken (reaction_fits g r) (
      if pg_has_message r.message_id db
      then ok (record db {
        reactions =
            Table.put pg_reaction_key pair_eq
              (record {
                message_id = r.message_id;
                sender_jid = r.sender_jid;
                emoji = r.emoji;
                ts = g.kept r.timestamp;
              })
              db.reactions;
      })
      else err (failure "reactions put: violates foreign key constraint"))

  abbrev scan_pg_reaction : PgReaction → Reaction
  scan_pg_reaction r = record {
    message_id = r.message_id;
    sender_jid = r.sender_jid;
    emoji = r.emoji;
    timestamp = r.ts;
  }

  unfoldable pub pg_reactions_list : String → PgDb → Result (List Reaction)
  unfolding order_by
  pg_reactions_list id db = taken (is_text id) (
      ok (
        map scan_pg_reaction (
          order_by (λ a b. g.collate a.sender_jid b.sender_jid)
            (keep (λ r. r.message_id == id) db.reactions))))

  -- receipts.go
  unfoldable pub pg_receipts_put : Receipt → PgDb → Result PgDb
  pg_receipts_put r db = taken (receipt_fits g r) (
      if pg_has_message r.message_id db
      then ok (record db {
        receipts =
            Table.put pg_receipt_key triple_eq
              (record {
                message_id = r.message_id;
                reader_jid = r.reader_jid;
                type = r.type;
                ts = g.kept r.timestamp;
              })
              db.receipts;
      })
      else err (failure "receipts put: violates foreign key constraint"))

  abbrev scan_pg_receipt : PgReceipt → Receipt
  scan_pg_receipt r = record {
    message_id = r.message_id;
    reader_jid = r.reader_jid;
    type = r.type;
    timestamp = r.ts;
  }

  -- ORDER BY reader_jid ASC, type ASC
  abbrev by_reader_type : PgReceipt → PgReceipt → Bool
  by_reader_type a b =
      if a.reader_jid == b.reader_jid
      then g.collate a.type b.type
      else g.collate a.reader_jid b.reader_jid

  unfoldable pub pg_receipts_list : String → PgDb → Result (List Receipt)
  unfolding order_by
  pg_receipts_list id db = taken (is_text id) (
      ok (
        map scan_pg_receipt (order_by by_reader_type (keep (λ r. r.message_id == id) db.receipts))))
