-- ===== src/Postgres/Refines.antt =====
-- internal/store/postgres against internal/store/sqlite: after the same writes both answer alike.
use whatsmeow_api.Prelude.{
  ◌+◌, ◌≡◌, refl, ap, ◌∙◌, String, Bool, true, false, ◌&&◌, Option, none, some, List, [], ◌∷◌, ◌++◌,
  map, arith, All, ◌==◌, if◌then◌else◌,
}
use mathlib.Core.Option
use mathlib.Core.List.{map-append}
use whatsmeow_api.Time.{Time, unix, ptr_unix}
use whatsmeow_api.Errors.{Result, ok, err, Error}
use whatsmeow_api.Store.{Chat, Message}
use whatsmeow_api.Table
use whatsmeow_api.Table.Views.{find-seen, map-put, map-delete, map-modify}
use whatsmeow_api.Sqlite.Tables.{
  Db, chat_key, message_key, reaction_key, receipt_key, pair_eq, triple_eq, has_chat, has_message,
  is_some, bool_to_int,
}
use whatsmeow_api.Sqlite.Chats
use whatsmeow_api.Sqlite.Messages
use whatsmeow_api.Sqlite.Contacts
use whatsmeow_api.Sqlite.Media
use whatsmeow_api.Sqlite.Events
use whatsmeow_api.Sqlite.Kv
use whatsmeow_api.Sqlite.Reactions
use whatsmeow_api.Sqlite.Receipts
use whatsmeow_api.Sqlite.Consistency.{
  Statement, put_chat, set_archived, put_message, soft_delete, put_contact, put_media, append_event,
  set_kv, delete_kv, put_reaction, delete_reaction, put_receipt, exec, or_same, run,
}
use whatsmeow_api.Postgres.Tables.{
  PgDb, PgEngine, pg_chat_key, pg_message_key, pg_reaction_key, pg_receipt_key, pg_has_chat,
  pg_has_message, ptr_time_or_nil, is_text, taken,
}
use whatsmeow_api.Postgres.Chats.{pg_chat, pg_chats_put, pg_set_archived}
use whatsmeow_api.Postgres.Messages.{pg_message, pg_messages_put, pg_soft_delete}
use whatsmeow_api.Postgres.Parts.{
  pg_contacts_put, pg_media_put, pg_events_append, pg_kv_set, pg_kv_delete, pg_reactions_put,
  pg_reactions_delete, pg_receipts_put,
}
use whatsmeow_api.Postgres.Seconds.{
  chat_seen, message_seen, event_seen, reaction_seen, receipt_seen, view, pg_exec, pg_or_same,
  pg_run, is_set, in_range, ptr_in_range, is_usual,
}

is_some-map {ℓ κ} :
    {A : Type ℓ} {B : Type κ} (f : A → B) (o : Option A) → is_some (Option.map f o) ≡ is_some o
is_some-map f none = refl
is_some-map f (some a) = refl

has_chat-view : (jid : String) (db : PgDb) → has_chat jid (view db) ≡ pg_has_chat jid db
has_chat-view jid db =
    ap is_some (find-seen pg_chat_key chat_key ◌==◌ chat_seen (λ r. refl) jid db.chats)
    ∙ is_some-map chat_seen (Table.find pg_chat_key ◌==◌ jid db.chats)

has_message-view : (id : String) (db : PgDb) → has_message id (view db) ≡ pg_has_message id db
has_message-view id db =
    ap is_some (find-seen pg_message_key message_key ◌==◌ message_seen (λ r. refl) id db.messages)
    ∙ is_some-map message_seen (Table.find pg_message_key ◌==◌ id db.messages)

-- Both fail, or both succeed and hold the same in whole seconds.
abbrev Alike : Result PgDb → Result Db → Type 0
Alike (ok d) (ok e) = view d ≡ e
Alike (err _) (err _) = Unit
Alike _ _ = ⊥

Alike-or_same :
    (db : PgDb) (r : Result PgDb) (q : Result Db)
    → Alike r q
    → view (pg_or_same db r) ≡ or_same (view db) q
Alike-or_same db (ok d) (ok e) h = h
Alike-or_same db (err _) (err _) h = refl
Alike-or_same db (ok _) (err _) h = absurd h
Alike-or_same db (err _) (ok _) h = absurd h

-- The two foreign keys hold of the same rows.
guarded-Alike :
    (b c : Bool) (d : PgDb) (e : Db) (x y : Error)
    → c ≡ b
    → view d ≡ e
    → Alike (if b then ok d else err x) (if c then ok e else err y)
guarded-Alike true true d e x y same h = h
guarded-Alike false false d e x y same h = tt
guarded-Alike true false d e x y same h = absurd (cc)
guarded-Alike false true d e x y same h = absurd (cc)

both : (a b : Bool) → a && b ≡ true → (a ≡ true) × (b ≡ true)
both true true h = (refl, refl)
both true false h = absurd (cc)
both false b h = absurd (cc)

taken-Alike :
    (b : Bool) (r : Result PgDb) (q : Result Db) → b ≡ true → Alike r q → Alike (taken b r) q
taken-Alike true r q h a = a
taken-Alike false r q h a = absurd (cc)

module _ (g : PgEngine) (whole : (t : Time) → in_range t ≡ true → unix (g.kept t) ≡ unix t) where
  chat_seen-pg_chat :
      (c : Chat) → in_range c.last_msg_at ≡ true → chat_seen (pg_chat g c) ≡ Chats.chat_row c
  chat_seen-pg_chat c h = ground (arith, whole c.last_msg_at h)

  ptr_seen :
      (o : Option Time)
      → is_set o ≡ true
      → ptr_in_range o ≡ true
      → Option.map unix (Option.map g.kept (ptr_time_or_nil o)) ≡ ptr_unix o
  ptr_seen none _ _ = refl
  ptr_seen (some t) h i = ground (arith, whole t i)

  message_seen-pg_message :
      (m : Message)
      → in_range m.timestamp ≡ true
      → is_set m.edited_at && is_set m.deleted_at ≡ true
      → ptr_in_range m.edited_at && ptr_in_range m.deleted_at ≡ true
      → message_seen (pg_message g m) ≡ Messages.message_row m
  message_seen-pg_message m now set near =
      let (edited, deleted) = both (is_set m.edited_at) (is_set m.deleted_at) set in
      let (edited_near, deleted_near) =
        both (ptr_in_range m.edited_at) (ptr_in_range m.deleted_at) near in
      cc (
        whole m.timestamp now,
        ptr_seen m.edited_at edited edited_near,
        ptr_seen m.deleted_at deleted deleted_near,
      )

  exec-Alike :
      (s : Statement) (db : PgDb) → is_usual g s ≡ true → Alike (pg_exec g s db) (exec s (view db))
  unfolding pg_exec exec pg_chats_put pg_set_archived pg_soft_delete pg_contacts_put pg_kv_set
      pg_kv_delete pg_reactions_delete pg_events_append Chats.put Chats.set_archived
      Messages.soft_delete Messages.put Contacts.put Media.put Kv.set Kv.delete Reactions.delete
      Reactions.put Receipts.put Events.append pg_messages_put pg_media_put pg_reactions_put
      pg_receipts_put
  exec-Alike (put_chat c) db usual =
      let (fits, near) = both _ _ usual in
      taken-Alike _ _ _ fits (
        ap (λ rows. record (view db) { chats = rows })
          (map-put pg_chat_key chat_key ◌==◌ chat_seen (λ r. refl) (pg_chat g c) db.chats
            ∙ ap (λ r. Table.put chat_key ◌==◌ r (map chat_seen db.chats))
                (chat_seen-pg_chat c near)))
  exec-Alike (set_archived jid a) db usual = taken-Alike _ _ _ usual (
      ap (λ rows. record (view db) { chats = rows })
        (map-modify pg_chat_key chat_key ◌==◌ chat_seen (λ r. refl) (λ r. record r { archived = a })
          (λ r. record r { archived = bool_to_int a }) (λ r. refl) jid db.chats))
  exec-Alike (put_message m) db usual =
      let (fits, times) = both _ _ usual in
      let (now, pointers) = both _ _ times in
      let (set, near) = both _ _ pointers in
      taken-Alike _ _ _ fits (
        guarded-Alike (pg_has_chat m.chat_jid db) (has_chat m.chat_jid (view db)) _ _ _ _
          (has_chat-view m.chat_jid db)
          (ap (λ rows. record (view db) { messages = rows })
            (map-put pg_message_key message_key ◌==◌ message_seen (λ r. refl) (pg_message g m)
                db.messages
              ∙ ap (λ r. Table.put message_key ◌==◌ r (map message_seen db.messages))
                  (message_seen-pg_message m now set near))))
  exec-Alike (soft_delete id t) db usual =
      let (fits, near) = both (is_text id) (in_range t) usual in
      taken-Alike _ _ _ fits (
        ap (λ rows. record (view db) { messages = rows })
          (map-modify pg_message_key message_key ◌==◌ message_seen (λ r. refl)
            (λ r. record r { deleted_at = some (g.kept t) })
            (λ r. record r { deleted_at = some (unix t) }) (λ r. cc (whole t near)) id db.messages))
  exec-Alike (put_contact c) db usual = taken-Alike _ _ _ usual refl
  exec-Alike (put_media m) db usual = taken-Alike _ _ _ usual (
      guarded-Alike (pg_has_message m.message_id db) (has_message m.message_id (view db)) _ _ _ _
        (has_message-view m.message_id db) refl)
  exec-Alike (append_event e) db usual =
      let (fits, near) = both (is_text e.type) (in_range e.time) usual in
      rw fits (
        ap (λ rows. record (view db) { events_log = rows; last_seq = db.last_seq + 1 })
          (map-append event_seen db.events_log _
            ∙ ap
                (λ t.
                  map event_seen db.events_log
                  ++ (record { seq = db.last_seq + 1; ts = t; type = e.type; payload = e.payload }
                      ∷ []))
                (whole e.time near)))
  exec-Alike (set_kv k v) db usual = taken-Alike _ _ _ usual refl
  exec-Alike (delete_kv k) db usual = taken-Alike _ _ _ usual refl
  exec-Alike (put_reaction r) db usual =
      let (fits, near) = both _ _ usual in
      taken-Alike _ _ _ fits (
        guarded-Alike (pg_has_message r.message_id db) (has_message r.message_id (view db)) _ _ _ _
          (has_message-view r.message_id db)
          (ap (λ rows. record (view db) { reactions = rows })
            (map-put pg_reaction_key reaction_key pair_eq reaction_seen (λ r. refl) _ db.reactions
              ∙ ap
                  (λ t.
                    Table.put reaction_key pair_eq (record (Reactions.reaction_row r) { ts = t })
                      (map reaction_seen db.reactions))
                  (whole r.timestamp near))))
  exec-Alike (delete_reaction m s) db usual = taken-Alike _ _ _ usual (
      ap (λ rows. record (view db) { reactions = rows })
        (map-delete pg_reaction_key reaction_key pair_eq reaction_seen (λ r. refl) (m, s)
          db.reactions))
  exec-Alike (put_receipt r) db usual =
      let (fits, near) = both _ _ usual in
      taken-Alike _ _ _ fits (
        guarded-Alike (pg_has_message r.message_id db) (has_message r.message_id (view db)) _ _ _ _
          (has_message-view r.message_id db)
          (ap (λ rows. record (view db) { receipts = rows })
            (map-put pg_receipt_key receipt_key triple_eq receipt_seen (λ r. refl) _ db.receipts
              ∙ ap
                  (λ t.
                    Table.put receipt_key triple_eq (record (Receipts.receipt_row r) { ts = t })
                      (map receipt_seen db.receipts))
                  (whole r.timestamp near))))

  -- The statements commute with the view.
  pub run-view :
      (ss : List Statement) (db : PgDb)
      → All (λ s. is_usual g s ≡ true) ss
      → view (pg_run g ss db) ≡ run ss (view db)
  unfolding pg_run run
  run-view [] db _ = refl
  run-view (s ∷ ss) db (usual, more) =
      run-view ss (pg_or_same db (pg_exec g s db)) more
      ∙ ap (run ss) (Alike-or_same db (pg_exec g s db) (exec s (view db)) (exec-Alike s db usual))
