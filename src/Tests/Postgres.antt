-- ===== src/Tests/Postgres.antt =====
-- The PostgreSQL store beside the SQLite store, on a server that keeps microseconds.
use whatsmeow_api.Errors.{err, failure}
use whatsmeow_api.Store.{Chat}
use whatsmeow_api.Postgres.Chats.{pg_chats_put}
use whatsmeow_api.Prelude.{ℕ, ◌+◌, ◌≡◌, ◌*◌, ◌/◌, refl, true, ◌==◌}
use whatsmeow_api.Sqlite.Tables.{empty_db}
use whatsmeow_api.Sqlite.Consistency.{run}
use whatsmeow_api.Postgres.Tables.{PgDb, PgEngine}
use whatsmeow_api.Postgres.Seconds.{empty_pg, pg_run}
use whatsmeow_api.Postgres.Answers.{AnswersAlike, pg_run-AnswersAlike}
use whatsmeow_api.Tests.Samples.{history}

abbrev server : PgEngine
server = record {
  kept = λ t. record t { nsec = t.nsec / 1000 * 1000 };
  has_room = λ table texts. true;
  collate = λ a b. true;
  to_lower = λ s. s;
  lower = λ s. s;
  like = λ pattern s. s == pattern;
  tsquery = λ query body. body == query;
  ts_rank = λ query body. 0;
}

pg_run-AnswersAlike_example :
    AnswersAlike (pg_run server history empty_pg) (run history empty_db)
    × ((c : Chat) (n : ℕ) (db : PgDb)
        → pg_chats_put server (record c { unread_count = 2147483648 + n }) db
          ≡ err (failure "a value is refused"))
pg_run-AnswersAlike_example = pg_run-AnswersAlike server (λ t near. refl) history (refl, (refl, tt))
