-- ===== src/Lib.antt =====
-- Verification of whatsmeow-api, a daemon that puts a WhatsApp account behind an HTTP interface. It
-- keeps an app store (chats, messages, contacts, attachments, reactions, receipts and a log of
-- events), reaches WhatsApp through the whatsmeow library, and tells its clients of what happens by
-- a stream of events.
--
-- The parts, the files that model them, and the code:
--
--   Store, Store/Bundle     internal/store/store.go: the records and the interface `Bundle` of a store.
--   Sqlite and below        internal/store/sqlite/*.go on the tables of
--                           internal/store/migrations/sqlite: a module for each Go type (Chats,
--                           Messages, Contacts, Media, Events, Kv, Reactions, Receipts), a function for
--                           each method, and Sqlite/Store for (*Store).Bundle. Sqlite/Consistency,
--                           RoundTrip, Listing and Since hold the theorems.
--   Postgres and below      internal/store/postgres/*.go on the tables of
--                           internal/store/migrations/postgres: Chats, Messages, and the six smaller
--                           stores in Parts; Postgres/Store for (*Store).Bundle. Seconds, Refines and
--                           Answers compare the two stores.
--   Broadcaster             internal/transport/sse/broadcaster.go: New, Subscribe, Unsubscribe,
--                           Publish, and the receive of a subscriber.
--   Waclient and below      internal/waclient/waclient.go: the domain types, the interface WAClient
--                           (Waclient/Client), IsValidPhoneNumber and ChatKindFromJID (Waclient/Jid);
--                           internal/waclient/whatsmeow_adapter.go: the translations of what
--                           arrives (Waclient/Translate), the adapter's methods over the whatsmeow
--                           library (Waclient/Adapter: Connection, Calls, Calls/Group, Events), the
--                           adapter as a WAClient (Adapter/Implements), and the goroutines of the two
--                           logins (Waclient/Login/Qr and Phone).
--   Service and below       internal/service/service.go: a function for each method of `svc`, in Send,
--                           Edit, React, Query and Groups, and the handlers handleIncoming,
--                           downloadAndPersistMedia and handleReceipt in Incoming;
--                           internal/service/events.go in Emitter and Payloads.
--   Http/Router             internal/transport/http/router.go: the routes, the token's group, and their
--                           handlers; health.go.
--   Http/Events             internal/transport/http/events.go: the handler of GET /v1/events.
--   Http/Reads, Writes,     internal/transport/http/*.go: a function for each of the other handlers, with
--   Login, Params, Encode,  the query parameters in Params, the JSON bodies in Encode and the problems
--   Response, Form, Auth    in Response; Form is the form and pickMIME of media.go, and Auth auth.go.
--   Client                  internal/client/client.go: readSSE, against SSEWriteEvent of
--                           internal/transport/http/sse.go (Client/Sse), problemError, and Logout,
--                           LoginQR and LoginPhone from the daemon's answer on (Client/Session).
--   Mediastore              internal/mediastore/mediastore.go, with the calls of the operating system
--                           that may fail as an argument. The hash is a parameter.
--   Config                  internal/config/config.go: the fields, defaults and Validate.
--   Mcp                     internal/transport/mcp/errors.go: mapErr (Mcp/Errors); tools_*.go: a function
--                           for each tool (Mcp/Tools), the conversions of its output
--                           (Mcp/Outputs), and the requests that HTTP takes too
--                           (Mcp/Tools/Request).
--   Tests                   a small world on which the theorems are evaluated.
--
-- The service is written against the two interfaces, so its functions take a store `Bundle`, a
-- WhatsApp client `WaClient` and a media store `MediaDisk`; `World` holds their states. A function of
-- the service maps a world to its result and the next world. What is proved of the SQLite store is
-- proved of the service on it by instantiating `Bundle` with `Sqlite.Store.bundle`. The event stream
-- reads the same log and a channel of the broadcaster.
--
-- How code is turned into definitions:
--
--   - A SQL table is a list of rows, a statement a function from the database to the new one or an
--     error, a transaction by itself. Foreign keys are enforced, as the connection asks for. Instants
--     are kept in whole seconds, which is what the columns hold, counted from Go's zero time.
--   - The PostgreSQL store refuses a text with a NUL and an unread count beyond 32 bits, as its columns
--     do; the SQLite store takes both.
--   - Errors are the sentinels that callers tell apart, with the text that is wrapped around the
--     service's own; an error of a database or of a library is one constructor with a text.
--   - Logging has no effect and is left out. The clock stands still within one call.
--   - JSON payloads are values, and a frame of the event stream is its id, event and data.
--   - The loop that replays the log takes the number of reads that it may make. One read more than
--     there are events is enough for a log that nobody writes to meanwhile.
--   - The goroutine of a login, its caller, its context, its timer and whatsmeow each make moves; a run
--     is any list of moves, where one that has to wait changes nothing. The channel has the capacity
--     that the code gives it.
--   - Where `Store.ID` is nil although whatsmeow says that it is logged in, the adapter's dereference
--     panics; the model returns an error there, and the mutex that stays locked is left out.
--   - whatsmeow is the record `Whatsmeow` of the calls that the adapter makes, over a state `Device`.
--     Between two of its calls the adapter holds its mutex or works on its own data, so a method is
--     one function; the frames that a login yields later are those of its goroutine.
--   - What the wakes of the live tail are and in which order they come is an argument, and so is the
--     state of the log at each read: the theorems hold for every interleaving.
--
-- Not modelled: the engine of SQLite beyond what is said above (full-text matching, LIKE and case
-- folding are functions in `Engine`; the collation, what a TIMESTAMPTZ keeps and whether an index
-- has room for a text are functions in `PgEngine`, and what an instant past its range does is left
-- to it), texts that are not UTF-8, counters beyond 64 bits other than the broadcaster's, the
-- whatsmeow library, net/http and the matching of paths by chi, the parsing of multipart forms,
-- the decoding and rendering of JSON, the reading of RFC 3339 (an argument of the handlers), the
-- SDK of the MCP server, the requests of the client, the sources of the configuration and the
-- command line.
mod Prelude
pub mod Text
pub mod Time
pub mod Errors
pub mod Table
pub mod Json
pub mod Store
pub mod Order
pub mod Sqlite
pub mod Postgres
pub mod Broadcaster
pub mod Waclient
pub mod Service
pub mod Http
pub mod Client
pub mod Config
pub mod Mcp
pub mod Mediastore
mod Tests
