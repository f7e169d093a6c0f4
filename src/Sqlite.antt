-- ===== src/Sqlite.antt =====
-- internal/store/sqlite: the app store on a SQLite file, with the tables of
-- internal/store/migrations/sqlite/*.up.sql. A module for each Go type of the package.
pub mod Tables
pub mod Chats
pub mod Messages
pub mod Contacts
pub mod Media
pub mod Events
pub mod Kv
pub mod Reactions
pub mod Receipts
pub mod Store
pub mod RoundTrip
pub mod Consistency
pub mod Since
pub mod Listing
