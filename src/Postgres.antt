-- ===== src/Postgres.antt =====
-- internal/store/postgres: the app store on PostgreSQL.
pub mod Tables
pub mod Chats
pub mod Messages
pub mod Parts
pub mod Store
pub mod Seconds
pub mod Refines
pub mod Answers
