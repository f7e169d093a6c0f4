-- ===== src/Service.antt =====
-- internal/service: the daemon's use cases, over any store, any WhatsApp client and any media disk.
pub mod World
pub mod Payloads
pub mod Emitter
pub mod Send
pub mod Edit
pub mod React
pub mod Incoming
pub mod Query
pub mod Groups
