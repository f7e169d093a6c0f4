-- ===== src/Http.antt =====
-- internal/transport/http: what the HTTP interface makes of the service.
pub mod Response
pub mod Encode
pub mod Params
pub mod Reads
pub mod Form
pub mod Writes
pub mod Login
pub mod Auth
pub mod Events
pub mod Router
