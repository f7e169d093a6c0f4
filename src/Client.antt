-- ===== src/Client.antt =====
-- internal/client/client.go: the client of the command line.
pub mod Sse
pub mod Problem
pub mod Session
