-- ===== src/Tests.antt =====
-- Evaluations of the development on a small world.
mod Samples
mod Stores
mod Streams
mod Services
mod Arrivals
mod Requests
mod Routes
mod Files
mod Logins
mod Adapters
mod Tools
mod Postgres
