-- ===== src/Mcp.antt =====
-- internal/transport/mcp: what the tools of the Model Context Protocol make of the service.
pub mod Errors
pub mod Outputs
pub mod Tools
