-- ===== src/Config.antt =====
-- internal/config/config.go: the configuration and its check. `is_loopback` is what `net.ParseIP` and
-- `IsLoopback` say of an address. Sources (defaults, file, environment) are merged by koanf.
pub mod Exposure
use whatsmeow_api.Prelude.{
  ℕ, String, Bool, true, false, not, ◌&&◌, ◌||◌, Option, none, some, ◌==◌, if◌then◌else◌,
}

pub record Config : Type 0 where
  pub data_dir : String
  pub bind : String
  pub port : ℕ
  pub token : String
  pub backend : String
  pub sqlite_path : String
  pub postgres_dsn : String
  pub log_level : String
  pub log_format : String
  pub retention_hours : ℕ
  pub mcp_enabled : Bool
  pub metrics_enabled : Bool
  pub max_body_bytes : ℕ
  pub sse_heartbeat_seconds : ℕ
  pub sse_subscriber_buffer : ℕ

abbrev pub defaults : Config
defaults = record {
  data_dir = "./data";
  bind = "127.0.0.1";
  port = 8080;
  token = "";
  backend = "sqlite";
  sqlite_path = "./data/whatsmeow-api.db";
  postgres_dsn = "";
  log_level = "info";
  log_format = "text";
  retention_hours = 24;
  mcp_enabled = true;
  metrics_enabled = false;
  max_body_bytes = 104857600;
  sse_heartbeat_seconds = 25;
  sse_subscriber_buffer = 256;
}

abbrev is_level : String → Bool
is_level l = l == "debug" || l == "info" || l == "warn" || l == "error"

abbrev log_problem : Config → Option String
log_problem c =
    if not (is_level c.log_level)
    then some "log.level must be one of debug, info, warn, error"
    else if not (c.log_format == "text" || c.log_format == "json")
    then some "log.format must be \"text\" or \"json\""
    else none

-- The first thing that is wrong, if any is.
unfoldable pub validate : (String → Bool) → Config → Option String
validate is_loopback c =
    if not (is_loopback c.bind) && c.token == ""
    then some "auth.token is required when server.bind is not a loopback address"
    else if c.backend == "sqlite"
    then log_problem c
    else if c.backend == "postgres"
    then (if c.postgres_dsn == ""
        then some "storage.postgres_dsn is required when storage.backend is \"postgres\""
        else log_problem c)
    else some "storage.backend must be \"sqlite\" or \"postgres\""
