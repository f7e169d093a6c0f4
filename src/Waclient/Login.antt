-- ===== src/Waclient/Login.antt =====
-- internal/waclient/whatsmeow_adapter.go: the goroutines of a login, which carry what whatsmeow
-- reports to the caller of `LoginQR` and `LoginPhone` over a buffered channel.
pub mod Qr
pub mod Phone
use whatsmeow_api.Prelude.{String, true, false}
use whatsmeow_api.Waclient.{LoginEvent}

abbrev pub code_frame : String → LoginEvent
code_frame code = record { code = code; terminal = false; outcome = "" }

abbrev pub terminal_frame : String → LoginEvent
terminal_frame outcome = record { code = ""; terminal = true; outcome = outcome }
