-- ===== src/Waclient/Client.antt =====
-- internal/waclient/waclient.go: `WAClient`, the interface through which the service reaches
-- WhatsApp. `Net` is the state of the connection and of all that lies behind it.
use whatsmeow_api.Prelude.{ℕ, String, List}
use whatsmeow_api.Time.{Time}
use whatsmeow_api.Errors.{Result}
use whatsmeow_api.Waclient.{Status, LoginEvent, Sent, Group, ParticipantChange, Downloader}

pub record WaClient : Type 1 where
  pub Net : Type 0
  pub status : Net → Status
  -- The frames that the returned channel will carry.
  pub login_qr : Net → Result (List LoginEvent) × Net
  pub login_phone : String → Net → Result (List LoginEvent) × Net
  pub logout : Net → Result (Unit {0}) × Net
  pub send_text : String → String → String → Net → Result Sent × Net
  pub send_media : String → String → String → String → String → List ℕ → Net → Result Sent × Net
  pub send_edit : String → String → String → Net → Result Sent × Net
  pub send_revoke : String → String → Net → Result Sent × Net
  pub send_reaction : String → String → String → Net → Result (Unit {0}) × Net
  pub mark_read : String → String → String → Time → Net → Result (Unit {0}) × Net
  pub send_chat_presence : String → String → Net → Result (Unit {0}) × Net
  pub create_group : String → List String → Net → Result Group × Net
  pub get_group_info : String → Net → Result Group × Net
  pub update_group_participants :
      String → String → List String → Net → Result (List ParticipantChange) × Net
  pub leave_group : String → Net → Result (Unit {0}) × Net
  -- A call of a `MediaDownloader`: the bytes and their MIME type.
  pub download : Downloader → Net → Result (List ℕ × String)
