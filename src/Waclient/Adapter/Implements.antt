-- ===== src/Waclient/Adapter/Implements.antt =====
-- internal/waclient/whatsmeow_adapter.go: the adapter implements `WAClient`.
pub mod Offline
use whatsmeow_api.Prelude.{ℕ, String, List, ◌∷◌, []}
use whatsmeow_api.Errors.{Result, ok, err}
use whatsmeow_api.Waclient.{LoginEvent, Downloader}
use whatsmeow_api.Waclient.Client.{WaClient}
use whatsmeow_api.Waclient.Login.{code_frame, terminal_frame}
use whatsmeow_api.Waclient.Login.Qr.Frames.{qr_frames}
use whatsmeow_api.Waclient.Adapter.{Whatsmeow, Adapter}
use whatsmeow_api.Waclient.Adapter.Connection.{
  adapter_status, begin_qr, begin_phone, adapter_logout,
}
use whatsmeow_api.Waclient.Adapter.Calls.{
  adapter_send_text, adapter_send_media, adapter_send_edit, adapter_send_revoke,
  adapter_send_reaction, adapter_mark_read, adapter_send_chat_presence,
}
use whatsmeow_api.Waclient.Adapter.Calls.Group.{
  in_result, adapter_create_group, adapter_get_group_info, adapter_update_group_participants,
  adapter_leave_group,
}

-- The closure of `messageKindAndBody`: the bytes that whatsmeow fetches, with the attachment's type.
abbrev pub fetched : String → Result (List ℕ) → Result (List ℕ × String)
fetched mimetype (ok body) = ok (body, mimetype)
fetched mimetype (err e) = err e

-- `ending` is the outcome with which a phone login that starts in this state will end: the caller's
-- context, the timer and whatsmeow decide it after the call has returned.
abbrev pub adapter_client : (M : Whatsmeow) → (Adapter M → String) → WaClient
adapter_client M ending = record {
  Net = Adapter M;
  status = adapter_status;
  login_qr = λ a. in_result qr_frames (begin_qr a);
  login_phone = λ phone a.
      in_result (λ code. code_frame code ∷ terminal_frame (ending a) ∷ []) (begin_phone phone a);
  logout = adapter_logout;
  send_text = adapter_send_text;
  send_media = adapter_send_media;
  send_edit = adapter_send_edit;
  send_revoke = adapter_send_revoke;
  send_reaction = adapter_send_reaction;
  mark_read = adapter_mark_read;
  send_chat_presence = adapter_send_chat_presence;
  create_group = adapter_create_group;
  get_group_info = adapter_get_group_info;
  update_group_participants = adapter_update_group_participants;
  leave_group = adapter_leave_group;
  download = λ d a. fetched d.mimetype (M.download_media d.handle a.device);
}
