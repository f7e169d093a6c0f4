-- ===== src/Tests/Adapters.antt =====
-- The adapter of internal/waclient/whatsmeow_adapter.go over a small whatsmeow: it knows one JID text,
-- its device counts what reaches it, and one further field says whether it is connected.
use whatsmeow_api.Prelude.{
  ℕ, suc, ◌+◌, ◌≡◌, ◌≤◌, refl, String, Bool, true, false, none, some, List, [], ◌∷◌, ◌==◌,
  if◌then◌else◌, arith,
}
use whatsmeow_api.Text.{is_blank}
use whatsmeow_api.Errors.{ok, err, Error, failure, not_connected}
use whatsmeow_api.Service.World.{World}
use whatsmeow_api.Service.Send.{SendMediaRequest, media_problem, send_media}
use whatsmeow_api.Service.Send.Guards.{media_problem_iff}
use whatsmeow_api.Sqlite.Store.{bundle}
use whatsmeow_api.Http.Response.{problem}
use whatsmeow_api.Http.Writes.{SendTextRequest, send_text_handler}
use whatsmeow_api.Waclient.Adapter.{Whatsmeow, Adapter, Upload}
use whatsmeow_api.Waclient.Adapter.Connection.Slot.{
  AdapterOp, start_qr, start_phone, finish_phone, event_op, run_ops, one_if,
}
use whatsmeow_api.Waclient.Adapter.Connection.OneLogin.{fresh, run_ops-one_login}
use whatsmeow_api.Waclient.Adapter.Events.{pair_success}
use whatsmeow_api.Waclient.Adapter.Calls.Unsent.{create_group, run_call, run_call-unparsed}
use whatsmeow_api.Waclient.Adapter.Implements.{adapter_client}
use whatsmeow_api.Waclient.Adapter.Implements.Offline.{send-offline}
use whatsmeow_api.Waclient.Jid.{is_valid_phone_number}
use whatsmeow_api.Waclient.Login.Qr.Frames.{qr_frames}
use whatsmeow_api.Waclient.Adapter.Connection.{begin_qr, begin_phone, adapter_logout}
use whatsmeow_api.Http.Login.{login_qr_handler, login_phone_handler, logout_handler}
use whatsmeow_api.Client.Problem.{of_login, of_logout}
use whatsmeow_api.Client.Session.{client_login_qr, client_login_phone, client_logout}
use whatsmeow_api.Client.Session.Logins.{told, phone_frames, logins-read}
use whatsmeow_api.Tests.Samples.{ann, noon, engine, disk, db, our_jid}

abbrev upload : Upload
upload = record {
  url = "https://mmg";
  direct_path = "/v";
  media_key = [];
  file_enc_sha256 = [];
  file_sha256 = [];
}

abbrev whatsmeow : Whatsmeow
whatsmeow = record {
  Device = Bool × ℕ;
  Jid = Unit {0};
  Built = Unit {0};
  parse_jid = λ s. if s == ann then ok tt else err (failure "no JID");
  jid_text = λ _. our_jid;
  empty_jid = tt;
  get_first_device = λ d. (ok tt, d);
  store_id = λ d. some tt;
  push_name = λ d. "we";
  is_connected = λ d. d.0;
  is_logged_in = λ d. d.0;
  connect = λ d. (ok tt, (false, suc d.1));
  disconnect = λ d. (false, d.1);
  log_out = λ d. (ok tt, (false, d.1));
  get_qr_channel = λ d. (ok [], d);
  pair_phone = λ phone show name d. (ok "ABCD-1234", d);
  send_message = λ to msg d. (ok ("id", noon), (d.0, suc d.1));
  build_edit = λ to id msg. tt;
  build_revoke = λ to sender id. tt;
  build_reaction = λ to sender id emoji. tt;
  upload_media = λ body kind d. (ok upload, d);
  download_media = λ handle d. ok [];
  mark_messages = λ ids at chat sender d. (ok tt, d);
  send_presence = λ to presence d. (ok tt, d);
  group_create = λ name members d. (ok none, (d.0, suc d.1));
  group_info = λ jid d. (ok none, d);
  group_update = λ jid members change d. (ok [], (d.0, suc d.1));
  group_leave = λ jid d. (ok tt, (d.0, suc d.1));
}

abbrev offline_adapter : Adapter whatsmeow
offline_adapter = record {
  device = (false, 0);
  has_client = true;
  login_in_progress = false;
  last_connected_at = noon;
  has_pair_ch = false;
  has_message_handler = true;
  has_receipt_handler = true;
  has_state_handler = true;
}

abbrev online : Adapter whatsmeow
online = record offline_adapter { device = (true, 0) }

run_call-unparsed_example :
    (e : Error) × (run_call (create_group "friends" (ann ∷ "nobody" ∷ [])) online
      ≡ (some e, online))
run_call-unparsed_example =
    run_call-unparsed (create_group "friends" (ann ∷ "nobody" ∷ [])) online refl

abbrev attempts : List (AdapterOp)
attempts =
    start_phone "+4911111111" ∷ start_qr ∷ event_op noon pair_success ∷ finish_phone ∷ start_qr ∷ []

run_ops-one_login_example :
    ((run_ops attempts (fresh whatsmeow (false, 0))).qr_logins
        + (run_ops attempts (fresh whatsmeow (false, 0))).phone_logins
      ≡ one_if (run_ops attempts (fresh whatsmeow (false, 0))).adapter.login_in_progress)
    × (one_if (run_ops attempts (fresh whatsmeow (false, 0))).adapter.has_pair_ch
        ≤ (run_ops attempts (fresh whatsmeow (false, 0))).phone_logins)
run_ops-one_login_example = run_ops-one_login whatsmeow attempts (false, 0)

abbrev ending : Adapter whatsmeow → String
ending a = "success"

abbrev offline_world : World (bundle engine) (adapter_client whatsmeow ending) disk
offline_world = record {
  store = db;
  net = offline_adapter;
  disk = 0;
  broadcaster = none;
  spawned = [];
  clock = noon;
}

abbrev hello : SendTextRequest
hello = record { chat_jid = ann; text = "hello"; reply_to = "" }

abbrev picture : SendMediaRequest
picture = record {
  chat_jid = ann;
  kind = "image";
  caption = "";
  filename = "";
  mime = "image/png";
  body = 1 ∷ [];
}

send-offline_example :
    (send_text_handler (some hello) offline_world
      ≡ (problem 409 "wa.not_connected" "waclient: not connected", offline_world))
    × (send_media picture offline_world ≡ (err not_connected, offline_world))
unfolding is_blank media_problem
send-offline_example =
    send-offline ending offline_world hello picture refl
      (record { chat = refl; some_text = refl; short = omega arith })
      ((media_problem_iff picture).0 refl)

valid_phone : is_valid_phone_number "+4911111111" ≡ true
unfolding is_valid_phone_number
valid_phone = refl

logins-read_example :
    (client_login_qr (login_qr_handler offline_world).0
      ≡ told qr_frames of_login (begin_qr offline_adapter).0)
    × (client_login_phone (login_phone_handler (some "+4911111111") offline_world).0
        ≡ told (phone_frames "success") of_login (begin_phone "+4911111111" offline_adapter).0)
    × (client_logout (logout_handler offline_world).0
        ≡ told (λ u. u) of_logout (adapter_logout offline_adapter).0)
logins-read_example = logins-read ending offline_world "+4911111111" valid_phone
