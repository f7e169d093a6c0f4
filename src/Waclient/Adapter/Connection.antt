-- ===== src/Waclient/Adapter/Connection.antt =====
-- internal/waclient/whatsmeow_adapter.go: `NewAdapter`, `ensureClient`, `Status`, `Resume`, `LoginQR`
-- and `LoginPhone` up to the channel they return, `Logout` and `Close`.
pub mod Slot
pub mod Starts
pub mod OneLogin
use whatsmeow_api.Prelude.{String, Bool, true, false, ◌&&◌, Option, none, some, List, if◌then◌else◌}
use whatsmeow_api.Time.{Time, zero_time}
use whatsmeow_api.Errors.{
  Result, ok, err, Error, not_logged_in, already_logged_in, login_in_progress, failure, wrap,
}
use whatsmeow_api.Waclient.{Status}
use whatsmeow_api.Waclient.Jid.{is_valid_phone_number}
use whatsmeow_api.Waclient.Login.Qr.{QrItem}
use whatsmeow_api.Waclient.Adapter.{Whatsmeow, Adapter, is_ready, call, given, claim}

abbrev pub is_some {ℓ} : {A : Type ℓ} → Option A → Bool
is_some none = false
is_some (some _) = true

abbrev pub offline : Status
offline = record { connected = false; jid = none; push_name = none; since = none }

module _ {M : Whatsmeow} where
  unfoldable pub new_adapter : M.Device → Adapter M
  new_adapter device = record {
    device = device;
    has_client = false;
    login_in_progress = false;
    last_connected_at = zero_time;
    has_pair_ch = false;
    has_message_handler = false;
    has_receipt_handler = false;
    has_state_handler = false;
  }

  abbrev pub made : Adapter M → Result (Unit {0}) × M.Device → Result (Unit {0}) × Adapter M
  made a (ok _, d) = (ok tt, record a { device = d; has_client = true })
  made a (err e, d) = (err (wrap "get device: " e), record a { device = d })

  -- The client is made at its first use.
  unfoldable pub ensure_client : Adapter M → Result (Unit {0}) × Adapter M
  ensure_client a = if a.has_client then (ok tt, a) else made a (M.get_first_device a.device)

  unfoldable pub adapter_status : Adapter M → Status
  adapter_status a =
      if is_ready a
      then elim (M.store_id a.device) [
        | none ↦ offline
        | some jid ↦ record {
          connected = true;
          jid = some (M.jid_text jid);
          push_name = some (M.push_name a.device);
          since = some a.last_connected_at;
        }
      ]
      else offline

  abbrev pub after_client {ℓ} :
      {R : Type ℓ}
      → (Adapter M → Result R × Adapter M)
      → Result (Unit {0}) × Adapter M
      → Result R × Adapter M
  after_client next (ok _, a) = next a
  after_client next (err e, a) = (err e, a)

  -- The rest of a method after `ensureClient`, whose error it returns.
  abbrev pub with_client {ℓ} :
      {R : Type ℓ} → (Adapter M → Result R × Adapter M) → Adapter M → Result R × Adapter M
  with_client next a = after_client next (ensure_client a)

  abbrev pub connect_stored : Adapter M → Result (Unit {0}) × Adapter M
  connect_stored a =
      if is_some (M.store_id a.device) then call "connect: " M.connect a else (ok tt, a)

  unfoldable pub resume_session : Adapter M → Result (Unit {0}) × Adapter M
  unfolding ensure_client
  resume_session = with_client connect_stored

  -- What stands before a login: no session that is logged in, and no login that is under way.
  abbrev pub login_free {ℓ} :
      {R : Type ℓ} → (Adapter M → Result R × Adapter M) → Adapter M → Result R × Adapter M
  login_free next a =
      if is_some (M.store_id a.device) && M.is_logged_in a.device
      then (err already_logged_in, a)
      else if a.login_in_progress
      then (err login_in_progress, a)
      else next a

  -- A call between the claim and the goroutine: its error gives the claim back.
  abbrev pub or_release {ℓ κ} :
      {V : Type ℓ} {R : Type κ}
      → (Adapter M → Adapter M)
      → (V → Adapter M → Result R × Adapter M)
      → Result V × Adapter M
      → Result R × Adapter M
  or_release release next (ok v, a) = next v a
  or_release release next (err e, a) = (err e, release a)

  abbrev pub free_slot : Adapter M → Adapter M
  free_slot a = record a { login_in_progress = false }

  abbrev pub connect_qr : List QrItem → Adapter M → Result (List QrItem) × Adapter M
  connect_qr items a = or_release free_slot (λ _ a'. (ok items, a')) (call "connect: " M.connect a)

  abbrev pub claim_qr : Adapter M → Result (List QrItem) × Adapter M
  claim_qr a =
      or_release free_slot connect_qr
        (call "get qr channel: " M.get_qr_channel (record a { login_in_progress = true }))

  unfoldable pub begin_qr : Adapter M → Result (List QrItem) × Adapter M
  unfolding ensure_client
  begin_qr = with_client (login_free claim_qr)

  abbrev pub pair_phone : String → Unit {0} → Adapter M → Result String × Adapter M
  pair_phone phone _ a =
      or_release (claim false false) (λ code a'. (ok code, a'))
        (call "pair phone: " (M.pair_phone phone true "Chrome (Linux)") a)

  abbrev pub claim_phone : String → Adapter M → Result String × Adapter M
  claim_phone phone a =
      or_release (claim false false) (pair_phone phone)
        (call "connect: " M.connect (claim true true a))

  unfoldable pub begin_phone : String → Adapter M → Result String × Adapter M
  unfolding ensure_client
  begin_phone phone a =
      if is_valid_phone_number phone
      then with_client (login_free (claim_phone phone)) a
      else (err (failure "invalid phone number"), a)

  unfoldable pub adapter_logout : Adapter M → Result (Unit {0}) × Adapter M
  adapter_logout a =
      if a.has_client && is_some (M.store_id a.device) && M.is_logged_in a.device
      then call "logout: " M.log_out a
      else (err not_logged_in, a)

  unfoldable pub adapter_close : Adapter M → Adapter M
  adapter_close a =
      if a.has_client && M.is_connected a.device
      then record a { device = M.disconnect a.device }
      else a
