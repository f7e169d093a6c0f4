-- ===== src/Waclient/Adapter.antt =====
-- internal/waclient/whatsmeow_adapter.go: the adapter's state, and the whatsmeow library it stands on.
pub mod Connection
pub mod Calls
pub mod Events
pub mod Implements
use whatsmeow_api.Prelude.{
  ℕ, String, Bool, true, false, ◌&&◌, Option, none, some, List, if◌then◌else◌,
}
use whatsmeow_api.Time.{Time}
use whatsmeow_api.Errors.{Result, ok, err, Error, not_connected, failure, wrap}
use whatsmeow_api.Waclient.{Sent}
use whatsmeow_api.Waclient.Translate.{GroupInfo}
use whatsmeow_api.Waclient.Login.Qr.{QrItem}

-- whatsmeow.UploadResponse
pub record Upload : Type 0 where
  pub url : String
  pub direct_path : String
  pub media_key : List ℕ
  pub file_enc_sha256 : List ℕ
  pub file_sha256 : List ℕ

-- waE2E.ImageMessage and waE2E.DocumentMessage, by the fields that the adapter sets.
pub record OutMedia : Type 0 where
  pub upload : Upload
  pub mimetype : String
  pub file_length : ℕ
  pub caption : Option String

-- waE2E.Message as the adapter fills it in: a text, a text that answers a message, a picture, a
-- document with its title and file name, or a message that whatsmeow has built.
pub data OutMessage (Built : Type 0) : Type 0 where
  conversation : String → OutMessage Built
  extended_text : String → String → OutMessage Built
  image_message : OutMedia → OutMessage Built
  document_message : OutMedia → String → String → OutMessage Built
  built : Built → OutMessage Built

pub data MediaType : Type 0 where
  media_image media_document : MediaType

pub data ChatPresence : Type 0 where
  presence_composing presence_paused : ChatPresence

pub data Change : Type 0 where
  change_add change_remove : Change

-- whatsmeow: a client with its session store, and all of WhatsApp that lies behind it, is one
-- `Device`. A call takes the device and returns its answer and the device after it.
pub record Whatsmeow : Type 1 where
  pub Device : Type 0
  pub Jid : Type 0
  pub Built : Type 0
  pub parse_jid : String → Result Jid
  pub jid_text : Jid → String
  pub empty_jid : Jid
  pub get_first_device : Device → Result (Unit {0}) × Device
  -- Client.Store.ID and Client.Store.PushName
  pub store_id : Device → Option Jid
  pub push_name : Device → String
  pub is_connected : Device → Bool
  pub is_logged_in : Device → Bool
  pub connect : Device → Result (Unit {0}) × Device
  pub disconnect : Device → Device
  pub log_out : Device → Result (Unit {0}) × Device
  -- What the channel of GetQRChannel will yield.
  pub get_qr_channel : Device → Result (List QrItem) × Device
  pub pair_phone : String → Bool → String → Device → Result String × Device
  pub send_message : Jid → OutMessage Built → Device → Result (String × Time) × Device
  pub build_edit : Jid → String → OutMessage Built → Built
  pub build_revoke : Jid → Jid → String → Built
  pub build_reaction : Jid → Jid → String → String → Built
  pub upload_media : List ℕ → MediaType → Device → Result Upload × Device
  pub download_media : String → Device → Result (List ℕ)
  pub mark_messages : List String → Time → Jid → Jid → Device → Result (Unit {0}) × Device
  pub send_presence : Jid → ChatPresence → Device → Result (Unit {0}) × Device
  pub group_create : String → List Jid → Device → Result (Option GroupInfo) × Device
  pub group_info : Jid → Device → Result (Option GroupInfo) × Device
  pub group_update : Jid → List Jid → Change → Device → Result (List (Jid × ℕ)) × Device
  pub group_leave : Jid → Device → Result (Unit {0}) × Device

-- `Adapter`. A field that holds a client, a channel or a handler is set or nil.
pub record Adapter (M : Whatsmeow) : Type 0 where
  pub device : M.Device
  pub has_client : Bool
  pub login_in_progress : Bool
  pub last_connected_at : Time
  pub has_pair_ch : Bool
  pub has_message_handler : Bool
  pub has_receipt_handler : Bool
  pub has_state_handler : Bool

abbrev pub wrapped {ℓ} : {R : Type ℓ} → String → Result R → Result R
wrapped what (ok r) = ok r
wrapped what (err e) = err (wrap what e)

-- `types.ParseJID` under the name of the argument.
abbrev pub parsed : (M : Whatsmeow) → String → String → Result M.Jid
parsed M what jid = wrapped what (M.parse_jid jid)

module _ {M : Whatsmeow} where
  abbrev pub is_ready : Adapter M → Bool
  is_ready a = a.has_client && M.is_connected a.device && M.is_logged_in a.device

  abbrev pub answered {ℓ} :
      {R : Type ℓ} → String → Adapter M → Result R × M.Device → Result R × Adapter M
  answered what a (ok r, d) = (ok r, record a { device = d })
  answered what a (err e, d) = (err (wrap what e), record a { device = d })

  -- A call of the client, whose error the adapter wraps.
  abbrev pub call {ℓ} :
      {R : Type ℓ} → String → (M.Device → Result R × M.Device) → Adapter M → Result R × Adapter M
  call what f a = answered what a (f a.device)

  -- The guard at the head of each call.
  unfoldable pub guarded {ℓ} :
      {R : Type ℓ} → (Adapter M → Result R × Adapter M) → Adapter M → Result R × Adapter M
  guarded next a = if is_ready a then next a else (err not_connected, a)

  -- Go on with a value, or return the error.
  unfoldable pub given {ℓ κ} :
      {V : Type ℓ} {R : Type κ}
      → Result V
      → (V → Adapter M → Result R × Adapter M)
      → Adapter M
      → Result R × Adapter M
  given (ok v) next a = next v a
  given (err e) next a = (err e, a)

  -- `*client.Store.ID`, which panics where no session is stored.
  abbrev pub own_jid : Adapter M → Result M.Jid
  own_jid a = elim (M.store_id a.device) [
    | none ↦ err (failure "nil pointer dereference")
    | some jid ↦ ok jid
  ]

  -- A mutex-protected set of the two fields by which a login is claimed.
  abbrev pub claim : Bool → Bool → Adapter M → Adapter M
  claim slot pairing a = record a { login_in_progress = slot; has_pair_ch = pairing }
