-- ===== src/Waclient/Adapter/Events.antt =====
-- internal/waclient/whatsmeow_adapter.go: `onEvent`, `signalPair`, `fireConnectionState` and the
-- registration of handlers. What an event makes the adapter call stands in a list.
use whatsmeow_api.Prelude.{String, Bool, false, Option, none, some, List, [], ◌∷◌, if◌then◌else◌}
use whatsmeow_api.Text.{concat}
use whatsmeow_api.Time.{Time}
use whatsmeow_api.Waclient.{IncomingMessage, IncomingReceipt, ConnectionStateEvent}
use whatsmeow_api.Waclient.Translate.{
  MessageEvent, ReceiptEvent, translate_incoming, translate_receipt,
}
use whatsmeow_api.Waclient.Adapter.{Whatsmeow, Adapter}
use whatsmeow_api.Waclient.Adapter.Connection.{adapter_status, offline}

-- whatsmeow's events, with the fields that the adapter reads.
pub data WaEvent : Type 0 where
  connected_event : WaEvent
  disconnected_event : WaEvent
  logged_out_event : WaEvent
  pair_success : WaEvent
  pair_error : String → WaEvent
  message_event : MessageEvent → WaEvent
  receipt_event : ReceiptEvent → WaEvent
  other_event : WaEvent

-- A call of a registered handler, or a send on `pairCh`.
pub data Fired : Type 0 where
  state_fired : ConnectionStateEvent → Fired
  message_fired : IncomingMessage → Fired
  receipt_fired : IncomingReceipt → Fired
  pair_fired : String → Fired

abbrev pub fire : Bool → Fired → List Fired
fire registered f = if registered then f ∷ [] else []

abbrev pub fire_if {ℓ} : {A : Type ℓ} → (A → Fired) → Bool → Option A → List Fired
fire_if f registered none = []
fire_if f registered (some a) = fire registered (f a)

module _ {M : Whatsmeow} where
  unfoldable pub fire_connection_state : ConnectionStateEvent → Adapter M → List Fired × Adapter M
  fire_connection_state ev a = (fire a.has_state_handler (state_fired ev), a)

  -- The channel is forgotten as it is signalled.
  unfoldable pub signal_outcome : String → Adapter M → List Fired × Adapter M
  signal_outcome outcome a =
      (fire a.has_pair_ch (pair_fired outcome), record a { has_pair_ch = false })

  unfoldable pub on_event : Time → WaEvent → Adapter M → List Fired × Adapter M
  unfolding fire_connection_state signal_outcome
  on_event now connected_event a =
      let a' = record a { last_connected_at = now } in
      fire_connection_state (record { status = adapter_status a'; reason = "" }) a'
  on_event now disconnected_event a =
      fire_connection_state (record { status = offline; reason = "disconnect" }) a
  on_event now logged_out_event a =
      fire_connection_state (record { status = offline; reason = "logout" }) a
  on_event now pair_success a = signal_outcome "success" a
  on_event now (pair_error why) a = signal_outcome (concat "err-" why) a
  on_event now (message_event evt) a =
      (fire_if message_fired a.has_message_handler (translate_incoming evt), a)
  on_event now (receipt_event evt) a =
      (fire_if receipt_fired a.has_receipt_handler (translate_receipt evt), a)
  on_event now other_event a = ([], a)

  unfoldable pub on_incoming_message : Bool → Adapter M → Adapter M
  on_incoming_message handler a = record a { has_message_handler = handler }

  unfoldable pub on_incoming_receipt : Bool → Adapter M → Adapter M
  on_incoming_receipt handler a = record a { has_receipt_handler = handler }

  unfoldable pub on_connection_state : Bool → Adapter M → Adapter M
  on_connection_state handler a = record a { has_state_handler = handler }
