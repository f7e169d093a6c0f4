-- ===== src/Service/Emitter.antt =====
-- internal/service/events.go: `(*Emitter).Emit`. The service always has a log, and its payloads
-- are marshaled already.
pub mod Logged
use whatsmeow_api.Prelude.{ℕ, String, Option, none, some}
use whatsmeow_api.Errors.{Result, ok, err}
use whatsmeow_api.Json.{Json}
use whatsmeow_api.Store.{EventLogEntry}
use whatsmeow_api.Store.Bundle.{Bundle}
use whatsmeow_api.Broadcaster.{Broadcaster, Event, publish}
use whatsmeow_api.Waclient.{ConnectionStateEvent}
use whatsmeow_api.Waclient.Client.{WaClient}
use whatsmeow_api.Service.World.{MediaDisk, World}
use whatsmeow_api.Service.Payloads.{build_connection_state_payload}

abbrev pub publish_to : Event → Option Broadcaster → Option Broadcaster
publish_to ev none = none
publish_to ev (some b) = some (publish ev b)

module _ {B : Bundle} {W : WaClient} {D : MediaDisk} where
  -- An append that fails publishes nothing.
  abbrev pub published : String → Json → World B W D → Result (ℕ × B.State) → World B W D
  published kind payload w (err e) = w
  published kind payload w (ok (seq, store)) = record w {
    store = store;
    broadcaster = publish_to (record { seq = seq; kind = kind; payload = payload }) w.broadcaster;
  }

  unfoldable pub emit : String → Json → World B W D → World B W D
  emit kind payload w =
      let entry : EventLogEntry = record {
        seq = 0;
        time = w.clock;
        type = kind;
        payload = payload;
      } in
      published kind payload w (B.events_append entry w.store)

  -- The handler that `New` registers by `OnConnectionState`.
  unfoldable pub handle_connection_state : ConnectionStateEvent → World B W D → World B W D
  unfolding emit
  handle_connection_state ev w =
      emit "connection.state" (build_connection_state_payload ev.status ev.reason) w
