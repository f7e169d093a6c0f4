-- ===== src/Waclient/Login/Qr.antt =====
-- internal/waclient/whatsmeow_adapter.go: the goroutine of `LoginQR`. Its state is what whatsmeow's
-- channel has still to yield, the point it has reached, the channel to the caller, and the flag
-- `loginInProgress`. `received` is what the caller has taken from the channel.
pub mod Shape
pub mod Frames
pub mod Finish
use whatsmeow_api.Prelude.{
  String, Bool, true, false, Option, none, some, List, [], ◌∷◌, ◌++◌, length, ltb, ◌==◌,
  if◌then◌else◌, ℕ,
}
use whatsmeow_api.Text.{concat}
use whatsmeow_api.Waclient.{LoginEvent}
use whatsmeow_api.Waclient.Login.{code_frame, terminal_frame}

-- whatsmeow.QRChannelItem
pub record QrItem : Type 0 where
  pub event : String
  pub code : String

-- Where the goroutine stands: at the head of its loop, in the `select` that sends a code, at the
-- send of the last frame, or at one of its two deferred calls.
pub data QrPhase : Type 0 where
  ranging : QrPhase
  offering : String → QrPhase
  ending : String → QrPhase
  releasing : QrPhase
  closing : QrPhase
  ended : QrPhase

pub record QrLogin : Type 0 where
  pub source : List QrItem
  pub phase : QrPhase
  pub buffer : List LoginEvent
  pub is_closed : Bool
  pub in_progress : Bool
  pub cancelled : Bool
  pub received : List LoginEvent

abbrev pub qr_capacity : ℕ
qr_capacity = 4

-- The state in which `LoginQR` returns the channel.
abbrev pub qr_start : List QrItem → QrLogin
qr_start items = record {
  source = items;
  phase = ranging;
  buffer = [];
  is_closed = false;
  in_progress = true;
  cancelled = false;
  received = [];
}

-- The `switch` on an item's event.
unfoldable pub on_item : QrItem → QrPhase
on_item item =
    if item.event == "code"
    then offering item.code
    else if item.event == "success"
    then ending "success"
    else if item.event == "timeout"
    then ending "timeout"
    else ending (concat "err-" item.event)

abbrev pub qr_send : LoginEvent → QrPhase → QrLogin → Option QrLogin
qr_send frame after s =
    if ltb (length s.buffer) qr_capacity
    then some (record s { buffer = s.buffer ++ frame ∷ []; phase = after })
    else none

-- The goroutine goes on (`advance`), or takes `ctx.Done()` in its `select` (`abandon`); the caller
-- takes a frame (`receive`) or cancels its context (`cancel`); whatsmeow closes its channel (`shut`).
pub data QrMove : Type 0 where
  advance abandon receive cancel shut : QrMove

unfoldable pub next_at : QrPhase → List QrItem → QrLogin → Option QrLogin
unfolding on_item
next_at ranging [] s = some (record s { phase = releasing })
next_at ranging (item ∷ rest) s = some (record s { source = rest; phase = on_item item })
next_at (offering code) _ s = qr_send (code_frame code) ranging s
next_at (ending outcome) _ s = qr_send (terminal_frame outcome) releasing s
next_at releasing _ s = some (record s { in_progress = false; phase = closing })
next_at closing _ s = some (record s { is_closed = true; phase = ended })
next_at ended _ s = none

unfoldable pub abandon_at : QrPhase → QrLogin → Option QrLogin
abandon_at (offering code) s =
    if s.cancelled then some (record s { phase = ending "ctx-cancelled" }) else none
abandon_at _ s = none

unfoldable pub receive_from : List LoginEvent → QrLogin → Option QrLogin
receive_from [] s = none
receive_from (frame ∷ rest) s =
    some (record s { buffer = rest; received = s.received ++ frame ∷ [] })

-- `none` where the move has to wait.
unfoldable pub qr_step : QrMove → QrLogin → Option QrLogin
unfolding next_at abandon_at receive_from
qr_step advance s = next_at s.phase s.source s
qr_step abandon s = abandon_at s.phase s
qr_step receive s = receive_from s.buffer s
qr_step cancel s = some (record s { cancelled = true })
qr_step shut s = some (record s { source = [] })

abbrev pub qr_try : QrMove → QrLogin → QrLogin
qr_try m s = elim (qr_step m s) [ none ↦ s | some t ↦ t ]

-- Any interleaving; a move that has to wait changes nothing.
abbrev pub qr_run : List QrMove → QrLogin → QrLogin
qr_run [] s = s
qr_run (m ∷ ms) s = qr_run ms (qr_try m s)
