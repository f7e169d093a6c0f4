-- ===== src/Waclient/Login/Phone.antt =====
-- internal/waclient/whatsmeow_adapter.go: the goroutine of `LoginPhone`, and `signalPair`, by which
-- the event handler reports the outcome to it. `pair_ch` is the adapter's field, set or nil, and
-- `outcome` is what waits in that channel, which holds one.
pub mod Outcome
pub mod Finish
use whatsmeow_api.Prelude.{
  String, Bool, true, false, Option, none, some, List, [], ◌∷◌, ◌++◌, length, ltb, if◌then◌else◌, ℕ,
}
use whatsmeow_api.Waclient.{LoginEvent}
use whatsmeow_api.Waclient.Login.{code_frame, terminal_frame}

-- At the send of the code, in the `select` over the three ends, at the send of the last frame, and
-- at the deferred calls.
pub data PhonePhase : Type 0 where
  coding : String → PhonePhase
  waiting : PhonePhase
  finishing : String → PhonePhase
  freeing : PhonePhase
  shutting : PhonePhase
  over : PhonePhase

pub record PhoneLogin : Type 0 where
  pub phase : PhonePhase
  pub buffer : List LoginEvent
  pub received : List LoginEvent
  pub is_closed : Bool
  pub in_progress : Bool
  pub pair_ch : Bool
  pub outcome : Option String
  pub cancelled : Bool
  pub expired : Bool

abbrev pub phone_capacity : ℕ
phone_capacity = 2

-- The state in which `LoginPhone` returns the channel, with the code that whatsmeow gave.
abbrev pub phone_start : String → PhoneLogin
phone_start code = record {
  phase = coding code;
  buffer = [];
  received = [];
  is_closed = false;
  in_progress = true;
  pair_ch = true;
  outcome = none;
  cancelled = false;
  expired = false;
}

-- The goroutine goes on, or takes one of the three ends in its `select`; the caller takes a frame or
-- cancels; the timer of 150 seconds fires; whatsmeow reports an outcome.
pub data PhoneMove : Type 0 where
  proceed take_outcome take_cancel take_timeout take_frame give_up expire : PhoneMove
  signal : String → PhoneMove

abbrev pub phone_send : LoginEvent → PhonePhase → PhoneLogin → Option PhoneLogin
phone_send frame after s =
    if ltb (length s.buffer) phone_capacity
    then some (record s { buffer = s.buffer ++ frame ∷ []; phase = after })
    else none

unfoldable pub proceed_at : PhonePhase → PhoneLogin → Option PhoneLogin
proceed_at (coding code) s = phone_send (code_frame code) waiting s
proceed_at waiting s = none
proceed_at (finishing outcome) s = phone_send (terminal_frame outcome) freeing s
proceed_at freeing s = some (record s { in_progress = false; pair_ch = false; phase = shutting })
proceed_at shutting s = some (record s { is_closed = true; phase = over })
proceed_at over s = none

abbrev pub finish_if : Bool → String → PhoneLogin → Option PhoneLogin
finish_if ready why s = if ready then some (record s { phase = finishing why }) else none

unfoldable pub outcome_at : PhonePhase → Option String → PhoneLogin → Option PhoneLogin
outcome_at waiting (some why) s = some (record s { phase = finishing why; outcome = none })
outcome_at _ _ s = none

unfoldable pub end_at : PhonePhase → Bool → String → PhoneLogin → Option PhoneLogin
end_at waiting ready why s = finish_if ready why s
end_at _ _ _ s = none

unfoldable pub frame_from : List LoginEvent → PhoneLogin → Option PhoneLogin
frame_from [] s = none
frame_from (frame ∷ rest) s = some (record s { buffer = rest; received = s.received ++ frame ∷ [] })

-- The send that never waits: with the channel full, the outcome is dropped.
abbrev pub put_outcome : Option String → String → Option String
put_outcome none outcome = some outcome
put_outcome (some earlier) _ = some earlier

unfoldable pub signal_pair : String → PhoneLogin → PhoneLogin
signal_pair outcome s =
    if s.pair_ch then record s { pair_ch = false; outcome = put_outcome s.outcome outcome } else s

unfoldable pub phone_step : PhoneMove → PhoneLogin → Option PhoneLogin
unfolding proceed_at outcome_at end_at frame_from signal_pair
phone_step proceed s = proceed_at s.phase s
phone_step take_outcome s = outcome_at s.phase s.outcome s
phone_step take_cancel s = end_at s.phase s.cancelled "ctx-cancelled" s
phone_step take_timeout s = end_at s.phase s.expired "timeout" s
phone_step take_frame s = frame_from s.buffer s
phone_step give_up s = some (record s { cancelled = true })
phone_step expire s = some (record s { expired = true })
phone_step (signal outcome) s = some (signal_pair outcome s)

abbrev pub phone_try : PhoneMove → PhoneLogin → PhoneLogin
phone_try m s = elim (phone_step m s) [ none ↦ s | some t ↦ t ]

-- Any interleaving; a move that has to wait changes nothing.
abbrev pub phone_run : List PhoneMove → PhoneLogin → PhoneLogin
phone_run [] s = s
phone_run (m ∷ ms) s = phone_run ms (phone_try m s)
