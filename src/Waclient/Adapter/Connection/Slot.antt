-- ===== src/Waclient/Adapter/Connection/Slot.antt =====
-- internal/waclient/whatsmeow_adapter.go: one login at a time. A login is a stream that `LoginQR` or
-- `LoginPhone` has returned and whose goroutine has not yet made its deferred call.
use whatsmeow_api.Prelude.{ℕ, ◌+◌, zero, suc, String, Bool, true, false, List, [], ◌∷◌}
use whatsmeow_api.Time.{Time}
use whatsmeow_api.Errors.{Result, is_ok}
use whatsmeow_api.Waclient.Adapter.{Whatsmeow, Adapter, claim}
use whatsmeow_api.Waclient.Adapter.Connection.{
  free_slot, begin_qr, begin_phone, resume_session, adapter_logout, adapter_close,
}
use whatsmeow_api.Waclient.Adapter.Events.{WaEvent, on_event}

-- The operations that touch the connection or a login, and the ends of the two goroutines. The calls
-- that send replace the device only.
pub data AdapterOp : Type 0 where
  start_qr finish_qr finish_phone resume_op logout_op close_op : AdapterOp
  start_phone : String → AdapterOp
  event_op : Time → WaEvent → AdapterOp

-- An adapter with the number of logins of each kind whose goroutine is under way.
pub record Running (M : Whatsmeow) : Type 0 where
  pub adapter : Adapter M
  pub qr_logins : ℕ
  pub phone_logins : ℕ

abbrev pub one_if : Bool → ℕ
one_if true = 1
one_if false = 0

module _ {M : Whatsmeow} where
  abbrev pub qr_started {ℓ} : {R : Type ℓ} → Running M → Result R × Adapter M → Running M
  qr_started s (r, a) = record {
    adapter = a;
    qr_logins = s.qr_logins + one_if (is_ok r);
    phone_logins = s.phone_logins;
  }

  abbrev pub phone_started {ℓ} : {R : Type ℓ} → Running M → Result R × Adapter M → Running M
  phone_started s (r, a) = record {
    adapter = a;
    qr_logins = s.qr_logins;
    phone_logins = s.phone_logins + one_if (is_ok r);
  }

  abbrev pub qr_finished : ℕ → Running M → Running M
  qr_finished zero s = s
  qr_finished (suc n) s = record s { adapter = free_slot s.adapter; qr_logins = n }

  abbrev pub phone_finished : ℕ → Running M → Running M
  phone_finished zero s = s
  phone_finished (suc n) s = record s { adapter = claim false false s.adapter; phone_logins = n }

  unfoldable pub run_op : AdapterOp → Running M → Running M
  unfolding begin_qr begin_phone resume_session adapter_logout adapter_close on_event
  run_op start_qr s = qr_started s (begin_qr s.adapter)
  run_op (start_phone phone) s = phone_started s (begin_phone phone s.adapter)
  run_op finish_qr s = qr_finished s.qr_logins s
  run_op finish_phone s = phone_finished s.phone_logins s
  run_op resume_op s = record s { adapter = (resume_session s.adapter).1 }
  run_op logout_op s = record s { adapter = (adapter_logout s.adapter).1 }
  run_op close_op s = record s { adapter = adapter_close s.adapter }
  run_op (event_op now ev) s = record s { adapter = (on_event now ev s.adapter).1 }

  abbrev pub run_ops : List AdapterOp → Running M → Running M
  run_ops [] s = s
  run_ops (o ∷ os) s = run_ops os (run_op o s)
