-- ===== src/Waclient/Adapter/Connection/OneLogin.antt =====
-- internal/waclient/whatsmeow_adapter.go: one login at a time, in every sequence of operations.
use whatsmeow_api.Prelude.{
  ℕ, ◌+◌, ◌≤◌, ◌≡◌, refl, zero, suc, Bool, true, false, ◌&&◌, List, [], ◌∷◌, arith, if◌then◌else◌,
}
use whatsmeow_api.Time.{Time}
use whatsmeow_api.Errors.{Result, ok, err, not_logged_in}
use whatsmeow_api.Waclient.Adapter.{Whatsmeow, Adapter, answered, call}
use whatsmeow_api.Waclient.Adapter.Connection.{
  new_adapter, ensure_client, after_client, connect_stored, begin_qr, begin_phone, resume_session,
  adapter_logout, adapter_close, is_some,
}
use whatsmeow_api.Waclient.Adapter.Events.{
  WaEvent, on_event, pair_success, pair_error, signal_outcome, fire_connection_state,
}
use whatsmeow_api.Waclient.Adapter.Connection.Slot.{
  AdapterOp, start_qr, finish_qr, finish_phone, resume_op, logout_op, close_op, start_phone,
  event_op, Running, one_if, qr_started, phone_started, qr_finished, phone_finished, run_op,
  run_ops,
}
use whatsmeow_api.Waclient.Adapter.Connection.Starts.{
  IsSameClaim, IsStart, call-claim, ensure_client-claim, begin_qr-IsStart, begin_phone-IsStart,
}

module _ {M : Whatsmeow} where
  -- One login at most, and the slot and the pairing channel as it needs them.
  record IsOneLogin (s : Running M) : Type 0 where
    one : s.qr_logins + s.phone_logins ≡ one_if s.adapter.login_in_progress
    paired : one_if s.adapter.has_pair_ch ≤ s.phone_logins

  qr_started-IsOneLogin {ℓ} :
      {R : Type ℓ} (s : Running M) (r : Result R × Adapter M)
      → IsOneLogin s
      → IsStart false s.adapter r
      → IsOneLogin (qr_started s r)
  qr_started-IsOneLogin s (ok _, b) h started = ground arith
  qr_started-IsOneLogin s (err _, b) h started = ground arith

  phone_started-IsOneLogin {ℓ} :
      {R : Type ℓ} (s : Running M) (r : Result R × Adapter M)
      → IsOneLogin s
      → IsStart true s.adapter r
      → IsOneLogin (phone_started s r)
  phone_started-IsOneLogin s (ok _, b) h started = ground arith
  phone_started-IsOneLogin s (err _, b) h started = ground arith

  -- What changes neither field of the claim, or only forgets the pairing channel.
  same-IsOneLogin :
      (s : Running M) (b : Adapter M)
      → IsOneLogin s
      → IsSameClaim s.adapter b
      → IsOneLogin (record s { adapter = b })
  same-IsOneLogin s b h same = ground arith

  qr_finished-IsOneLogin :
      (n : ℕ) (s : Running M) → s.qr_logins ≡ n → IsOneLogin s → IsOneLogin (qr_finished n s)
  qr_finished-IsOneLogin zero s e h = h
  qr_finished-IsOneLogin (suc n) s e h = ground (arith, full s.adapter.login_in_progress h.one)
    where
      full : (b : Bool) → s.qr_logins + s.phone_logins ≡ one_if b → (n ≡ 0) × (s.phone_logins ≡ 0)
      full true one = ground arith
      full false one = absurd (omega arith)

  phone_finished-IsOneLogin :
      (n : ℕ) (s : Running M) → s.phone_logins ≡ n → IsOneLogin s → IsOneLogin (phone_finished n s)
  phone_finished-IsOneLogin zero s e h = h
  phone_finished-IsOneLogin (suc n) s e h = ground (arith, full s.adapter.login_in_progress h.one)
    where
      full : (b : Bool) → s.qr_logins + s.phone_logins ≡ one_if b → (n ≡ 0) × (s.qr_logins ≡ 0)
      full true one = ground arith
      full false one = absurd (omega arith)

  resume-claim : (a : Adapter M) → IsSameClaim a (resume_session a).1
  unfolding resume_session
  resume-claim a = at (ensure_client a) (ensure_client-claim a)
    where
      at :
          (r : Result (Unit {0}) × Adapter M)
          → IsSameClaim a r.1
          → IsSameClaim a (after_client connect_stored r).1
      at (ok _, b) same = connected (is_some (M.store_id b.device)) (M.connect b.device)
        where
          connected :
              (stored : Bool) (r : Result (Unit {0}) × M.Device)
              → IsSameClaim a (if stored then answered "connect: " b r else (ok tt, b)).1
          connected true (ok _, d) = same
          connected true (err _, d) = same
          connected false r = same
      at (err _, b) same = same

  logout-claim : (a : Adapter M) → IsSameClaim a (adapter_logout a).1
  unfolding adapter_logout
  logout-claim a = at (a.has_client && is_some (M.store_id a.device) && M.is_logged_in a.device)
    where
      at :
          (b : Bool)
          → IsSameClaim a (if b then call "logout: " M.log_out a else (err not_logged_in, a)).1
      at true = call-claim "logout: " a (M.log_out a.device)
      at false = (refl, λ h. h)

  close-claim : (a : Adapter M) → IsSameClaim a (adapter_close a)
  unfolding adapter_close
  close-claim a = ground arith

  event-claim : (now : Time) (ev : WaEvent) (a : Adapter M) → IsSameClaim a (on_event now ev a).1
  unfolding on_event fire_connection_state signal_outcome
  event-claim now pair_success a = (refl, λ h. absurd (cc))
  event-claim now (pair_error why) a = (refl, λ h. absurd (cc))
  event-claim now _ a = (refl, λ h. h)

  run_op-IsOneLogin : (o : AdapterOp) (s : Running M) → IsOneLogin s → IsOneLogin (run_op o s)
  unfolding run_op
  run_op-IsOneLogin start_qr s h =
      qr_started-IsOneLogin s (begin_qr s.adapter) h (begin_qr-IsStart s.adapter)
  run_op-IsOneLogin (start_phone phone) s h =
      phone_started-IsOneLogin s (begin_phone phone s.adapter) h
        (begin_phone-IsStart phone s.adapter)
  run_op-IsOneLogin finish_qr s h = qr_finished-IsOneLogin s.qr_logins s refl h
  run_op-IsOneLogin finish_phone s h = phone_finished-IsOneLogin s.phone_logins s refl h
  run_op-IsOneLogin resume_op s h =
      same-IsOneLogin s (resume_session s.adapter).1 h (resume-claim s.adapter)
  run_op-IsOneLogin logout_op s h =
      same-IsOneLogin s (adapter_logout s.adapter).1 h (logout-claim s.adapter)
  run_op-IsOneLogin close_op s h =
      same-IsOneLogin s (adapter_close s.adapter) h (close-claim s.adapter)
  run_op-IsOneLogin (event_op now ev) s h =
      same-IsOneLogin s (on_event now ev s.adapter).1 h (event-claim now ev s.adapter)

  run_ops-IsOneLogin :
      (os : List AdapterOp) (s : Running M) → IsOneLogin s → IsOneLogin (run_ops os s)
  run_ops-IsOneLogin [] s h = h
  run_ops-IsOneLogin (o ∷ os) s h = run_ops-IsOneLogin os (run_op o s) (run_op-IsOneLogin o s h)

module _ (M : Whatsmeow) where
  abbrev pub fresh : M.Device → Running M
  fresh device = record { adapter = new_adapter device; qr_logins = 0; phone_logins = 0 }

  -- After any sequence of starts of logins, ends of their goroutines, connections, logouts and
  -- events of whatsmeow, at most one login is under way, `loginInProgress` is set exactly while one
  -- is, and the channel for the outcome of a pairing is set only while a phone login is under way.
  pub run_ops-one_login :
      (os : List AdapterOp) (device : M.Device)
      → ((run_ops os (fresh device)).qr_logins + (run_ops os (fresh device)).phone_logins
          ≡ one_if (run_ops os (fresh device)).adapter.login_in_progress)
        × (one_if (run_ops os (fresh device)).adapter.has_pair_ch
            ≤ (run_ops os (fresh device)).phone_logins)
  unfolding new_adapter
  run_ops-one_login os device =
      let h =
        run_ops-IsOneLogin os (fresh device) (record { one = omega arith; paired = omega arith }) in
      (h.one, h.paired)
