-- ===== src/Waclient/Adapter/Connection/Starts.antt =====
-- internal/waclient/whatsmeow_adapter.go: what `LoginQR` and `LoginPhone` do to the claim of a login.
use whatsmeow_api.Prelude.{◌≡◌, refl, String, Bool, true, false, ◌&&◌, arith, ◌⊎◌, if◌then◌else◌}
use whatsmeow_api.Errors.{Result, ok, err, already_logged_in, login_in_progress, failure}
use whatsmeow_api.Waclient.Jid.{is_valid_phone_number}
use whatsmeow_api.Waclient.Adapter.{Whatsmeow, Adapter, answered, call, claim}
use whatsmeow_api.Waclient.Adapter.Connection.{
  ensure_client, made, after_client, with_client, login_free, or_release, free_slot, claim_qr,
  connect_qr, claim_phone, pair_phone, begin_qr, begin_phone, is_some,
}

module _ {M : Whatsmeow} where
  -- The fields of the claim are as they were.
  abbrev pub IsSameClaim : Adapter M → Adapter M → Type 0
  IsSameClaim a b =
      (b.login_in_progress ≡ a.login_in_progress) × (b.has_pair_ch ≡ true → a.has_pair_ch ≡ true)

  -- A start that succeeds found the slot free and takes it; one that fails leaves it as it was.
  abbrev pub IsStart {ℓ} : {R : Type ℓ} → Bool → Adapter M → Result R × Adapter M → Type 0
  IsStart pairing a (ok _, b) =
      (a.login_in_progress ≡ false)
      × (b.login_in_progress ≡ true)
      × (b.has_pair_ch ≡ true → (a.has_pair_ch ≡ true) ⊎ (pairing ≡ true))
  IsStart pairing a (err _, b) = IsSameClaim a b

  pub call-claim {ℓ} :
      {R : Type ℓ} (what : String) (a : Adapter M) (r : Result R × M.Device)
      → IsSameClaim a (answered what a r).1
  call-claim what a (ok _, d) = (refl, λ h. h)
  call-claim what a (err _, d) = (refl, λ h. h)

  pub ensure_client-claim : (a : Adapter M) → IsSameClaim a (ensure_client a).1
  unfolding ensure_client
  ensure_client-claim a = at a.has_client (M.get_first_device a.device)
    where
      at :
          (b : Bool) (r : Result (Unit {0}) × M.Device)
          → IsSameClaim a (if b then (ok tt, a) else made a r).1
      at true r = (refl, λ h. h)
      at false (ok _, d) = (refl, λ h. h)
      at false (err _, d) = (refl, λ h. h)

  module _ {ℓ} {R : Type ℓ} (pairing : Bool) (a : Adapter M) where
    with_client-IsStart :
        (next : Adapter M → Result R × Adapter M)
        → ((b : Adapter M) → IsSameClaim a b → IsStart pairing a (next b))
        → IsStart pairing a (with_client next a)
    with_client-IsStart next h = at (ensure_client a) (ensure_client-claim a)
      where
        at :
            (r : Result (Unit {0}) × Adapter M)
            → IsSameClaim a r.1
            → IsStart pairing a (after_client next r)
        at (ok _, b) same = h b same
        at (err _, b) same = same

    login_free-IsStart :
        (next : Adapter M → Result R × Adapter M) (b : Adapter M)
        → IsSameClaim a b
        → (b.login_in_progress ≡ false → IsStart pairing a (next b))
        → IsStart pairing a (login_free next b)
    login_free-IsStart next b same h =
        at (is_some (M.store_id b.device) && M.is_logged_in b.device) b.login_in_progress h
      where
        at :
            (logged_in taken : Bool)
            → (taken ≡ false → IsStart pairing a (next b))
            → IsStart pairing a (
                if logged_in
                then (err already_logged_in, b)
                else if taken
                then (err login_in_progress, b)
                else next b)
        at true _ h = same
        at false true h = same
        at false false h = h refl

    or_release-IsStart {κ} :
        {V : Type κ} (release : Adapter M → Adapter M) (next : V → Adapter M → Result R × Adapter M)
        (c : Adapter M) (r : Result V × Adapter M)
        → IsSameClaim c r.1
        → ((b : Adapter M) → IsSameClaim c b → IsSameClaim a (release b))
        → ((v : V) (b : Adapter M) → IsSameClaim c b → IsStart pairing a (next v b))
        → IsStart pairing a (or_release release next r)
    or_release-IsStart release next c (ok v, b) same released started = started v b same
    or_release-IsStart release next c (err e, b) same released started = released b same

  pub begin_qr-IsStart : (a : Adapter M) → IsStart false a (begin_qr a)
  unfolding begin_qr
  begin_qr-IsStart a = with_client-IsStart false a (login_free claim_qr) (λ b same.
      login_free-IsStart false a claim_qr b same (λ free.
        let c : Adapter M = record b { login_in_progress = true } in
        or_release-IsStart false a free_slot connect_qr c
          (call "get qr channel: " M.get_qr_channel c)
          (call-claim "get qr channel: " c (M.get_qr_channel c.device)) (λ d e. ground arith)
          (λ items a1 claimed.
            or_release-IsStart false a free_slot (λ _ a2. (ok items, a2)) a1
              (call "connect: " M.connect a1) (call-claim "connect: " a1 (M.connect a1.device))
              (λ d e. ground arith) (λ _ a2 e. ground arith))))

  pub begin_phone-IsStart : (phone : String) (a : Adapter M) → IsStart true a (begin_phone phone a)
  unfolding begin_phone
  begin_phone-IsStart phone a = at (is_valid_phone_number phone)
    where
      started : IsStart true a (with_client (login_free (claim_phone phone)) a)
      started = with_client-IsStart true a (login_free (claim_phone phone)) (λ b same.
          login_free-IsStart true a (claim_phone phone) b same (λ free.
            let c : Adapter M = claim true true b in
            or_release-IsStart true a (claim false false) (pair_phone phone) c
              (call "connect: " M.connect c) (call-claim "connect: " c (M.connect c.device))
              (λ d e. ground arith)
              (λ _ a1 claimed.
                or_release-IsStart true a (claim false false) (λ code a2. (ok code, a2)) a1
                  (call "pair phone: " (M.pair_phone phone true "Chrome (Linux)") a1)
                  (call-claim "pair phone: " a1
                    (M.pair_phone phone true "Chrome (Linux)" a1.device))
                  (λ d e. ground arith) (λ _ a2 e. ground arith))))

      at :
          (b : Bool)
          → IsStart true a (
              if b
              then with_client (login_free (claim_phone phone)) a
              else (err (failure "invalid phone number"), a))
      at true = started
      at false = (refl, λ h. h)
