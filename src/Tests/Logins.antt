-- ===== src/Tests/Logins.antt =====
-- Logins of internal/waclient/whatsmeow_adapter.go, evaluated.
use whatsmeow_api.Prelude.{String, ◌≡◌, refl, true, false, none, List, [], ◌∷◌, ◌++◌, arith}
use whatsmeow_api.Waclient.Login.{code_frame, terminal_frame}
use whatsmeow_api.Waclient.Login.Qr.{
  QrItem, QrLogin, QrMove, ended, qr_start, qr_step, qr_run, advance, abandon, receive, cancel,
  shut,
}
use whatsmeow_api.Waclient.Login.Qr.Shape.{IsWellFormed, qr_run-IsWellFormed}
use whatsmeow_api.Waclient.Login.Qr.Frames.{qr_frames, qr_run-received}
use whatsmeow_api.Waclient.Login.Qr.Finish.{fair, fair-ended, abandoned-in_progress}
use whatsmeow_api.Waclient.Login.Phone.{
  over, phone_start, phone_step, phone_run, PhoneMove, proceed, take_outcome, expire, signal,
}
use whatsmeow_api.Waclient.Login.Phone.Outcome.{IsReason, phone_sent, phone_run-outcome, signalled}
use whatsmeow_api.Waclient.Login.Phone.Finish.{turns, turns-ended}

abbrev code_item : QrItem
code_item = record { event = "code"; code = "2@abc" }

abbrev scanned : List QrItem
scanned = code_item ∷ record { event = "success"; code = "" } ∷ []

abbrev to_the_end : List QrMove
to_the_end = advance ∷ advance ∷ receive ∷ advance ∷ advance ∷ advance ∷ advance ∷ receive ∷ []

qr_run-IsWellFormed_example : IsWellFormed (qr_run to_the_end (qr_start scanned))
qr_run-IsWellFormed_example = qr_run-IsWellFormed scanned to_the_end

qr_run-received_example :
    (qr_run to_the_end (qr_start scanned)).received
    ≡ code_frame "2@abc" ∷ terminal_frame "success" ∷ []
unfolding qr_frames qr_step
qr_run-received_example =
    qr_run-received scanned to_the_end
      (refl, (refl, (refl, (refl, (refl, (refl, (refl, (refl, tt)))))))) at_end empty
  where
    at_end : (qr_run to_the_end (qr_start scanned)).phase ≡ ended
    at_end = refl

    empty : (qr_run to_the_end (qr_start scanned)).buffer ≡ []
    empty = refl

abbrev plain : List (List QrMove × List QrMove)
plain =
    let r : List QrMove × List QrMove = (cancel ∷ [], []) in
    r ∷ r ∷ r ∷ r ∷ r ∷ r ∷ r ∷ r ∷ r ∷ r ∷ r ∷ []

fair-ended_example :
    ((qr_run (fair plain) (qr_start scanned)).phase ≡ ended)
    × ((qr_run (fair plain) (qr_start scanned)).in_progress ≡ false)
    × ((qr_run (fair plain) (qr_start scanned)).is_closed ≡ true)
    × ((qr_run (fair plain) (qr_start scanned)).buffer ≡ [])
fair-ended_example = fair-ended scanned plain (omega arith)

-- Five codes and then nobody who receives; the caller's context is cancelled.
abbrev unread : QrLogin
unread =
    qr_run
      (advance ∷ advance ∷ advance ∷ advance ∷ advance ∷ advance ∷ advance ∷ advance ∷ advance
        ∷ cancel ∷ abandon ∷ [])
      (qr_start (code_item ∷ code_item ∷ code_item ∷ code_item ∷ code_item ∷ []))

abandoned-in_progress_example : (qr_run (advance ∷ shut ∷ advance ∷ []) unread).in_progress ≡ true
unfolding qr_step
abandoned-in_progress_example =
    abandoned-in_progress "ctx-cancelled" unread (advance ∷ shut ∷ advance ∷ []) refl refl refl
      (refl, (refl, (refl, tt)))

abbrev paired : List PhoneMove
paired =
    signal "success" ∷ signal "err-late" ∷ proceed ∷ take_outcome ∷ proceed ∷ proceed ∷ proceed ∷ []

phone_run-outcome_example :
    (w : String) × (phone_sent (phone_run paired (phone_start "ABCD-1234"))
      ≡ code_frame "ABCD-1234" ∷ terminal_frame w ∷ [])
    × IsReason (signalled none paired) (phone_run paired (phone_start "ABCD-1234")) w
    × ((phone_run paired (phone_start "ABCD-1234")).in_progress ≡ false)
unfolding phone_step
phone_run-outcome_example = phone_run-outcome "ABCD-1234" paired refl

abbrev idle : List (List PhoneMove)
idle = [] ∷ [] ∷ [] ∷ [] ∷ [] ∷ []

turns-ended_example :
    ((phone_run (expire ∷ [] ++ turns idle) (phone_start "ABCD-1234")).phase ≡ over)
    × ((phone_run (expire ∷ [] ++ turns idle) (phone_start "ABCD-1234")).in_progress ≡ false)
unfolding phone_step
turns-ended_example = turns-ended "ABCD-1234" (expire ∷ []) idle refl (omega arith)
