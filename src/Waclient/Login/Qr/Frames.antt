-- ===== src/Waclient/Login/Qr/Frames.antt =====
-- internal/waclient/whatsmeow_adapter.go: which frames the goroutine of `LoginQR` sends.
use whatsmeow_api.Prelude.{
  String, ◌≡◌, refl, ◌∙◌, Bool, true, false, some, List, [], ◌∷◌, ◌++◌, arith, All, ◌==◌,
  if◌then◌else◌,
}
use whatsmeow_api.Text.{concat}
use whatsmeow_api.Waclient.{LoginEvent}
use whatsmeow_api.Waclient.Login.{code_frame, terminal_frame}
use whatsmeow_api.Waclient.Login.Qr.{
  QrItem, QrPhase, ranging, offering, ending, releasing, closing, ended, QrLogin, qr_start, QrMove,
  advance, abandon, receive, cancel, shut, next_at, receive_from, qr_step, qr_run, on_item,
}
use whatsmeow_api.Waclient.Login.Qr.Shape.{qr_sent, qr_run-keeps}
use mathlib.Core.List.{append_assoc, append-nil}

-- The whole stream, read off what whatsmeow reports: its codes, up to the first other event.
abbrev pub outcome_of : String → String
outcome_of event =
    if event == "success"
    then "success"
    else if event == "timeout"
    then "timeout"
    else concat "err-" event

unfoldable pub qr_frames : List QrItem → List LoginEvent
qr_frames [] = []
qr_frames (item ∷ rest) =
    let more = qr_frames rest in
    if item.event == "code"
    then code_frame item.code ∷ more
    else terminal_frame (outcome_of item.event) ∷ []

-- What the goroutine has still to send.
unfoldable pub pending : QrPhase → List QrItem → List LoginEvent
pending ranging items = qr_frames items
pending (offering code) items = code_frame code ∷ qr_frames items
pending (ending outcome) items = terminal_frame outcome ∷ []
pending releasing items = []
pending closing items = []
pending ended items = []

-- The caller lets the login run, and whatsmeow does not close its channel before the end.
abbrev pub is_patient : QrMove → Bool
is_patient advance = true
is_patient receive = true
is_patient cancel = true
is_patient abandon = false
is_patient shut = false

abbrev total : QrLogin → List LoginEvent
total s = qr_sent s ++ pending s.phase s.source

pending-on_item :
    (item : QrItem) (rest : List QrItem) → pending (on_item item) rest ≡ qr_frames (item ∷ rest)
unfolding pending on_item qr_frames
pending-on_item item rest = ground arith

abbrev resent :
    (received buffer : List LoginEvent) (f : LoginEvent) (more : List LoginEvent)
    → (received ++ (buffer ++ f ∷ [])) ++ more ≡ (received ++ buffer) ++ f ∷ more
resent received buffer f more = simp (append_assoc)

next_at-total :
    (p : QrPhase) (items : List QrItem) (s t : QrLogin)
    → s.phase ≡ p
    → s.source ≡ items
    → next_at p items s ≡ some t
    → total t ≡ total s
unfolding next_at pending qr_frames
next_at-total ranging [] s t at from e = ground (arith)
next_at-total ranging (item ∷ rest) s t at from e = ground (arith, pending-on_item item rest)
next_at-total (offering c) items s t at from e =
    ground (arith, resent s.received s.buffer (code_frame c) (qr_frames items))
next_at-total (ending o) items s t at from e =
    ground (arith, resent s.received s.buffer (terminal_frame o) [])
next_at-total releasing items s t at from e = ground arith
next_at-total closing items s t at from e = ground arith
next_at-total ended items s t at from e = absurd (cc)

receive_from-total :
    (fs : List LoginEvent) (s t : QrLogin)
    → s.buffer ≡ fs
    → receive_from fs s ≡ some t
    → total t ≡ total s
unfolding receive_from
receive_from-total [] s t at e = absurd (cc)
receive_from-total (f ∷ fs) s t at e = ground (arith, append_assoc s.received (f ∷ []) fs)

step-total :
    (m : QrMove) (s t : QrLogin) → is_patient m ≡ true → qr_step m s ≡ some t → total t ≡ total s
unfolding qr_step
step-total advance s t p e = next_at-total s.phase s.source s t refl refl e
step-total receive s t p e = receive_from-total s.buffer s t refl e
step-total cancel s t p e = ground arith
step-total abandon s t p e = absurd (cc)
step-total shut s t p e = absurd (cc)

keeps-total :
    (all : List LoginEvent) (ms : List QrMove)
    → All (λ m. is_patient m ≡ true) ms
    → All (λ m. (s t : QrLogin) → total s ≡ all → qr_step m s ≡ some t → total t ≡ all) ms
keeps-total all [] _ = tt
keeps-total all (m ∷ ms) (p, ps) = (λ s t h e. step-total m s t p e ∙ h, keeps-total all ms ps)

-- While the caller does not abandon the login and whatsmeow does not close its channel early, what
-- was sent and what is still to be sent together are the frames read off whatsmeow's events.
pub qr_run-frames :
    (items : List QrItem) (ms : List QrMove)
    → All (λ m. is_patient m ≡ true) ms
    → qr_sent (qr_run ms (qr_start items))
        ++ pending (qr_run ms (qr_start items)).phase (qr_run ms (qr_start items)).source
      ≡ qr_frames items
unfolding pending
qr_run-frames items ms patient =
    qr_run-keeps (λ s. total s ≡ qr_frames items) ms (qr_start items)
      (keeps-total (qr_frames items) ms patient) refl

-- In every run in which the caller does not abandon the login and whatsmeow does not close its
-- channel early, once the goroutine has ended and the caller has emptied the channel, the caller has
-- received the frames read off whatsmeow's events: a frame for each code up to the first other
-- event, and a terminal frame for that.
pub qr_run-received :
    (items : List QrItem) (ms : List QrMove)
    → All (λ m. is_patient m ≡ true) ms
    → (qr_run ms (qr_start items)).phase ≡ ended
    → (qr_run ms (qr_start items)).buffer ≡ []
    → (qr_run ms (qr_start items)).received ≡ qr_frames items
unfolding pending
qr_run-received items ms patient over drained =
    ground (arith, qr_run-frames items ms patient, append-nil (qr_run ms (qr_start items)).received)
