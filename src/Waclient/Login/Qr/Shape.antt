-- ===== src/Waclient/Login/Qr/Shape.antt =====
-- internal/waclient/whatsmeow_adapter.go: what the caller of `LoginQR` may rely on in any
-- interleaving, whatever it does itself.
use whatsmeow_api.Prelude.{
  String, ◌≤◌, ◌≡◌, refl, Bool, true, false, Option, none, some, List, [], ◌∷◌, ◌++◌, arith, length,
  length-append, All, All-append, sym,
}
use whatsmeow_api.Waclient.{LoginEvent}
use whatsmeow_api.Waclient.Login.{code_frame, terminal_frame}
use whatsmeow_api.Waclient.Login.Qr.{
  QrItem, QrPhase, ranging, offering, ending, releasing, closing, ended, QrLogin, qr_start, QrMove,
  advance, abandon, receive, cancel, shut, next_at, abandon_at, receive_from, qr_step, qr_try,
  qr_run, qr_capacity, on_item,
}
use mathlib.Core.List.{append_assoc}

-- The goroutine still has frames to send.
abbrev pub is_sending : QrPhase → Bool
is_sending ranging = true
is_sending (offering _) = true
is_sending (ending _) = true
is_sending releasing = false
is_sending closing = false
is_sending ended = false

-- The goroutine still holds `loginInProgress`.
abbrev pub is_holding : QrPhase → Bool
is_holding closing = false
is_holding ended = false
is_holding _ = true

abbrev pub is_ended : QrPhase → Bool
is_ended ended = true
is_ended _ = false

pub AllCodes : List LoginEvent → Type 0
AllCodes = All (λ f. f.terminal ≡ false)

-- A terminal frame is the last one.
pub IsStream : List LoginEvent → Type 0
IsStream [] = Unit
IsStream (f ∷ fs) = (f.terminal ≡ true → fs ≡ []) × IsStream fs

-- All that was sent, taken by the caller or not.
abbrev pub qr_sent : QrLogin → List LoginEvent
qr_sent s = s.received ++ s.buffer

pub record IsWellFormed (s : QrLogin) : Type 0 where
  pub bounded : length s.buffer ≤ qr_capacity
  pub closed_last : s.is_closed ≡ is_ended s.phase
  pub slot_held : s.in_progress ≡ is_holding s.phase
  pub codes_first : is_sending s.phase ≡ true → AllCodes (qr_sent s)
  pub stream : IsStream (qr_sent s)

AllCodes-IsStream : (fs : List LoginEvent) → AllCodes fs → IsStream fs
unfolding IsStream AllCodes
AllCodes-IsStream [] _ = tt
AllCodes-IsStream (f ∷ fs) (h, hs) = (λ e. absurd (cc), AllCodes-IsStream fs hs)

-- Any frame may end a stream of codes.
IsStream-append : (fs : List LoginEvent) (f : LoginEvent) → AllCodes fs → IsStream (fs ++ f ∷ [])
unfolding IsStream AllCodes
IsStream-append [] f _ = (λ _. refl, tt)
IsStream-append (g ∷ fs) f (h, hs) = (λ e. absurd (cc), IsStream-append fs f hs)

AllCodes-append :
    (fs : List LoginEvent) (code : String) → AllCodes fs → AllCodes (fs ++ code_frame code ∷ [])
unfolding AllCodes
AllCodes-append fs code h =
    All-append (λ f. f.terminal ≡ false) fs (code_frame code ∷ []) h (refl, tt)

on_item_sends : (item : QrItem) → is_sending (on_item item) ≡ true
unfolding on_item
on_item_sends item = ground arith

on_item_holds : (item : QrItem) → is_holding (on_item item) ≡ true
unfolding on_item
on_item_holds item = ground arith

on_item_ends : (item : QrItem) → is_ended (on_item item) ≡ false
unfolding on_item
on_item_ends item = ground arith

sent_send :
    (received buffer : List LoginEvent) (f : LoginEvent)
    → received ++ (buffer ++ f ∷ []) ≡ (received ++ buffer) ++ f ∷ []
sent_send received buffer f = sym (append_assoc received buffer (f ∷ []))

next_at-IsWellFormed :
    (p : QrPhase) (items : List QrItem) (s t : QrLogin)
    → s.phase ≡ p
    → IsWellFormed s
    → next_at p items s ≡ some t
    → IsWellFormed t
unfolding next_at
next_at-IsWellFormed ranging [] s t at h e = ground arith
next_at-IsWellFormed ranging (item ∷ rest) s t at h e =
    ground (arith, on_item_sends item, on_item_holds item, on_item_ends item)
next_at-IsWellFormed (offering c) items s t at h e = ground (
  arith,
  sent_send s.received s.buffer (code_frame c),
  length-append s.buffer (code_frame c ∷ []),
  IsStream-append (qr_sent s) (code_frame c),
  AllCodes-append (qr_sent s) c,
)
next_at-IsWellFormed (ending o) items s t at h e = ground (
  arith,
  sent_send s.received s.buffer (terminal_frame o),
  length-append s.buffer (terminal_frame o ∷ []),
  IsStream-append (qr_sent s) (terminal_frame o),
)
next_at-IsWellFormed releasing items s t at h e = ground arith
next_at-IsWellFormed closing items s t at h e = ground arith
next_at-IsWellFormed ended items s t at h e = absurd (cc)

abandon_at-IsWellFormed :
    (p : QrPhase) (s t : QrLogin)
    → s.phase ≡ p
    → IsWellFormed s
    → abandon_at p s ≡ some t
    → IsWellFormed t
unfolding abandon_at
abandon_at-IsWellFormed (offering c) s t at h e = ground arith
abandon_at-IsWellFormed _ s t at h e = absurd (cc)

receive_from-IsWellFormed :
    (fs : List LoginEvent) (s t : QrLogin)
    → s.buffer ≡ fs
    → IsWellFormed s
    → receive_from fs s ≡ some t
    → IsWellFormed t
unfolding receive_from
receive_from-IsWellFormed [] s t at h e = absurd (cc)
receive_from-IsWellFormed (f ∷ fs) s t at h e = ground (arith, append_assoc s.received (f ∷ []) fs)

step-IsWellFormed :
    (m : QrMove) (s t : QrLogin) → IsWellFormed s → qr_step m s ≡ some t → IsWellFormed t
unfolding qr_step
step-IsWellFormed advance s t h e = next_at-IsWellFormed s.phase s.source s t refl h e
step-IsWellFormed abandon s t h e = abandon_at-IsWellFormed s.phase s t refl h e
step-IsWellFormed receive s t h e = receive_from-IsWellFormed s.buffer s t refl h e
step-IsWellFormed cancel s t h e = ground arith
step-IsWellFormed shut s t h e = ground arith

-- What holds before a move that has to wait, and after one that is made, holds of the attempt.
pub qr_try-keeps {κ} :
    (P : QrLogin → Type κ) (m : QrMove) (s : QrLogin)
    → P s
    → ((t : QrLogin) → qr_step m s ≡ some t → P t)
    → P (qr_try m s)
qr_try-keeps P m s h keeps = tried (qr_step m s) keeps
  where
    tried :
        (o : Option QrLogin)
        → ((t : QrLogin) → o ≡ some t → P t)
        → P (elim o [ none ↦ s | some t ↦ t ])
    tried none _ = h
    tried (some t) keeps = keeps t refl

pub qr_run-keeps {κ} :
    (P : QrLogin → Type κ) (ms : List QrMove) (s : QrLogin)
    → All (λ m. (s t : QrLogin) → P s → qr_step m s ≡ some t → P t) ms
    → P s
    → P (qr_run ms s)
qr_run-keeps P [] s _ h = h
qr_run-keeps P (m ∷ ms) s (keeps, more) h =
    qr_run-keeps P ms (qr_try m s) more (qr_try-keeps P m s h (λ t. keeps s t h))

pub All-any {ℓ κ} : {A : Type ℓ} {P : A → Type κ} → ((a : A) → P a) → (xs : List A) → All P xs
All-any h [] = tt
All-any h (a ∷ xs) = (h a, All-any h xs)

qr_start-IsWellFormed : (items : List QrItem) → IsWellFormed (qr_start items)
unfolding IsStream AllCodes
qr_start-IsWellFormed items = ground arith

-- In every interleaving of the goroutine with its caller and with whatsmeow, at most four frames wait
-- in the channel, a terminal frame is the last that is sent, no terminal frame was sent while the
-- goroutine has still to send, the channel is closed at the very end, and the login slot is held
-- until the goroutine gives it back, before it closes the channel.
pub qr_run-IsWellFormed :
    (items : List QrItem) (ms : List QrMove) → IsWellFormed (qr_run ms (qr_start items))
qr_run-IsWellFormed items ms =
    qr_run-keeps IsWellFormed ms (qr_start items) (All-any step-IsWellFormed ms)
      (qr_start-IsWellFormed items)
