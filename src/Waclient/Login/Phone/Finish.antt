-- ===== src/Waclient/Login/Phone/Finish.antt =====
-- internal/waclient/whatsmeow_adapter.go: a phone login ends by its timer, received or not.
use whatsmeow_api.Prelude.{
  ℕ, ◌-◌, ◌≤◌, ◌≡◌, refl, ap, ◌∙◌, String, Bool, true, false, Option, none, some, List, [], ◌∷◌,
  ◌++◌, arith, length, length-append,
}
use whatsmeow_api.Waclient.{LoginEvent}
use whatsmeow_api.Waclient.Login.{code_frame, terminal_frame}
use whatsmeow_api.Waclient.Login.Phone.{
  PhonePhase, coding, waiting, finishing, freeing, shutting, over, PhoneLogin, phone_start,
  PhoneMove, proceed, take_outcome, take_cancel, take_timeout, take_frame, give_up, expire, signal,
  proceed_at, outcome_at, end_at, frame_from, signal_pair, phone_step, phone_try, phone_run,
}
use whatsmeow_api.Waclient.Login.Phone.Outcome.{phone_run-IsPhone, phone_start-IsPhone}

abbrev steps_left : PhonePhase → ℕ
steps_left (coding _) = 5
steps_left waiting = 4
steps_left (finishing _) = 3
steps_left freeing = 2
steps_left shutting = 1
steps_left over = 0

abbrev most_sent : PhonePhase → ℕ
most_sent (coding _) = 0
most_sent waiting = 1
most_sent (finishing _) = 1
most_sent _ = 2

-- What a move keeps: the channel's places are enough, and it leads no way back.
record IsNearer (s t : PhoneLogin) : Type 0 where
  roomy : length t.buffer ≤ most_sent t.phase
  closer : steps_left t.phase ≤ steps_left s.phase
  timed : s.expired ≡ true → t.expired ≡ true

abbrev IsRoomy : PhoneLogin → Type 0
IsRoomy s = length s.buffer ≤ most_sent s.phase

proceed_at-IsNearer :
    (p : PhonePhase) (s t : PhoneLogin)
    → s.phase ≡ p
    → IsRoomy s
    → proceed_at p s ≡ some t
    → IsNearer s t
unfolding proceed_at
proceed_at-IsNearer (coding c) s t at h e =
    ground (arith, length-append s.buffer (code_frame c ∷ []))
proceed_at-IsNearer (finishing o) s t at h e =
    ground (arith, length-append s.buffer (terminal_frame o ∷ []))
proceed_at-IsNearer waiting s t at h e = absurd (cc)
proceed_at-IsNearer freeing s t at h e = ground arith
proceed_at-IsNearer shutting s t at h e = ground arith
proceed_at-IsNearer over s t at h e = absurd (cc)

outcome_at-IsNearer :
    (p : PhonePhase) (o : Option String) (s t : PhoneLogin)
    → s.phase ≡ p
    → IsRoomy s
    → outcome_at p o s ≡ some t
    → IsNearer s t
unfolding outcome_at
outcome_at-IsNearer waiting (some w) s t at h e = ground arith
outcome_at-IsNearer waiting none s t at h e = absurd (cc)
outcome_at-IsNearer _ _ s t at h e = absurd (cc)

end_at-IsNearer :
    (p : PhonePhase) (ready : Bool) (why : String) (s t : PhoneLogin)
    → s.phase ≡ p
    → IsRoomy s
    → end_at p ready why s ≡ some t
    → IsNearer s t
unfolding end_at
end_at-IsNearer waiting true why s t at h e = ground arith
end_at-IsNearer waiting false why s t at h e = absurd (cc)
end_at-IsNearer _ _ why s t at h e = absurd (cc)

frame_from-IsNearer :
    (fs : List LoginEvent) (s t : PhoneLogin)
    → s.buffer ≡ fs
    → IsRoomy s
    → frame_from fs s ≡ some t
    → IsNearer s t
unfolding frame_from
frame_from-IsNearer [] s t at h e = absurd (cc)
frame_from-IsNearer (f ∷ fs) s t at h e = ground arith

step-IsNearer :
    (m : PhoneMove) (s t : PhoneLogin) → IsRoomy s → phone_step m s ≡ some t → IsNearer s t
unfolding phone_step signal_pair
step-IsNearer proceed s t h e = proceed_at-IsNearer s.phase s t refl h e
step-IsNearer take_outcome s t h e = outcome_at-IsNearer s.phase s.outcome s t refl h e
step-IsNearer take_cancel s t h e = end_at-IsNearer s.phase s.cancelled "ctx-cancelled" s t refl h e
step-IsNearer take_timeout s t h e = end_at-IsNearer s.phase s.expired "timeout" s t refl h e
step-IsNearer take_frame s t h e = frame_from-IsNearer s.buffer s t refl h e
step-IsNearer give_up s t h e = ground arith
step-IsNearer expire s t h e = ground arith
step-IsNearer (signal outcome) s t h e = ground arith

-- A property of every move that is made, and of standing still, holds of an attempt.
attempted {κ} :
    (P : PhoneLogin → Type κ) (m : PhoneMove) (s : PhoneLogin)
    → P s
    → ((t : PhoneLogin) → phone_step m s ≡ some t → P t)
    → P (phone_try m s)
attempted P m s h made = tried (phone_step m s) made
  where
    tried :
        (o : Option PhoneLogin)
        → ((t : PhoneLogin) → o ≡ some t → P t)
        → P (elim o [ none ↦ s | some t ↦ t ])
    tried none _ = h
    tried (some t) made = made t refl

run-IsNearer : (ms : List PhoneMove) (s : PhoneLogin) → IsRoomy s → IsNearer s (phone_run ms s)
run-IsNearer [] s h = ground arith
run-IsNearer (m ∷ ms) s h =
    let first = attempted (IsNearer s) m s (ground arith) (λ t. step-IsNearer m s t h) in
    let later = run-IsNearer ms (phone_try m s) first.roomy in ground (arith, first, later)

-- With the timer fired, the goroutine's turn brings the end nearer, whether the caller receives or not.
turn-closer :
    (p : PhonePhase) (s : PhoneLogin)
    → s.phase ≡ p
    → IsRoomy s
    → s.expired ≡ true
    → steps_left (phone_run (take_timeout ∷ proceed ∷ []) s).phase ≤ steps_left p - 1
unfolding phone_step proceed_at end_at
turn-closer (coding c) s at h timed = ground arith
turn-closer waiting s at h timed = ground arith
turn-closer (finishing o) s at h timed = ground arith
turn-closer freeing s at h timed = ground arith
turn-closer shutting s at h timed = ground arith
turn-closer over s at h timed = ground arith

-- A schedule that gives the goroutine a turn in each round; the other moves are any, and may leave
-- the caller out.
abbrev pub turns : List (List PhoneMove) → List PhoneMove
turns [] = []
turns (before ∷ rounds) = before ++ (take_timeout ∷ proceed ∷ turns rounds)

run-append :
    (ms ns : List PhoneMove) (s : PhoneLogin)
    → phone_run (ms ++ ns) s ≡ phone_run ns (phone_run ms s)
run-append [] ns s = refl
run-append (m ∷ ms) ns s = run-append ms ns (phone_try m s)

turns-over :
    (rounds : List (List PhoneMove)) (s : PhoneLogin)
    → IsRoomy s
    → s.expired ≡ true
    → steps_left s.phase ≤ length rounds
    → steps_left (phone_run (turns rounds) s).phase ≡ 0
turns-over [] s h timed enough = omega arith
turns-over (before ∷ rounds) s h timed enough =
    let t = phone_run before s in
    let to_t = run-IsNearer before s h in
    let u = phone_run (take_timeout ∷ proceed ∷ []) t in
    let to_u = run-IsNearer (take_timeout ∷ proceed ∷ []) t to_t.roomy in
    let nearer = turn-closer t.phase t refl to_t.roomy (to_t.timed timed) in
    ap (λ (v : PhoneLogin). steps_left v.phase)
      (run-append before (take_timeout ∷ proceed ∷ turns rounds) s)
    ∙ turns-over rounds u to_u.roomy (to_u.timed (to_t.timed timed))
        (omega (arith, nearer, to_t.closer, enough))

none_left : (p : PhonePhase) → steps_left p ≡ 0 → p ≡ over
none_left over h = refl
none_left (coding c) h = absurd (omega arith)
none_left waiting h = absurd (omega arith)
none_left (finishing o) h = absurd (omega arith)
none_left freeing h = absurd (omega arith)
none_left shutting h = absurd (omega arith)

-- Once its timer of 150 seconds has fired, a phone login is over after five turns of its goroutine,
-- under every schedule, also one in which the caller receives nothing: the goroutine has ended and
-- has given the login slot back.
pub turns-ended :
    (code : String) (ms : List PhoneMove) (rounds : List (List PhoneMove))
    → (phone_run ms (phone_start code)).expired ≡ true
    → 5 ≤ length rounds
    → ((phone_run (ms ++ turns rounds) (phone_start code)).phase ≡ over)
      × ((phone_run (ms ++ turns rounds) (phone_start code)).in_progress ≡ false)
turns-ended code ms rounds timed enough =
    let s = phone_run ms (phone_start code) in
    let near = run-IsNearer ms (phone_start code) (omega arith) in
    let ended = none_left (phone_run (ms ++ turns rounds) (phone_start code)).phase (
      ap (λ (v : PhoneLogin). steps_left v.phase) (run-append ms (turns rounds) (phone_start code))
      ∙ turns-over rounds s near.roomy timed (omega (arith, near.closer, enough))) in
    let (w, h) =
      phone_run-IsPhone code "" none (ms ++ turns rounds) (phone_start code)
        (phone_start-IsPhone code) in
    (ended, ground (arith, h.slot, ended))
