-- ===== src/Waclient/Login/Phone/Outcome.antt =====
-- internal/waclient/whatsmeow_adapter.go: the frames of a phone login, and where its outcome is from.
use whatsmeow_api.Prelude.{
  String, ◌≡◌, refl, subst, ◌⊎◌, inl, inr, Bool, true, false, Option, none, some, List, [], ◌∷◌,
  ◌++◌, arith,
}
use whatsmeow_api.Waclient.{LoginEvent}
use whatsmeow_api.Waclient.Login.{code_frame, terminal_frame}
use whatsmeow_api.Waclient.Login.Phone.{
  PhonePhase, coding, waiting, finishing, freeing, shutting, over, PhoneLogin, phone_start,
  PhoneMove, proceed, take_outcome, take_cancel, take_timeout, take_frame, give_up, expire, signal,
  proceed_at, outcome_at, end_at, frame_from, signal_pair, phone_step, phone_try, phone_run,
  put_outcome,
}
use mathlib.Core.List.{append_assoc}

abbrev pub phone_sent : PhoneLogin → List LoginEvent
phone_sent s = s.received ++ s.buffer

-- What the goroutine has sent when it stands at a phase; `last` is its outcome once it has one.
abbrev pub sent_at : String → String → PhonePhase → List LoginEvent
sent_at code last (coding _) = []
sent_at code last waiting = code_frame code ∷ []
sent_at code last (finishing _) = code_frame code ∷ []
sent_at code last _ = code_frame code ∷ terminal_frame last ∷ []

abbrev pub is_busy : PhonePhase → Bool
is_busy shutting = false
is_busy over = false
is_busy _ = true

-- The first outcome that whatsmeow reports.
abbrev pub first_signal : Option String → PhoneMove → Option String
first_signal seen (signal outcome) = put_outcome seen outcome
first_signal seen _ = seen

abbrev pub signalled : Option String → List PhoneMove → Option String
signalled seen [] = seen
signalled seen (m ∷ ms) = signalled (first_signal seen m) ms

-- Where an outcome may be from: the caller's context, the timer, or what was reported first.
abbrev pub IsReason : Option String → PhoneLogin → String → Type 0
IsReason seen s why =
    ((why ≡ "ctx-cancelled") × (s.cancelled ≡ true))
    ⊎ (((why ≡ "timeout") × (s.expired ≡ true)) ⊎ (seen ≡ some why))

abbrev pub decided : PhonePhase → Bool
decided (coding _) = false
decided waiting = false
decided _ = true

abbrev pub IsCode : String → PhonePhase → Type 0
IsCode code (coding c) = c ≡ code
IsCode code _ = Unit

abbrev pub IsLast : String → PhonePhase → Type 0
IsLast last (finishing o) = o ≡ last
IsLast last _ = Unit

pub record IsPhone (code last : String) (seen : Option String) (s : PhoneLogin) : Type 0 where
  pub sent : phone_sent s ≡ sent_at code last s.phase
  pub first : IsCode code s.phase
  pub final : IsLast last s.phase
  pub slot : s.in_progress ≡ is_busy s.phase
  pub registered : s.pair_ch ≡ true → seen ≡ none
  pub reported : (w : String) → s.outcome ≡ some w → seen ≡ some w
  pub reason : decided s.phase ≡ true → IsReason seen s last

proceed_at-IsPhone :
    (code last : String) (seen : Option String) (p : PhonePhase) (s t : PhoneLogin)
    → s.phase ≡ p
    → IsPhone code last seen s
    → proceed_at p s ≡ some t
    → IsPhone code last seen t
unfolding proceed_at
proceed_at-IsPhone code last seen (coding c) s t at h e =
    ground (arith, append_assoc s.received s.buffer (code_frame c ∷ []))
proceed_at-IsPhone code last seen waiting s t at h e = absurd (cc)
proceed_at-IsPhone code last seen (finishing o) s t at h e =
    ground (arith, append_assoc s.received s.buffer (terminal_frame o ∷ []))
proceed_at-IsPhone code last seen freeing s t at h e = ground arith
proceed_at-IsPhone code last seen shutting s t at h e = ground arith
proceed_at-IsPhone code last seen over s t at h e = absurd (cc)

outcome_at-IsPhone :
    (code last : String) (seen : Option String) (p : PhonePhase) (o : Option String)
    (s t : PhoneLogin)
    → s.phase ≡ p
    → s.outcome ≡ o
    → IsPhone code last seen s
    → outcome_at p o s ≡ some t
    → (w : String) × IsPhone code w seen t
unfolding outcome_at
outcome_at-IsPhone code last seen waiting (some w) s t at from h e =
    (w, ground (arith, h.reported w))
outcome_at-IsPhone code last seen waiting none s t at from h e = absurd (cc)
outcome_at-IsPhone code last seen _ _ s t at from h e = absurd (cc)

end_at-IsPhone :
    (code last : String) (seen : Option String) (p : PhonePhase) (ready : Bool) (why : String)
    (s t : PhoneLogin)
    → s.phase ≡ p
    → (ready ≡ true → IsReason seen s why)
    → IsPhone code last seen s
    → end_at p ready why s ≡ some t
    → (w : String) × IsPhone code w seen t
unfolding end_at
end_at-IsPhone code last seen waiting true why s t at because h e =
    (why, ground (arith, because refl))
end_at-IsPhone code last seen waiting false why s t at because h e = absurd (cc)
end_at-IsPhone code last seen _ _ why s t at because h e = absurd (cc)

frame_from-IsPhone :
    (code last : String) (seen : Option String) (fs : List LoginEvent) (s t : PhoneLogin)
    → s.buffer ≡ fs
    → IsPhone code last seen s
    → frame_from fs s ≡ some t
    → IsPhone code last seen t
unfolding frame_from
frame_from-IsPhone code last seen [] s t at h e = absurd (cc)
frame_from-IsPhone code last seen (f ∷ fs) s t at h e =
    ground (arith, append_assoc s.received (f ∷ []) fs)

signal_pair-IsPhone :
    (code last : String) (seen : Option String) (outcome : String) (s : PhoneLogin)
    → IsPhone code last seen s
    → IsPhone code last (put_outcome seen outcome) (signal_pair outcome s)
unfolding signal_pair
signal_pair-IsPhone code last none outcome s h = ground arith
signal_pair-IsPhone code last (some first) outcome s h = ground arith

step-IsPhone :
    (code last : String) (seen : Option String) (m : PhoneMove) (s t : PhoneLogin)
    → IsPhone code last seen s
    → phone_step m s ≡ some t
    → (w : String) × IsPhone code w (first_signal seen m) t
unfolding phone_step
step-IsPhone code last seen proceed s t h e =
    (last, proceed_at-IsPhone code last seen s.phase s t refl h e)
step-IsPhone code last seen take_outcome s t h e =
    outcome_at-IsPhone code last seen s.phase s.outcome s t refl refl h e
step-IsPhone code last seen take_cancel s t h e =
    end_at-IsPhone code last seen s.phase s.cancelled "ctx-cancelled" s t refl (λ r. inl (refl, r))
      h e
step-IsPhone code last seen take_timeout s t h e =
    end_at-IsPhone code last seen s.phase s.expired "timeout" s t refl (λ r. inr (inl (refl, r))) h
      e
step-IsPhone code last seen take_frame s t h e =
    (last, frame_from-IsPhone code last seen s.buffer s t refl h e)
step-IsPhone code last seen give_up s t h e = (last, ground arith)
step-IsPhone code last seen expire s t h e = (last, ground arith)
step-IsPhone code last seen (signal outcome) s t h e = (
  last,
  subst (IsPhone code last (put_outcome seen outcome)) (ground arith)
      (signal_pair-IsPhone code last seen outcome s h),
)

try-IsPhone :
    (code last : String) (seen : Option String) (m : PhoneMove) (s : PhoneLogin)
    → IsPhone code last seen s
    → (w : String) × IsPhone code w (first_signal seen m) (phone_try m s)
unfolding phone_step
try-IsPhone code last seen m s h = tried (phone_step m s) refl
  where
    tried :
        (o : Option PhoneLogin)
        → phone_step m s ≡ o
        → (w : String) × IsPhone code w (first_signal seen m) (elim o [ none ↦ s | some t ↦ t ])
    tried (some t) e = step-IsPhone code last seen m s t h e
    tried none e = (last, waits m e)
      where
        waits : (m : PhoneMove) → phone_step m s ≡ none → IsPhone code last (first_signal seen m) s
        waits (signal _) e = absurd (cc)
        waits _ _ = h

-- The frames, the slot and the source of the outcome in every state of a phone login.
pub phone_run-IsPhone :
    (code last : String) (seen : Option String) (ms : List PhoneMove) (s : PhoneLogin)
    → IsPhone code last seen s
    → (w : String) × IsPhone code w (signalled seen ms) (phone_run ms s)
phone_run-IsPhone code last seen [] s h = (last, h)
phone_run-IsPhone code last seen (m ∷ ms) s h =
    let (w, next) = try-IsPhone code last seen m s h in
    phone_run-IsPhone code w (first_signal seen m) ms (phone_try m s) next

pub phone_start-IsPhone : (code : String) → IsPhone code "" none (phone_start code)
phone_start-IsPhone code = ground arith

-- In every interleaving, a phone login that is over has sent its code and then one terminal frame,
-- and holds the login slot no more; the outcome is that of the caller's cancelled context, that of
-- the expired timer, or the first that whatsmeow reported.
pub phone_run-outcome :
    (code : String) (ms : List PhoneMove)
    → (phone_run ms (phone_start code)).phase ≡ over
    → (w : String) × (phone_sent (phone_run ms (phone_start code))
        ≡ code_frame code ∷ terminal_frame w ∷ [])
      × IsReason (signalled none ms) (phone_run ms (phone_start code)) w
      × ((phone_run ms (phone_start code)).in_progress ≡ false)
phone_run-outcome code ms ended =
    let (w, h) = phone_run-IsPhone code "" none ms (phone_start code) (phone_start-IsPhone code) in
    (
      w,
      ground (arith, h.sent, ended),
      ground (arith, h.reason, ended),
      ground (arith, h.slot, ended),
    )
