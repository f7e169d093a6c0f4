-- ===== src/Waclient/Login/Qr/Finish.antt =====
-- internal/waclient/whatsmeow_adapter.go: the goroutine of `LoginQR` comes to its end, and gives the
-- login slot back, for a caller that goes on receiving; for one that is gone it may not.
use whatsmeow_api.Prelude.{
  ℕ, ◌+◌, ◌*◌, ◌≤◌, ◌<◌, ◌≡◌, refl, ◌⊎◌, inl, inr, Bool, true, false, Option, none, some, List, [],
  ◌∷◌, ◌++◌, arith, length, length-append, All, String, ap, ◌∙◌,
}
use whatsmeow_api.Waclient.{LoginEvent}
use whatsmeow_api.Waclient.Login.{code_frame, terminal_frame}
use whatsmeow_api.Waclient.Login.Qr.{
  QrItem, QrPhase, ranging, offering, ending, releasing, closing, ended, QrLogin, qr_start, QrMove,
  advance, abandon, receive, cancel, shut, next_at, abandon_at, receive_from, qr_step, qr_run,
  qr_try, on_item,
}
use whatsmeow_api.Waclient.Login.Qr.Shape.{qr_try-keeps, qr_run-keeps, qr_run-IsWellFormed}

-- The moves that are still to be made, by the goroutine and by the caller who receives.
abbrev weight : QrPhase → List QrItem → ℕ
weight ranging items = 4 * length items + 3
weight (offering _) items = 4 * length items + 5
weight (ending _) items = 4
weight releasing items = 2
weight closing items = 1
weight ended items = 0

abbrev to_do : QrLogin → ℕ
to_do s = weight s.phase s.source + length s.buffer

weight-on_item :
    (item : QrItem) (rest : List QrItem) → weight (on_item item) rest ≤ 4 * length rest + 5
unfolding on_item
weight-on_item item rest = ground arith

shut-less : (p : QrPhase) (items : List QrItem) → weight p [] ≤ weight p items
shut-less ranging items = omega arith
shut-less (offering c) items = omega arith
shut-less (ending o) items = omega arith
shut-less releasing items = omega arith
shut-less closing items = omega arith
shut-less ended items = omega arith

next_at-less :
    (p : QrPhase) (items : List QrItem) (s t : QrLogin)
    → s.phase ≡ p
    → s.source ≡ items
    → next_at p items s ≡ some t
    → to_do t < to_do s
unfolding next_at
next_at-less ranging [] s t at from e = ground arith
next_at-less ranging (item ∷ rest) s t at from e = ground (arith, weight-on_item item rest)
next_at-less (offering c) items s t at from e =
    ground (arith, length-append s.buffer (code_frame c ∷ []))
next_at-less (ending o) items s t at from e =
    ground (arith, length-append s.buffer (terminal_frame o ∷ []))
next_at-less releasing items s t at from e = ground arith
next_at-less closing items s t at from e = ground arith
next_at-less ended items s t at from e = absurd (cc)

-- A goroutine that waits is at its end, or its channel is full.
next_at-waits :
    (p : QrPhase) (items : List QrItem) (s : QrLogin)
    → s.phase ≡ p
    → s.source ≡ items
    → next_at p items s ≡ none
    → (p ≡ ended) ⊎ (4 ≤ length s.buffer)
unfolding next_at
next_at-waits ranging [] s at from e = absurd (cc)
next_at-waits ranging (item ∷ rest) s at from e = absurd (cc)
next_at-waits (offering c) items s at from e = ground arith
next_at-waits (ending o) items s at from e = ground arith
next_at-waits releasing items s at from e = absurd (cc)
next_at-waits closing items s at from e = absurd (cc)
next_at-waits ended items s at from e = inl refl

abandon_at-less :
    (p : QrPhase) (s t : QrLogin) → s.phase ≡ p → abandon_at p s ≡ some t → to_do t < to_do s
unfolding abandon_at
abandon_at-less (offering c) s t at e = ground arith
abandon_at-less _ s t at e = absurd (cc)

receive_from-less :
    (fs : List LoginEvent) (s t : QrLogin)
    → s.buffer ≡ fs
    → receive_from fs s ≡ some t
    → to_do t < to_do s
unfolding receive_from
receive_from-less [] s t at e = absurd (cc)
receive_from-less (f ∷ fs) s t at e = ground arith

-- A move that does not bring the end nearer leaves the channel as it was.
step-less :
    (m : QrMove) (s t : QrLogin)
    → qr_step m s ≡ some t
    → (to_do t < to_do s) ⊎ ((to_do t ≤ to_do s) × (t.buffer ≡ s.buffer))
unfolding qr_step
step-less advance s t e = inl (next_at-less s.phase s.source s t refl refl e)
step-less abandon s t e = inl (abandon_at-less s.phase s t refl e)
step-less receive s t e = inl (receive_from-less s.buffer s t refl e)
step-less cancel s t e = inr (ground arith, ground arith)
step-less shut s t e = inr (ground (arith, shut-less s.phase s.source), ground arith)

try-less :
    (m : QrMove) (s : QrLogin)
    → (to_do (qr_try m s) < to_do s)
      ⊎ ((to_do (qr_try m s) ≤ to_do s) × ((qr_try m s).buffer ≡ s.buffer))
try-less m s =
    qr_try-keeps (λ t. (to_do t < to_do s) ⊎ ((to_do t ≤ to_do s) × (t.buffer ≡ s.buffer))) m s
      (inr (omega arith, refl)) (step-less m s)

run-less : (ms : List QrMove) (s : QrLogin) → to_do (qr_run ms s) ≤ to_do s
run-less [] s = omega arith
run-less (m ∷ ms) s = ground (arith, run-less ms (qr_try m s), try-less m s)

run-append : (ms ns : List QrMove) (s : QrLogin) → qr_run (ms ++ ns) s ≡ qr_run ns (qr_run ms s)
run-append [] ns s = refl
run-append (m ∷ ms) ns s = run-append ms ns (qr_try m s)

-- With a frame in the channel, a caller who comes to receive brings the end nearer.
take-less :
    (fs : List LoginEvent) (s : QrLogin)
    → s.buffer ≡ fs
    → 0 < length fs
    → to_do (qr_try receive s) < to_do s
unfolding qr_step receive_from
take-less [] s at some_left = absurd (omega arith)
take-less (f ∷ fs) s at some_left = ground arith

drain-less :
    (between : List QrMove) (s : QrLogin)
    → 0 < length s.buffer
    → to_do (qr_run (between ++ receive ∷ []) s) < to_do s
drain-less [] s some_left = take-less s.buffer s refl some_left
drain-less (m ∷ ms) s some_left =
    ground
      (arith, try-less m s, run-less (ms ++ receive ∷ []) (qr_try m s), drain-less ms (qr_try m s))

-- The goroutine's own move brings the end nearer, or it waits, at its end or for room in the channel.
advance-less :
    (s : QrLogin)
    → (to_do (qr_try advance s) < to_do s)
      ⊎ ((qr_try advance s ≡ s) × ((s.phase ≡ ended) ⊎ (4 ≤ length s.buffer)))
unfolding qr_step
advance-less s = moved (next_at s.phase s.source s) refl
  where
    moved :
        (o : Option QrLogin)
        → next_at s.phase s.source s ≡ o
        → (to_do (elim o [ none ↦ s | some t ↦ t ]) < to_do s)
          ⊎ ((elim o [ none ↦ s | some t ↦ t ] ≡ s) × ((s.phase ≡ ended) ⊎ (4 ≤ length s.buffer)))
    moved none e = inr (refl, next_at-waits s.phase s.source s refl refl e)
    moved (some t) e = inl (next_at-less s.phase s.source s t refl refl e)

-- One turn of the goroutine and one of its caller, with any other moves between them.
turn-less :
    (between : List QrMove) (s : QrLogin)
    → (to_do (qr_run (advance ∷ between ++ receive ∷ []) s) < to_do s) ⊎ (to_do s ≡ 0)
turn-less between s = turned (advance-less s)
  where
    drained : (fs : List LoginEvent) → s.buffer ≡ fs → (0 < length s.buffer) ⊎ (s.buffer ≡ [])
    drained [] e = inr e
    drained (f ∷ fs) e = inl (ground arith)

    turned :
        (to_do (qr_try advance s) < to_do s)
          ⊎ ((qr_try advance s ≡ s) × ((s.phase ≡ ended) ⊎ (4 ≤ length s.buffer)))
        → (to_do (qr_run (between ++ receive ∷ []) (qr_try advance s)) < to_do s) ⊎ (to_do s ≡ 0)
    turned (inl less) =
        inl (omega (arith, less, run-less (between ++ receive ∷ []) (qr_try advance s)))
    turned (inr (same, waits)) = elim (drained s.buffer refl) [
      | inl some_left ↦ inl (rw same (drain-less between s some_left))
      | inr empty ↦ inr (ground (arith, waits, empty))
    ]

-- A fair schedule: in each round the goroutine has a turn and the caller comes to receive, with any
-- moves before and between.
abbrev pub fair : List (List QrMove × List QrMove) → List QrMove
fair [] = []
fair ((before, between) ∷ rounds) = before ++ ((advance ∷ between ++ receive ∷ []) ++ fair rounds)

fair-less :
    (rounds : List (List QrMove × List QrMove)) (s : QrLogin)
    → to_do s ≤ length rounds
    → to_do (qr_run (fair rounds) s) ≡ 0
fair-less [] s enough = omega arith
fair-less ((before, between) ∷ rounds) s enough =
    let round = advance ∷ between ++ receive ∷ [] in
    let t = qr_run before s in
    let split = run-append before (round ++ fair rounds) s ∙ run-append round (fair rounds) t in
    ap to_do split
    ∙ fair-less rounds (qr_run round t)
        (ground (arith, run-less before s, turn-less between t, run-less round t))

nothing_to_do : (s : QrLogin) → to_do s ≡ 0 → (s.phase ≡ ended) × (s.buffer ≡ [])
nothing_to_do s h = at s.phase s.buffer refl refl h
  where
    at :
        (p : QrPhase) (fs : List LoginEvent)
        → s.phase ≡ p
        → s.buffer ≡ fs
        → weight p s.source + length fs ≡ 0
        → (s.phase ≡ ended) × (s.buffer ≡ [])
    at ended [] ep eb h = (ep, eb)
    at ended (f ∷ fs) ep eb h = absurd (omega arith)
    at ranging fs ep eb h = absurd (omega arith)
    at (offering _) fs ep eb h = absurd (omega arith)
    at (ending _) fs ep eb h = absurd (omega arith)
    at releasing fs ep eb h = absurd (omega arith)
    at closing fs ep eb h = absurd (omega arith)

-- A login whose caller goes on receiving ends: under every schedule with at least four rounds for
-- each item that whatsmeow's channel yields and three more, the goroutine has ended, has given the
-- login slot back and has closed the channel, and the caller has received all that was sent.
pub fair-ended :
    (items : List QrItem) (rounds : List (List QrMove × List QrMove))
    → 4 * length items + 3 ≤ length rounds
    → ((qr_run (fair rounds) (qr_start items)).phase ≡ ended)
      × ((qr_run (fair rounds) (qr_start items)).in_progress ≡ false)
      × ((qr_run (fair rounds) (qr_start items)).is_closed ≡ true)
      × ((qr_run (fair rounds) (qr_start items)).buffer ≡ [])
fair-ended items rounds enough =
    let s = qr_run (fair rounds) (qr_start items) in
    let over = nothing_to_do s (fair-less rounds (qr_start items) (ground arith)) in
    let shape = qr_run-IsWellFormed items (fair rounds) in
    (
      over.0,
      ground (arith, over.0, shape.slot_held),
      ground (arith, over.0, shape.closed_last),
      over.1,
    )

abbrev is_receive : QrMove → Bool
is_receive receive = true
is_receive _ = false

-- The goroutine at the send of its last frame, with a full channel.
abbrev IsStuck : String → QrLogin → Type 0
IsStuck outcome s = (s.phase ≡ ending outcome) × (length s.buffer ≡ 4) × (s.in_progress ≡ true)

step-IsStuck :
    (outcome : String) (m : QrMove) (s t : QrLogin)
    → is_receive m ≡ false
    → IsStuck outcome s
    → qr_step m s ≡ some t
    → IsStuck outcome t
unfolding qr_step next_at abandon_at
step-IsStuck outcome advance s t r h e = ground arith
step-IsStuck outcome abandon s t r h e = ground arith
step-IsStuck outcome receive s t r h e = absurd (cc)
step-IsStuck outcome cancel s t r h e = ground arith
step-IsStuck outcome shut s t r h e = ground arith

abbrev keeps-IsStuck :
    (outcome : String) (ms : List QrMove)
    → All (λ m. is_receive m ≡ false) ms
    → All (λ m. (s t : QrLogin) → IsStuck outcome s → qr_step m s ≡ some t → IsStuck outcome t) ms
keeps-IsStuck outcome [] _ = tt
keeps-IsStuck outcome (m ∷ ms) (r, rs) =
    (λ s t h e. step-IsStuck outcome m s t r h e, keeps-IsStuck outcome ms rs)

-- A caller who leaves four frames in the channel and receives no more keeps the login slot taken:
-- when the goroutine has come to its last frame by then, `loginInProgress` stays set after every
-- further run, its cancelled context notwithstanding.
pub abandoned-in_progress :
    (outcome : String) (s : QrLogin) (ms : List QrMove)
    → s.phase ≡ ending outcome
    → length s.buffer ≡ 4
    → s.in_progress ≡ true
    → All (λ m. is_receive m ≡ false) ms
    → (qr_run ms s).in_progress ≡ true
abandoned-in_progress outcome s ms at full held gone =
    (qr_run-keeps (IsStuck outcome) ms s (keeps-IsStuck outcome ms gone) (at, full, held)).2
