-- ===== src/Broadcaster/Delivery.antt =====
-- What a subscriber receives: the events published since it subscribed, in order and without a gap,
-- until the channel is closed.
pub mod Step
use whatsmeow_api.Prelude.{
  ℕ, ◌+◌, ◌^◌, ◌≤◌, ◌<◌, ◌≡◌, ◌≢◌, refl, ◌∙◌, sym, true, false, Option, none, some, List, [], ◌∷◌,
  ◌++◌, arith, length, eqb_iff, eqb, if◌then◌else◌, Bool-cases, inl, inr, ltb,
}
use mathlib.Core.Bool.{false≢true}
use mathlib.Core.List.{append_assoc}
use native.Mathlib.Nat.{mod-eq_of_lt}
use whatsmeow_api.Table.Laws.{find-put, find-modify, find-map}
use whatsmeow_api.Broadcaster.{
  Event, Channel, Broadcaster, channel_key, channel_of, close, offer, drop_first, next_id, step,
  run, Op, subscribe_op, unsubscribe_op, publish_op, receive_op,
}
use whatsmeow_api.Broadcaster.Delivery.Step.{
  published, taken, delivered, effect, buffer-effect, closed-effect, Holds, Holds-step,
}

closed_run :
    (k : ℕ) (os : List Op) (b : Broadcaster) (c : Channel)
    → Holds k os b c
    → c.is_open ≡ false
    → (c' : Channel) × (channel_of k (run os b) ≡ some c')
      × (c.buffer ≡ delivered k os b ++ c'.buffer)
      × (c'.is_open ≡ false)
unfolding run
closed_run k [] b c h z = (c, h.here, refl, z)
closed_run k (o ∷ os) b c h z =
    let (split, still) = closed-effect k o b c h.here z in
    let (c', found, eq, shut) = closed_run k os (step o b) _ (Holds-step k o os b c h) still in
    (c', found, simp (split, eq, append_assoc), shut)

-- The channel after the steps, and the events that it missed.
abbrev pub InOrder : ℕ → List Op → Broadcaster → Channel → Type 0
InOrder k os b c =
    (c' : Channel) × (missed : List Event) × (channel_of k (run os b) ≡ some c')
    × (c.buffer ++ published os ≡ delivered k os b ++ (c'.buffer ++ missed))
    × (c'.is_open ≡ true → missed ≡ [])

-- A step that publishes nothing.
quiet_step :
    (k : ℕ) (o : Op) (os : List Op) (b : Broadcaster) (c : Channel)
    → channel_of k b ≡ some c
    → published (o ∷ []) ≡ []
    → published (o ∷ os) ≡ published os
    → InOrder k os (step o b) (effect k b.buf_size o c)
    → InOrder k (o ∷ os) b c
unfolding run
quiet_step k o os b c e none_out same (c', missed, found, eq, whole) =
    (c', missed, found, simp (same, buffer-effect k o b c e none_out, append_assoc, eq), whole)

offer_fits :
    (size : ℕ) (ev : Event) (c : Channel)
    → c.is_open ≡ true
    → ltb (length c.buffer) size ≡ true
    → ((offer size ev c).buffer ≡ c.buffer ++ (ev ∷ [])) × ((offer size ev c).is_open ≡ true)
offer_fits size ev c up fits = (ground arith, ground arith)

offer_full :
    (size : ℕ) (ev : Event) (c : Channel)
    → c.is_open ≡ true
    → ltb (length c.buffer) size ≡ false
    → ((offer size ev c).buffer ≡ c.buffer) × ((offer size ev c).is_open ≡ false)
offer_full size ev c up full = (ground arith, ground arith)

regroup :
    {xs : List Event} (ys zs more : List Event) → xs ≡ ys ++ zs → xs ++ more ≡ ys ++ (zs ++ more)
regroup ys zs more e = rw e (append_assoc ys zs more)

publish_step :
    (k : ℕ) (ev : Event) (os : List Op) (b : Broadcaster) (c : Channel)
    → Holds k (publish_op ev ∷ os) b c
    → ((offer b.buf_size ev c).is_open ≡ true
        → InOrder k os (step (publish_op ev) b) (offer b.buf_size ev c))
    → c.is_open ≡ true
    → InOrder k (publish_op ev ∷ os) b c
unfolding run
publish_step k ev os b c h rest up = elim (Bool-cases (ltb (length c.buffer) b.buf_size)) [
  | inl fits ↦
      let (same, still) = offer_fits b.buf_size ev c up fits in
      let (c', missed, found, eq, whole) = rest still in
      (c', missed, found, rw (← eq) (simp (same, append_assoc)), whole)
  | inr full ↦
      let (same, shut) = offer_full b.buf_size ev c up full in
      let (c', found, eq, closed_then) =
        closed_run k os (step (publish_op ev) b) (offer b.buf_size ev c)
          (Holds-step k (publish_op ev) os b c h) shut in
      (
        c',
        ev ∷ published os,
        found,
        regroup (delivered k os (step (publish_op ev) b)) c'.buffer (ev ∷ published os)
            (sym same ∙ eq),
        λ o. absurd (false≢true (sym closed_then ∙ o)),
      )
]

unsubscribe_step :
    (k j : ℕ) (os : List Op) (b : Broadcaster) (c : Channel)
    → Holds k (unsubscribe_op j ∷ os) b c
    → ((effect k b.buf_size (unsubscribe_op j) c).is_open ≡ true
        → InOrder k os (step (unsubscribe_op j) b) (effect k b.buf_size (unsubscribe_op j) c))
    → c.is_open ≡ true
    → InOrder k (unsubscribe_op j ∷ os) b c
unfolding run
unsubscribe_step k j os b c h rest up = elim (Bool-cases (eqb j k)) [
  | inr other ↦ quiet_step k (unsubscribe_op j) os b c h.here refl refl (rest (ground arith))
  | inl self ↦
      let shut : (effect k b.buf_size (unsubscribe_op j) c).is_open ≡ false = ground arith in
      let same : (effect k b.buf_size (unsubscribe_op j) c).buffer ≡ c.buffer = ground arith in
      let (c', found, eq, closed_then) =
        closed_run k os (step (unsubscribe_op j) b) _ (Holds-step k (unsubscribe_op j) os b c h)
          shut in
      (
        c',
        published os,
        found,
        regroup (delivered k os (step (unsubscribe_op j) b)) c'.buffer (published os)
            (sym same ∙ eq),
        λ o. absurd (false≢true (sym closed_then ∙ o)),
      )
]

in_order :
    (k : ℕ) (os : List Op) (b : Broadcaster) (c : Channel)
    → Holds k os b c
    → c.is_open ≡ true
    → InOrder k os b c
unfolding run
in_order k [] b c h up = (c, [], h.here, refl, λ _. refl)
in_order k (subscribe_op ∷ os) b c h up =
    quiet_step k subscribe_op os b c h.here refl refl
      (in_order k os _ c (Holds-step k subscribe_op os b c h) up)
in_order k (publish_op ev ∷ os) b c h up =
    publish_step k ev os b c h (in_order k os _ _ (Holds-step k (publish_op ev) os b c h)) up
in_order k (receive_op j ∷ os) b c h up =
    quiet_step k (receive_op j) os b c h.here refl refl
      (in_order k os _ _ (Holds-step k (receive_op j) os b c h) (ground arith))
in_order k (unsubscribe_op j ∷ os) b c h up =
    unsubscribe_step k j os b c h (in_order k os _ _ (Holds-step k (unsubscribe_op j) os b c h)) up

-- While the counter of ids is far from its end, a subscriber `k` with an open channel `c` gets, in
-- order and each once, what was in its buffer and then the events that are published, whatever
-- the other subscribers do: what was taken, then what still stands in the buffer, is a beginning of
-- that sequence, and it is all of it if the channel is still open.
pub run-InOrder :
    (k : ℕ) (os : List Op) (b : Broadcaster) (c : Channel)
    → k ≤ b.next
    → b.next + length os < 2 ^ 64
    → channel_of k b ≡ some c
    → c.is_open ≡ true
    → InOrder k os b c
run-InOrder k os b c old room here up =
    in_order k os b c (record { old = old; room = room; here = here }) up
