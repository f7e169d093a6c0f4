-- ===== src/Broadcaster/Delivery/Step.antt =====
-- One step of the broadcaster of internal/transport/sse/broadcaster.go, as one subscriber sees it.
use whatsmeow_api.Prelude.{
  ℕ, ◌+◌, ◌^◌, ◌≤◌, ◌<◌, ◌≡◌, ◌≢◌, refl, true, false, Option, none, some, List, [], ◌∷◌, ◌++◌,
  arith, length, eqb_iff, eqb, if◌then◌else◌,
}
use native.Mathlib.Nat.{mod-eq_of_lt}
use whatsmeow_api.Table.Laws.{find-put, find-modify, find-map}
use whatsmeow_api.Broadcaster.{
  Event, Channel, Broadcaster, channel_key, channel_of, close, offer, drop_first, next_id, step, Op,
  subscribe_op, unsubscribe_op, publish_op, receive_op,
}

-- The events that are published, and those that the receiver of `k` takes, in order.
abbrev pub published : List Op → List Event
published [] = []
published (publish_op ev ∷ os) = ev ∷ published os
published (_ ∷ os) = published os

abbrev pub first : Option Channel → List Event
first none = []
first (some c) = elim c.buffer [ [] ↦ [] | ev ∷ rest ↦ ev ∷ [] ]

abbrev pub taken : ℕ → Op → Broadcaster → List Event
taken k (receive_op j) b = if eqb j k then first (channel_of k b) else []
taken k _ b = []

abbrev pub delivered : ℕ → List Op → Broadcaster → List Event
delivered k [] b = []
delivered k (o ∷ os) b = taken k o b ++ delivered k os (step o b)

-- One step, as the channel `c` of a subscriber sees it.
abbrev pub effect : ℕ → ℕ → Op → Channel → Channel
effect k size subscribe_op c = c
effect k size (unsubscribe_op j) c = if eqb j k then close c else c
effect k size (publish_op ev) c = offer size ev c
effect k size (receive_op j) c = if eqb j k then drop_first c else c

drop_first-id : (c : Channel) → (drop_first c).id ≡ c.id
drop_first-id c = ground arith

offer-id : (size : ℕ) (ev : Event) (c : Channel) → (offer size ev c).id ≡ c.id
offer-id size ev c = ground arith

pub channel_of-step :
    (k : ℕ) (o : Op) (b : Broadcaster) {c : Channel}
    → next_id b ≢ k
    → channel_of k b ≡ some c
    → channel_of k (step o b) ≡ some (effect k b.buf_size o c)
unfolding step
channel_of-step k subscribe_op b fresh e = ground (
  arith,
  find-put channel_key eqb eqb_iff k (record { id = next_id b; buffer = []; is_open = true })
      b.channels,
  eqb_iff (next_id b) k,
)
channel_of-step k (unsubscribe_op j) b fresh e =
    ground (arith, find-modify channel_key eqb eqb_iff close (λ c. refl) k j b.channels)
channel_of-step k (publish_op ev) b fresh e = ground (
  arith,
  find-map channel_key eqb eqb_iff (offer b.buf_size ev) (offer-id b.buf_size ev) k b.channels,
)
channel_of-step k (receive_op j) b fresh e =
    ground (arith, find-modify channel_key eqb eqb_iff drop_first drop_first-id k j b.channels)

pub buf_size-step : (o : Op) (b : Broadcaster) → (step o b).buf_size ≡ b.buf_size
unfolding step
buf_size-step subscribe_op b = refl
buf_size-step _ b = refl

-- The counter grows by one at most, while it does not wrap.
pub next-step :
    (o : Op) (b : Broadcaster)
    → b.next + 1 < 2 ^ 64
    → (b.next ≤ (step o b).next) × ((step o b).next ≤ b.next + 1)
unfolding step
next-step subscribe_op b h = omega (arith, mod-eq_of_lt h)
next-step _ b h = omega arith

-- An id that was handed out is not handed out again before the counter wraps.
pub fresh_id : (k : ℕ) (b : Broadcaster) → k ≤ b.next → b.next + 1 < 2 ^ 64 → next_id b ≢ k
fresh_id k b h small e = omega (arith, mod-eq_of_lt small)

-- What a step that publishes nothing takes from a channel is what leaves its buffer.
pub buffer-effect :
    (k : ℕ) (o : Op) (b : Broadcaster) (c : Channel)
    → channel_of k b ≡ some c
    → published (o ∷ []) ≡ []
    → c.buffer ≡ taken k o b ++ (effect k b.buf_size o c).buffer
buffer-effect k subscribe_op b c e _ = refl
buffer-effect k (unsubscribe_op j) b c e _ = ground arith
buffer-effect k (publish_op ev) b c e h = absurd (cc)
buffer-effect k (receive_op j) b c e _ = rw e (ground arith)

pub closed-effect :
    (k : ℕ) (o : Op) (b : Broadcaster) (c : Channel)
    → channel_of k b ≡ some c
    → c.is_open ≡ false
    → (c.buffer ≡ taken k o b ++ (effect k b.buf_size o c).buffer)
      × ((effect k b.buf_size o c).is_open ≡ false)
closed-effect k subscribe_op b c e h = (refl, h)
closed-effect k (unsubscribe_op j) b c e h = (ground arith, ground arith)
closed-effect k (publish_op ev) b c e h = (ground arith, ground arith)
closed-effect k (receive_op j) b c e h = (rw e (ground arith), ground arith)

-- The state of a subscriber `k` with the channel `c` while the counter is far from its end.
pub record Holds (k : ℕ) (os : List Op) (b : Broadcaster) (c : Channel) : Type 0 where
  pub old : k ≤ b.next
  pub room : b.next + length os < 2 ^ 64
  pub here : channel_of k b ≡ some c

pub Holds-step :
    (k : ℕ) (o : Op) (os : List Op) (b : Broadcaster) (c : Channel)
    → Holds k (o ∷ os) b c
    → Holds k os (step o b) (effect k b.buf_size o c)
Holds-step k o os b c h =
    let small : b.next + 1 < 2 ^ 64 = omega (arith, h.room) in
    let (up, slow) = next-step o b small in
    record {
      old = omega (arith, h.old, up);
      room = omega (arith, h.room, slow);
      here = channel_of-step k o b (fresh_id k b h.old small) h.here;
    }
