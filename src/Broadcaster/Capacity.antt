-- ===== src/Broadcaster/Capacity.antt =====
-- No subscriber's buffer outgrows its channel, and no id is shared.
use whatsmeow_api.Prelude.{
  ℕ, ◌≤◌, ◌≡◌, refl, List, [], ◌∷◌, arith, length, length-append, All, eqb_iff, eqb, map,
}
use whatsmeow_api.Table.Laws.{
  IsUnique, put-IsUnique, modify-IsUnique, All-put, All-modify, map-IsUnique,
}
use whatsmeow_api.Broadcaster.{
  Event, Channel, Broadcaster, channel_key, close, offer, drop_first, new_broadcaster, step, run,
  Op, subscribe_op, unsubscribe_op, publish_op, receive_op,
}

abbrev Fits : ℕ → Channel → Type 0
Fits size c = length c.buffer ≤ size

pub record IsBounded (b : Broadcaster) : Type 0 where
  pub some_room : 1 ≤ b.buf_size
  pub fits : All (Fits b.buf_size) b.channels
  pub unique : IsUnique channel_key eqb eqb_iff b.channels

offer-Fits : (size : ℕ) (ev : Event) (c : Channel) → Fits size c → Fits size (offer size ev c)
offer-Fits size ev c h = ground (arith, length-append c.buffer (ev ∷ []))

drop_first-Fits : (size : ℕ) (c : Channel) → Fits size c → Fits size (drop_first c)
drop_first-Fits size c h = ground arith

drop_first-id : (c : Channel) → (drop_first c).id ≡ c.id
drop_first-id c = ground arith

offer-id : (size : ℕ) (ev : Event) (c : Channel) → (offer size ev c).id ≡ c.id
offer-id size ev c = ground arith

offers-Fits :
    (size : ℕ) (ev : Event) (cs : List Channel)
    → All (Fits size) cs
    → All (Fits size) (map (offer size ev) cs)
offers-Fits size ev [] _ = tt
offers-Fits size ev (c ∷ cs) (p, ps) = (offer-Fits size ev c p, offers-Fits size ev cs ps)

step-IsBounded : (o : Op) (b : Broadcaster) → IsBounded b → IsBounded (step o b)
unfolding step
step-IsBounded subscribe_op b i = record {
  some_room = i.some_room;
  fits = All-put channel_key eqb (Fits b.buf_size) _ b.channels (omega arith) i.fits;
  unique = put-IsUnique channel_key eqb eqb_iff _ b.channels i.unique;
}
step-IsBounded (unsubscribe_op id) b i = record {
  some_room = i.some_room;
  fits = All-modify channel_key eqb (Fits b.buf_size) id close b.channels (λ c h. h) i.fits;
  unique = modify-IsUnique channel_key eqb eqb_iff close (λ c. refl) id b.channels i.unique;
}
step-IsBounded (publish_op ev) b i = record {
  some_room = i.some_room;
  fits = offers-Fits b.buf_size ev b.channels i.fits;
  unique =
      map-IsUnique channel_key eqb eqb_iff (offer b.buf_size ev) (offer-id b.buf_size ev) b.channels
        i.unique;
}
step-IsBounded (receive_op id) b i = record {
  some_room = i.some_room;
  fits =
      All-modify channel_key eqb (Fits b.buf_size) id drop_first b.channels
        (drop_first-Fits b.buf_size) i.fits;
  unique = modify-IsUnique channel_key eqb eqb_iff drop_first drop_first-id id b.channels i.unique;
}

run_keeps : (os : List Op) (b : Broadcaster) → IsBounded b → IsBounded (run os b)
unfolding run
run_keeps [] b i = i
run_keeps (o ∷ os) b i = run_keeps os (step o b) (step-IsBounded o b i)

-- A new broadcaster, whatever buffer size it is asked for, stays within bounds through any
-- operations: there is room for one event at least, no buffer holds more than the buffer size, and
-- no two channels share an id.
pub run-IsBounded : (size : ℕ) (os : List Op) → IsBounded (run os (new_broadcaster size))
unfolding new_broadcaster
run-IsBounded size os =
    run_keeps os (new_broadcaster size)
      (record { some_room = ground arith; fits = tt; unique = tt })
