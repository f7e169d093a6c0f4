-- ===== src/Broadcaster.antt =====
-- internal/transport/sse/broadcaster.go: fan-out of events to buffered subscriber channels.
pub mod Capacity
pub mod Delivery
use whatsmeow_api.Prelude.{
  ℕ, ◌+◌, ◌%◌, ◌^◌, String, Bool, true, false, Option, none, some, List, [], ◌∷◌, ◌++◌, map, length,
  ltb, eqb, if◌then◌else◌,
}
use whatsmeow_api.Json.{Json}
use whatsmeow_api.Table

pub record Event : Type 0 where
  pub seq : ℕ
  pub kind : String
  pub payload : Json

-- A subscriber's channel. It is open exactly while it is in the map `subs`: the code closes a channel
-- wherever it deletes it. A receiver may drain a closed channel.
pub record Channel : Type 0 where
  pub id : ℕ
  pub buffer : List Event
  pub is_open : Bool

pub record Broadcaster : Type 0 where
  pub channels : List Channel
  pub next : ℕ
  pub buf_size : ℕ

abbrev pub channel_key : Channel → ℕ
channel_key c = c.id

-- The channel that was last handed out under an id.
abbrev pub channel_of : ℕ → Broadcaster → Option Channel
channel_of id b = Table.find channel_key eqb id b.channels

unfoldable pub new_broadcaster : ℕ → Broadcaster
new_broadcaster buf_size = record {
  channels = [];
  next = 0;
  buf_size = if ltb buf_size 1 then 1 else buf_size;
}

-- The counter is a uint64.
abbrev pub next_id : Broadcaster → ℕ
next_id b = (b.next + 1) % 2 ^ 64

unfoldable pub subscribe : Broadcaster → ℕ × Broadcaster
subscribe b =
    let id = next_id b in
    (
      id,
      record b {
        channels =
            Table.put channel_key eqb (record { id = id; buffer = []; is_open = true }) b.channels;
        next = id;
      },
    )

abbrev pub close : Channel → Channel
close c = record c { is_open = false }

unfoldable pub unsubscribe : ℕ → Broadcaster → Broadcaster
unsubscribe id b = record b { channels = Table.modify channel_key eqb id close b.channels }

-- `select { case ch <- ev: default: delete; close }`, for one channel.
abbrev pub offer : ℕ → Event → Channel → Channel
offer size ev c =
    if c.is_open
    then (if ltb (length c.buffer) size
        then record c { buffer = c.buffer ++ (ev ∷ []) }
        else close c)
    else c

-- The channels are independent, so the order in which the map is walked does not matter.
unfoldable pub publish : Event → Broadcaster → Broadcaster
publish ev b = record b { channels = map (offer b.buf_size ev) b.channels }

abbrev pub drop_first : Channel → Channel
drop_first c = elim c.buffer [ [] ↦ c | ev ∷ rest ↦ record c { buffer = rest } ]

-- `ev, ok := <-ch` at the receiver.
pub data Received : Type 0 where
  event : Event → Received
  closed : Received
  would_block : Received

abbrev pub received : Option Channel → Received
received none = would_block
received (some c) = elim c.buffer [
  | [] ↦ if c.is_open then would_block else closed
  | ev ∷ rest ↦ event ev
]

unfoldable pub receive : ℕ → Broadcaster → Received × Broadcaster
receive id b = (
  received (channel_of id b),
  record b { channels = Table.modify channel_key eqb id drop_first b.channels },
)

-- What the daemon's goroutines do to one broadcaster. The mutex makes each of them one step.
pub data Op : Type 0 where
  subscribe_op : Op
  unsubscribe_op : ℕ → Op
  publish_op : Event → Op
  receive_op : ℕ → Op

unfoldable pub step : Op → Broadcaster → Broadcaster
unfolding subscribe unsubscribe publish receive
step subscribe_op b = (subscribe b).1
step (unsubscribe_op id) b = unsubscribe id b
step (publish_op ev) b = publish ev b
step (receive_op id) b = (receive id b).1

unfoldable pub run : List Op → Broadcaster → Broadcaster
unfolding step
run [] b = b
run (o ∷ os) b = run os (step o b)
