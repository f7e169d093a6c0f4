-- ===== src/Http/Events.antt =====
-- internal/transport/http/events.go: the event stream of GET /v1/events.
pub mod Ascending
pub mod Replay
pub mod Late
use whatsmeow_api.Prelude.{
  ℕ, zero, suc, ◌+◌, ◌*◌, ◌-◌, ◌^◌, String, Bool, true, false, ◌&&◌, ◌||◌, Option, none, some, List,
  [], ◌∷◌, ◌++◌, map, length, ltb, leb, eqb, ◌==◌, if◌then◌else◌, ℤ, pos, negsuc,
}
use whatsmeow_api.Text.{codes}
use whatsmeow_api.Json.{Json}
use whatsmeow_api.Json
use whatsmeow_api.Errors.{Result, ok, err}
use whatsmeow_api.Store.{EventLogEntry}
use whatsmeow_api.Broadcaster.{Event}
use whatsmeow_api.Waclient.{Status}
use whatsmeow_api.Service.Payloads.{build_connection_state_payload}

-- `strconv.ParseInt(v, 10, 64)`: an optional sign and decimal digits, within 64 bits.
abbrev is_digit : ℕ → Bool
is_digit c = leb b'0' c && leb c b'9'

digits : ℕ → List ℕ → Option ℕ
digits value [] = some value
digits value (c ∷ cs) =
    let rest = digits (value * 10 + (c - b'0')) cs in if is_digit c then rest else none

abbrev number : List ℕ → Option ℕ
number [] = none
number (c ∷ cs) = digits 0 (c ∷ cs)

abbrev positive : Option ℕ → Option ℤ
positive none = none
positive (some n) = if ltb n (2 ^ 63) then some (pos n) else none

abbrev negative : Option ℕ → Option ℤ
negative none = none
negative (some zero) = some (pos 0)
negative (some (suc n)) = if ltb n (2 ^ 63) then some (negsuc n) else none

unfoldable pub parse_int : List ℕ → Option ℤ
unfolding digits
parse_int [] = none
parse_int (c ∷ cs) =
    if eqb c b'+'
    then positive (number cs)
    else if eqb c b'-'
    then negative (number cs)
    else positive (number (c ∷ cs))

abbrev cursor : Option ℤ → Option ℕ
cursor (some (pos n)) = some n
cursor (some (negsuc n)) = none
cursor none = none

-- The resume point, or what is wrong with the parameter.
pub data Resume : Type 0 where
  resume_at : ℕ → Resume
  bad_parameter : String → Resume

abbrev resume : String → Option ℕ → Resume
resume detail (some n) = resume_at n
resume detail none = bad_parameter detail

abbrev not_empty : String → Bool
not_empty s = if s == "" then false else true

unfoldable pub resolve_last_seq : String → String → Resume
unfolding parse_int
resolve_last_seq last_event_id since =
    if not_empty last_event_id
    then resume "Last-Event-ID must be a non-negative integer"
        (cursor (parse_int (codes last_event_id)))
    else if not_empty since
    then resume "since must be a non-negative integer" (cursor (parse_int (codes since)))
    else resume_at 0

-- What is written: a comment line, or a frame with its id, if it has one, its event and its data.
pub data Output : Type 0 where
  comment : String → Output
  frame : Option ℕ → String → Json → Output

abbrev pub logged_frame : EventLogEntry → Output
logged_frame row = frame (some row.seq) row.type row.payload

abbrev pub live_frame : Event → Output
live_frame ev = frame (some ev.seq) ev.kind ev.payload

abbrev pub replay_batch : ℕ
replay_batch = 256

-- How the replay ended. `unfinished` is a replay whose reads, of which the model allows a number,
-- are used up.
pub data ReplayEnd : Type 0 where
  caught_up : ReplayEnd
  read_failed : ReplayEnd
  unfinished : ReplayEnd

pub record Replayed : Type 0 where
  pub out : List Output
  pub last : ℕ
  pub end : ReplayEnd

-- `lastReplayedSeq` after a batch.
abbrev pub last_of : ℕ → List EventLogEntry → ℕ
last_of last [] = last
last_of last (row ∷ rows) = last_of row.seq rows

-- One round of the loop, from the number before it, what it read, and the rounds after it.
unfoldable pub replay_round : ℕ → Result (List EventLogEntry) → (ℕ → Replayed) → Replayed
replay_round last (err e) rest = record { out = []; last = last; end = read_failed }
replay_round last (ok rows) rest =
    let reached = last_of last rows in
    if eqb (length rows) 0
    then record { out = []; last = last; end = caught_up }
    else if ltb (length rows) replay_batch
    then record { out = map logged_frame rows; last = reached; end = caught_up }
    else record {
      out = map logged_frame rows ++ (rest reached).out;
      last = (rest reached).last;
      end = (rest reached).end;
    }

-- `since i` is `log.SinceSeq` at the moment of the i-th read: events are appended meanwhile.
unfoldable pub replay : (ℕ → ℕ → ℤ → Result (List EventLogEntry)) → ℕ → ℕ → ℕ → Replayed
unfolding replay_round
replay since zero i last = record { out = []; last = last; end = unfinished }
replay since (suc reads) i last =
    replay_round last (since i last (pos replay_batch)) (replay since reads (i + 1))

-- What the live tail's `select` is woken by.
pub data Wake : Type 0 where
  request_done : Wake
  heartbeat : Wake
  channel_closed : Wake
  channel_event : Event → Wake

abbrev lagged : Json
lagged = Json.object (
    Json.field "v" (Json.num 1) (
      Json.field "code" (Json.text "events.lagged") (
        Json.field "detail" (Json.text "subscriber buffer overflowed; reconnect with Last-Event-ID")
          Json.end)))

unfoldable pub live_tail : ℕ → List Wake → List Output
live_tail last [] = []
live_tail last (request_done ∷ _) = []
live_tail last (heartbeat ∷ ws) = comment "ping" ∷ live_tail last ws
live_tail last (channel_closed ∷ _) = frame none "error" lagged ∷ []
live_tail last (channel_event ev ∷ ws) =
    let skipped = live_tail last ws in
    let shown = live_tail ev.seq ws in if leb ev.seq last then skipped else live_frame ev ∷ shown

-- What follows the synthetic frame: the replay, and the live tail if the replay caught up.
abbrev pub after_replay : ReplayEnd → List Output → List Output → List Output
after_replay caught_up replayed live = replayed ++ live
after_replay read_failed replayed live = replayed
after_replay unfinished replayed live = replayed

unfoldable pub events_from :
    (ℕ → ℕ → ℤ → Result (List EventLogEntry)) → ℕ → ℕ → List Wake → List Output
unfolding replay live_tail
events_from since reads last ws =
    let r = replay since reads 0 last in after_replay r.end r.out (live_tail r.last ws)

-- A problem has its status, its code and its detail.
pub data StreamResponse : Type 0 where
  problem : ℕ → String → String → StreamResponse
  stream : List Output → StreamResponse

abbrev respond :
    Status → (ℕ → ℕ → ℤ → Result (List EventLogEntry)) → ℕ → List Wake → Resume → StreamResponse
respond status since reads ws (bad_parameter detail) = problem 400 "request.invalid" detail
respond status since reads ws (resume_at last) = stream (
    comment "ready"
    ∷ frame (some 0) "connection.state" (build_connection_state_payload status "")
    ∷ events_from since reads last ws)

-- For a writer that can flush, as net/http's are.
unfoldable pub events_handler :
    String
    → String
    → Status
    → (ℕ → ℕ → ℤ → Result (List EventLogEntry))
    → ℕ
    → List Wake
    → StreamResponse
unfolding resolve_last_seq events_from
events_handler last_event_id query status since reads ws =
    respond status since reads ws (resolve_last_seq last_event_id query)
