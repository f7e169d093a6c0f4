-- ===== src/Client/Sse.antt =====
-- The event frames of the login streams, as bytes: `SSEWriteEvent` of internal/transport/http/sse.go,
-- which writes them, and `readSSE` of internal/client/client.go, which reads them.
pub mod RoundTrip
use whatsmeow_api.Prelude.{
  ℕ, Bool, true, false, ◌&&◌, Option, none, some, List, [], ◌∷◌, ◌++◌, length, ltb, eqb,
  if◌then◌else◌,
}
use whatsmeow_api.Text.{codes}

pub record SseFrame : Type 0 where
  pub event : List ℕ
  pub payload : List ℕ

abbrev pub empty_frame : SseFrame
empty_frame = record { event = []; payload = [] }

abbrev pub newline : ℕ
newline = 10

abbrev pub event_label : List ℕ
event_label = codes "event: "

abbrev pub data_label : List ℕ
data_label = codes "data: "

-- "event: %s\ndata: %s\n\n", with the payload that is marshaled already.
unfoldable pub sse_write_event : SseFrame → List ℕ
sse_write_event f =
    (event_label ++ f.event) ++ (newline ∷ ((data_label ++ f.payload) ++ (newline ∷ newline ∷ [])))

-- `bufio.ScanLines`: a last line needs no newline, and a line loses a carriage return at its end.
abbrev pub prepend : ℕ → List (List ℕ) → List (List ℕ)
prepend c [] = (c ∷ []) ∷ []
prepend c (l ∷ ls) = (c ∷ l) ∷ ls

unfoldable pub split_lines : List ℕ → List (List ℕ)
split_lines [] = []
split_lines (c ∷ cs) =
    let rest = split_lines cs in if eqb c newline then [] ∷ rest else prepend c rest

unfoldable pub drop_cr : List ℕ → List ℕ
drop_cr [] = []
drop_cr (c ∷ []) = if eqb c 13 then [] else c ∷ []
drop_cr (c ∷ d ∷ cs) = c ∷ drop_cr (d ∷ cs)

-- The scanner's buffer has to hold a line and its end.
abbrev pub max_line : ℕ
max_line = 1048576

-- The lines up to the first that is too long, where the scanner stops.
unfoldable pub scan : List (List ℕ) → List (List ℕ)
unfolding drop_cr
scan [] = []
scan (l ∷ ls) = let rest = scan ls in if ltb (length l) max_line then drop_cr l ∷ rest else []

unfoldable pub strip_prefix : List ℕ → List ℕ → Option (List ℕ)
strip_prefix [] l = some l
strip_prefix (p ∷ ps) [] = none
strip_prefix (p ∷ ps) (c ∷ l) = let rest = strip_prefix ps l in if eqb c p then rest else none

abbrev pub is_empty : List ℕ → Bool
is_empty [] = true
is_empty (_ ∷ _) = false

-- What a line is to the reader.
pub data Line : Type 0 where
  event_line : List ℕ → Line
  data_line : List ℕ → Line
  end_line : Line
  other_line : Line

abbrev pub or_data : Option (List ℕ) → Bool → Line
or_data (some d) _ = data_line d
or_data none true = end_line
or_data none false = other_line

abbrev pub or_event : Option (List ℕ) → Line → Line
or_event (some e) _ = event_line e
or_event none other = other

unfoldable pub classify : List ℕ → Line
unfolding strip_prefix
classify l =
    or_event (strip_prefix event_label l) (or_data (strip_prefix data_label l) (is_empty l))

-- `cur` is the frame that is being read.
unfoldable pub read_frames : SseFrame → List Line → List SseFrame
read_frames cur [] = []
read_frames cur (event_line e ∷ ls) = read_frames (record cur { event = e }) ls
read_frames cur (data_line d ∷ ls) = read_frames (record cur { payload = d }) ls
read_frames cur (other_line ∷ ls) = read_frames cur ls
read_frames cur (end_line ∷ ls) =
    let fresh = read_frames empty_frame ls in
    let same = read_frames cur ls in
    if is_empty cur.event && is_empty cur.payload then same else cur ∷ fresh

abbrev pub classify_all : List (List ℕ) → List Line
classify_all [] = []
classify_all (l ∷ ls) = classify l ∷ classify_all ls

unfoldable pub read_sse : List ℕ → List SseFrame
unfolding classify read_frames scan split_lines
read_sse bytes = read_frames empty_frame (classify_all (scan (split_lines bytes)))
