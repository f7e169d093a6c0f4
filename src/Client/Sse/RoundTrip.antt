-- ===== src/Client/Sse/RoundTrip.antt =====
-- The client reads the frames that the server writes.
use whatsmeow_api.Prelude.{
  ℕ, ◌+◌, ◌<◌, ◌≡◌, ◌≢◌, refl, ap, ◌∙◌, Bool, true, some, List, [], ◌∷◌, ◌++◌, length,
  length-append, All, All-append, lt→ltb, eqb, eqb_iff, arith, not, ◌&&◌,
}
use mathlib.Core.List.{append_assoc}
use whatsmeow_api.Client.Sse.{
  SseFrame, newline, event_label, data_label, sse_write_event, split_lines, drop_cr, scan,
  strip_prefix, classify, classify_all, read_frames, read_sse, event_line, data_line, end_line,
  Line, empty_frame,
}

-- No byte ends a line.
abbrev pub OneLine : List ℕ → Type 0
OneLine = All (λ c. (c ≢ 10) × (c ≢ 13))

-- A frame whose event has a name, and whose parts are single lines that the client has room for.
pub record IsFrame (f : SseFrame) : Type 0 where
  pub named : f.event ≢ []
  pub event_line : OneLine f.event
  pub data_line : OneLine f.payload
  pub event_room : length f.event + 7 < 1048576
  pub data_room : length f.payload + 6 < 1048576

abbrev pub write_all : List SseFrame → List ℕ
write_all [] = []
write_all (f ∷ fs) = sse_write_event f ++ write_all fs

split_lines-line :
    (l rest : List ℕ) → OneLine l → split_lines (l ++ (newline ∷ rest)) ≡ l ∷ split_lines rest
unfolding split_lines
split_lines-line [] rest _ = refl
split_lines-line (c ∷ l) rest ((no_lf, _), more) = ground (arith, split_lines-line l rest more)

drop_cr-line : (l : List ℕ) → OneLine l → drop_cr l ≡ l
unfolding drop_cr
drop_cr-line [] _ = refl
drop_cr-line (c ∷ []) ((_, no_cr), _) = ground arith
drop_cr-line (c ∷ d ∷ l) (_, more) = ap (λ xs. c ∷ xs) (drop_cr-line (d ∷ l) more)

strip_prefix-append : (p l : List ℕ) → strip_prefix p (p ++ l) ≡ some l
unfolding strip_prefix
strip_prefix-append [] l = refl
strip_prefix-append (c ∷ p) l = rw ((eqb_iff c c).1 refl) (strip_prefix-append p l)

scan-line :
    (l : List ℕ) (ls : List (List ℕ)) → OneLine l → length l < 1048576 → scan (l ∷ ls) ≡ l ∷ scan ls
unfolding scan
scan-line l ls one short = rw (lt→ltb (length l) 1048576 short, drop_cr-line l one) refl

classify-event : (l : List ℕ) → classify (event_label ++ l) ≡ event_line l
unfolding classify
classify-event l = refl

classify-data : (l : List ℕ) → classify (data_label ++ l) ≡ data_line l
unfolding classify
classify-data l = refl

-- The labels are single lines.
abbrev pub no_break : List ℕ → Bool
no_break [] = true
no_break (c ∷ l) = not (eqb c 10) && not (eqb c 13) && no_break l

pub no_break→OneLine : (l : List ℕ) → no_break l ≡ true → OneLine l
no_break→OneLine [] _ = tt
no_break→OneLine (c ∷ l) h =
    ((λ e. ground arith, λ e. ground arith), no_break→OneLine l (ground arith))

abbrev lines_of : List ℕ → List Line
lines_of bytes = classify_all (scan (split_lines bytes))

module _ (f : SseFrame) (is_frame : IsFrame f) (rest : List ℕ) where
  abbrev event_text : List ℕ
  event_text = event_label ++ f.event

  abbrev data_text : List ℕ
  data_text = data_label ++ f.payload

  event_one : OneLine event_text
  event_one =
      All-append (λ c. (c ≢ 10) × (c ≢ 13)) event_label f.event (no_break→OneLine event_label refl)
        is_frame.event_line

  data_one : OneLine data_text
  data_one =
      All-append (λ c. (c ≢ 10) × (c ≢ 13)) data_label f.payload (no_break→OneLine data_label refl)
        is_frame.data_line

  split_frame :
      split_lines (sse_write_event f ++ rest) ≡ event_text ∷ data_text ∷ [] ∷ split_lines rest
  unfolding sse_write_event split_lines
  split_frame =
      ap split_lines (
        append_assoc event_text _ rest
        ∙ ap (λ xs. event_text ++ (newline ∷ xs)) (append_assoc data_text _ rest))
      ∙ split_lines-line event_text _ event_one
      ∙ ap (λ ls. event_text ∷ ls) (split_lines-line data_text (newline ∷ rest) data_one)

  scan_frame :
      (ls : List (List ℕ))
      → scan (event_text ∷ data_text ∷ [] ∷ ls) ≡ event_text ∷ data_text ∷ [] ∷ scan ls
  scan_frame ls =
      scan-line event_text _ event_one
        (omega (arith, is_frame.event_room, length-append event_label f.event))
      ∙ ap (λ xs. event_text ∷ xs)
          (scan-line data_text _ data_one
            (omega (arith, is_frame.data_room, length-append data_label f.payload)))
      ∙ ap (λ xs. event_text ∷ data_text ∷ xs) (scan-line [] ls tt (omega arith))

  lines_of-frame :
      lines_of (sse_write_event f ++ rest)
      ≡ event_line f.event ∷ data_line f.payload ∷ end_line ∷ lines_of rest
  unfolding classify
  lines_of-frame =
      ap (λ ls. classify_all (scan ls)) split_frame
      ∙ ap classify_all (scan_frame (split_lines rest))

  read_frame :
      (ls : List Line)
      → read_frames empty_frame (event_line f.event ∷ data_line f.payload ∷ end_line ∷ ls)
        ≡ f ∷ read_frames empty_frame ls
  unfolding read_frames
  read_frame ls = named_frame f.event is_frame.named
    where
      named_frame :
          (e : List ℕ)
          → e ≢ []
          → read_frames (record { event = e; payload = f.payload }) (end_line ∷ ls)
            ≡ record { event = e; payload = f.payload } ∷ read_frames empty_frame ls
      named_frame [] n = absurd (n refl)
      named_frame (_ ∷ _) _ = refl

-- The client gets back exactly the frames that the server wrote, in order, if each event has a name
-- and no name and no payload breaks the line or outgrows the client's buffer.
pub read_sse-write_all : (fs : List SseFrame) → All IsFrame fs → read_sse (write_all fs) ≡ fs
unfolding read_sse
read_sse-write_all [] _ = refl
read_sse-write_all (f ∷ fs) (is_frame, more) =
    ap (read_frames empty_frame) (lines_of-frame f is_frame (write_all fs))
    ∙ read_frame f is_frame (write_all fs) (lines_of (write_all fs))
    ∙ ap (λ xs. f ∷ xs) (read_sse-write_all fs more)
