-- ===== src/Time.antt =====
-- Go's `time.Time`, as far as the daemon looks into it: an instant, counted as Go does from the
-- first second of year 1, whose own instant is the zero value.
use whatsmeow_api.Prelude.{ℕ, Bool, ◌&&◌, Option, none, some, eqb, if◌then◌else◌}

pub record Time : Type 0 where
  pub sec : ℕ
  pub nsec : ℕ

abbrev pub zero_time : Time
zero_time = record { sec = 0; nsec = 0 }

-- `t.IsZero()`.
abbrev pub is_zero : Time → Bool
is_zero t = eqb t.sec 0 && eqb t.nsec 0

-- `t.Unix()`, without the constant distance between year 1 and 1970.
abbrev pub unix : Time → ℕ
unix t = t.sec

-- store/sqlite/time.go: an INTEGER column holds whole seconds.
abbrev pub unix_to_time : ℕ → Time
unix_to_time sec = record { sec = sec; nsec = 0 }

abbrev pub unix_or_nil : Time → Option ℕ
unix_or_nil t = if is_zero t then none else some (unix t)

abbrev pub ptr_unix : Option Time → Option ℕ
ptr_unix none = none
ptr_unix (some t) = some (unix t)

-- What a stored instant is read back as.
abbrev pub whole_seconds : Time → Time
whole_seconds t = unix_to_time (unix t)
