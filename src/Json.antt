-- ===== src/Json.antt =====
-- JSON values, as `encoding/json` is given them. The keys of an object are those of a Go map: the
-- order in which they stand here means nothing. An instant stands for its RFC 3339 text.
use whatsmeow_api.Prelude.{ℕ, String, Bool, Option, none, some, List, [], ◌∷◌, ◌==◌, if◌then◌else◌}
use whatsmeow_api.Time.{Time}

mutual
  pub data Json : Type 0 where
    null : Json
    bool : Bool → Json
    num : ℕ → Json
    text : String → Json
    time : Time → Json
    array : Items → Json
    object : Fields → Json

  pub data Items : Type 0 where
    end_items : Items
    item : Json → Items → Items

  pub data Fields : Type 0 where
    end : Fields
    field : String → Json → Fields → Fields

-- The value of a key.
abbrev pub field_of : String → Fields → Option Json
field_of k end = none
field_of k (field j v fs) = if j == k then some v else field_of k fs

abbrev pub get : String → Json → Option Json
get k (object fs) = field_of k fs
get k _ = none

-- Adds the fields of a conditional assignment.
abbrev pub when : Bool → String → Json → Fields → Fields
when b k v fs = if b then field k v fs else fs

abbrev pub texts : List String → Items
texts [] = end_items
texts (s ∷ ss) = item (text s) (texts ss)
