-- ===== src/Table.antt =====
-- A SQL table with a primary key: rows in the order of insertion, at most one for each key.
-- `key` reads a row's primary key and `eq` compares keys; `put` is
-- INSERT … ON CONFLICT(key) DO UPDATE, and `modify` is UPDATE … WHERE key = ….
pub mod Laws
pub mod Views
use whatsmeow_api.Prelude.{Bool, Option, none, some, List, [], ◌∷◌, keep, not, if◌then◌else◌}

module _ {K R : Type 0} (key : R → K) (eq : K → K → Bool) where
  unfoldable pub find : K → List R → Option R
  find k [] = none
  find k (r ∷ rs) = if eq (key r) k then some r else find k rs

  unfoldable pub put : R → List R → List R
  put r [] = r ∷ []
  put r (x ∷ rs) = if eq (key x) (key r) then r ∷ rs else x ∷ put r rs

  unfoldable pub modify : K → (R → R) → List R → List R
  modify k f [] = []
  modify k f (x ∷ rs) = if eq (key x) k then f x ∷ rs else x ∷ modify k f rs

  unfoldable pub delete : K → List R → List R
  delete k = keep (λ r. not (eq (key r) k))
