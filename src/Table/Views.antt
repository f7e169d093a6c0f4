-- ===== src/Table/Views.antt =====
-- A table seen through a function on its rows that keeps the keys: each statement on the table is the
-- same statement on what is seen.
use mathlib.Core.Option
use whatsmeow_api.Prelude.{◌≡◌, refl, Bool, List, [], ◌∷◌, map, arith}
use whatsmeow_api.Table.{find, put, modify, delete}

module _ {K R S : Type 0} (key : R → K) (key_seen : S → K) (eq : K → K → Bool) (see : R → S)
    (same_key : (r : R) → key_seen (see r) ≡ key r) where
  pub find-seen :
      (k : K) (rs : List R) → find key_seen eq k (map see rs) ≡ Option.map see (find key eq k rs)
  unfolding find
  find-seen k [] = refl
  find-seen k (r ∷ rs) = ground (arith, find-seen k rs, same_key r)

  pub map-put :
      (r : R) (rs : List R) → map see (put key eq r rs) ≡ put key_seen eq (see r) (map see rs)
  unfolding put
  map-put r [] = refl
  map-put r (x ∷ rs) = ground (arith, map-put r rs, same_key r, same_key x)

  pub map-delete :
      (k : K) (rs : List R) → map see (delete key eq k rs) ≡ delete key_seen eq k (map see rs)
  unfolding delete
  map-delete k [] = refl
  map-delete k (x ∷ rs) = ground (arith, map-delete k rs, same_key x)

  pub map-modify :
      (u : R → R) (v : S → S)
      → ((r : R) → see (u r) ≡ v (see r))
      → (k : K) (rs : List R) → map see (modify key eq k u rs) ≡ modify key_seen eq k v (map see rs)
  unfolding modify
  map-modify u v same k [] = refl
  map-modify u v same k (x ∷ rs) = ground (arith, map-modify u v same k rs, same_key x, same x)
