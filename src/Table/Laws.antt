-- ===== src/Table/Laws.antt =====
-- What a reader of a keyed table sees after each statement.
use mathlib.Core.Option
use mathlib.Core.Option.{some-injective}
use whatsmeow_api.Prelude.{
  ◌≡◌, refl, ◌↔◌, Bool, true, none, some, List, [], ◌∷◌, arith, if◌then◌else◌, All, map, ap, ◌∙◌,
  subst, Bool-cases, inl, inr,
}
use whatsmeow_api.Table.{find, put, modify, delete}

module _ {K R : Type 0} (key : R → K) (eq : K → K → Bool)
    (eq_iff : (a b : K) → (eq a b ≡ true) ↔ (a ≡ b)) where
  -- No two rows share a key.
  abbrev pub IsUnique : List R → Type 0
  IsUnique [] = Unit
  IsUnique (r ∷ rs) = (find key eq (key r) rs ≡ none) × IsUnique rs

  pub find-put :
      (k : K) (r : R) (rs : List R)
      → find key eq k (put key eq r rs) ≡ (if eq (key r) k then some r else find key eq k rs)
  unfolding find put
  find-put k r [] = refl
  find-put k r (x ∷ rs) =
      ground (arith, find-put k r rs, eq_iff (key x) (key r), eq_iff (key x) k, eq_iff (key r) k)

  pub find-delete :
      (k j : K) (rs : List R)
      → find key eq k (delete key eq j rs) ≡ (if eq j k then none else find key eq k rs)
  unfolding find delete
  find-delete k j [] = ground arith
  find-delete k j (x ∷ rs) =
      ground (arith, find-delete k j rs, eq_iff (key x) j, eq_iff (key x) k, eq_iff j k)

  pub put-IsUnique : (r : R) (rs : List R) → IsUnique rs → IsUnique (put key eq r rs)
  unfolding find put
  put-IsUnique r [] _ = (refl, tt)
  put-IsUnique r (x ∷ rs) (fresh, u) = ground (
    arith,
    put-IsUnique r rs u,
    find-put (key x) r rs,
    eq_iff (key x) (key r),
    eq_iff (key r) (key x),
  )

  module _ (f : R → R) (keeps_key : (r : R) → key (f r) ≡ key r) where
    pub find-modify :
        (k j : K) (rs : List R)
        → find key eq k (modify key eq j f rs)
          ≡ (if eq j k then Option.map f (find key eq k rs) else find key eq k rs)
    unfolding find modify
    find-modify k j [] = ground arith
    find-modify k j (x ∷ rs) = ground (
      arith,
      find-modify k j rs,
      eq_iff (key x) j,
      eq_iff (key x) k,
      eq_iff j k,
      eq_iff (key (f x)) k,
      keeps_key x,
    )

    pub modify-IsUnique : (j : K) (rs : List R) → IsUnique rs → IsUnique (modify key eq j f rs)
    unfolding find modify
    modify-IsUnique j [] _ = tt
    modify-IsUnique j (x ∷ rs) (fresh, u) = ground (
      arith,
      modify-IsUnique j rs u,
      find-modify (key x) j rs,
      eq_iff (key x) j,
      eq_iff j (key x),
      keeps_key x,
    )

  pub delete-IsUnique : (j : K) (rs : List R) → IsUnique rs → IsUnique (delete key eq j rs)
  unfolding delete
  delete-IsUnique j [] _ = tt
  delete-IsUnique j (x ∷ rs) (fresh, u) =
      ground (arith, delete-IsUnique j rs u, find-delete (key x) j rs, eq_iff j (key x))

module _ {K R : Type 0} (key : R → K) (eq : K → K → Bool) (P : R → Type 0) where
  pub All-put : (r : R) (rs : List R) → P r → All P rs → All P (put key eq r rs)
  unfolding put
  All-put r [] p _ = (p, tt)
  All-put r (x ∷ rs) p (px, ps) = ground (arith, All-put r rs p ps)

  pub All-modify :
      (j : K) (f : R → R) (rs : List R)
      → ((r : R) → P r → P (f r))
      → All P rs
      → All P (modify key eq j f rs)
  unfolding modify
  All-modify j f [] h _ = tt
  All-modify j f (x ∷ rs) h (px, ps) = ground (arith, h x px, All-modify j f rs h ps)

  pub All-delete : (j : K) (rs : List R) → All P rs → All P (delete key eq j rs)
  unfolding delete
  All-delete j [] _ = tt
  All-delete j (x ∷ rs) (px, ps) = ground (arith, All-delete j rs ps)

module _ {K R : Type 0} (key : R → K) (eq : K → K → Bool)
    (eq_iff : (a b : K) → (eq a b ≡ true) ↔ (a ≡ b)) (f : R → R)
    (keeps_key : (r : R) → key (f r) ≡ key r) where
  pub find-map : (k : K) (rs : List R) → find key eq k (map f rs) ≡ Option.map f (find key eq k rs)
  unfolding find
  find-map k [] = refl
  find-map k (x ∷ rs) = ground (arith, find-map k rs, keeps_key x)

  pub map-IsUnique : (rs : List R) → IsUnique key eq eq_iff rs → IsUnique key eq eq_iff (map f rs)
  map-IsUnique [] _ = tt
  map-IsUnique (x ∷ rs) (fresh, u) =
      (rw keeps_key (find-map (key x) rs ∙ ap (Option.map f) fresh), map-IsUnique rs u)

module _ {K R : Type 0} (key : R → K) (eq : K → K → Bool) where
  pub find-key : (k : K) (rs : List R) (r : R) → find key eq k rs ≡ some r → eq (key r) k ≡ true
  unfolding find
  find-key k [] r h = absurd (cc)
  find-key k (x ∷ rs) r h = elim (Bool-cases (eq (key x) k)) [
    | inl here ↦ subst (λ y. eq (key y) k ≡ true) (some-injective x r (rw here at h)) here
    | inr later ↦ find-key k rs r (rw later at h)
  ]
