-- ===== src/Order/Laws.antt =====
-- A sorted result holds the rows it was given, in order, and a limit cuts a prefix.
use mathlib.Core.List.{Perm}
use mathlib.Core.List.Perm
use whatsmeow_api.Prelude.{
  ◌≡◌, Bool, true, false, List, [], ◌∷◌, Bool-cases, inl, inr, ℕ, zero, suc, take, All, All-take,
}
use whatsmeow_api.Order.{insert, order_by}

module _ {A : Type 0} (le : A → A → Bool) where
  -- Each row may stand before every later one.
  abbrev pub IsOrdered : List A → Type 0
  IsOrdered [] = Unit
  IsOrdered (x ∷ xs) = All (λ y. le x y ≡ true) xs × IsOrdered xs

  insert-perm : (a : A) (xs : List A) → Perm (insert le a xs) (a ∷ xs)
  unfolding insert
  insert-perm a [] = Perm.refl _
  insert-perm a (x ∷ xs) = elim (Bool-cases (le a x)) [
    | inl before ↦ rw before (Perm.refl _)
    | inr after ↦ rw after (Perm.trans (Perm.cons x (insert-perm a xs)) (Perm.swap a x xs))
  ]

  All-inserted : (P : A → Type 0) (a : A) (xs : List A) → P a → All P xs → All P (insert le a xs)
  unfolding insert
  All-inserted P a [] p _ = (p, tt)
  All-inserted P a (x ∷ xs) p (q, qs) = elim (Bool-cases (le a x)) [
    | inl before ↦ rw before (p, (q, qs))
    | inr after ↦ rw after (q, All-inserted P a xs p qs)
  ]

  pub All-order_by : (P : A → Type 0) (xs : List A) → All P xs → All P (order_by le xs)
  unfolding order_by
  All-order_by P [] _ = tt
  All-order_by P (x ∷ xs) (p, ps) = All-inserted P x (order_by le xs) p (All-order_by P xs ps)

  pub IsOrdered-take : (n : ℕ) (xs : List A) → IsOrdered xs → IsOrdered (take n xs)
  IsOrdered-take zero xs h = tt
  IsOrdered-take (suc n) [] h = tt
  IsOrdered-take (suc n) (x ∷ xs) (p, s) =
      (All-take (λ y. le x y ≡ true) n xs p, IsOrdered-take n xs s)

  pub order_by-perm : (xs : List A) → Perm (order_by le xs) xs
  unfolding order_by
  order_by-perm [] = Perm.refl _
  order_by-perm (x ∷ xs) =
      Perm.trans (insert-perm x (order_by le xs)) (Perm.cons x (order_by-perm xs))

  module _ (total : (a b : A) → le a b ≡ false → le b a ≡ true)
      (trans : (a b c : A) → le a b ≡ true → le b c ≡ true → le a c ≡ true) where
    All-le_of_le :
        (a x : A) (xs : List A)
        → le a x ≡ true
        → All (λ y. le x y ≡ true) xs
        → All (λ y. le a y ≡ true) xs
    All-le_of_le a x [] h _ = tt
    All-le_of_le a x (y ∷ ys) h (p, ps) = (trans a x y h p, All-le_of_le a x ys h ps)

    All-insert :
        (x a : A) (xs : List A)
        → le x a ≡ true
        → All (λ y. le x y ≡ true) xs
        → All (λ y. le x y ≡ true) (insert le a xs)
    unfolding insert
    All-insert x a [] h _ = (h, tt)
    All-insert x a (y ∷ ys) h (p, ps) = elim (Bool-cases (le a y)) [
      | inl before ↦ rw before (h, (p, ps))
      | inr after ↦ rw after (p, All-insert x a ys h ps)
    ]

    insert-IsOrdered : (a : A) (xs : List A) → IsOrdered xs → IsOrdered (insert le a xs)
    unfolding insert
    insert-IsOrdered a [] _ = (tt, tt)
    insert-IsOrdered a (x ∷ xs) (p, s) = elim (Bool-cases (le a x)) [
      | inl before ↦ rw before ((before, All-le_of_le a x xs before p), (p, s))
      | inr after ↦ rw after (All-insert x a xs (total a x after) p, insert-IsOrdered a xs s)
    ]

    pub order_by-IsOrdered : (xs : List A) → IsOrdered (order_by le xs)
    unfolding order_by
    order_by-IsOrdered [] = tt
    order_by-IsOrdered (x ∷ xs) = insert-IsOrdered x (order_by le xs) (order_by-IsOrdered xs)
