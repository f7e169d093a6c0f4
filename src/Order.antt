-- ===== src/Order.antt =====
-- ORDER BY and LIMIT of a query: a stable sort by a Boolean order, and a signed bound on the rows.
pub mod Laws
use whatsmeow_api.Prelude.{
  ℕ, String, Bool, true, false, ◌&&◌, List, [], ◌∷◌, take, ltb, eqb, leb, if◌then◌else◌, ℤ, pos,
  negsuc,
}
use whatsmeow_api.Text.{codes}

-- BINARY collation: by bytes of UTF-8, which is by code points.
abbrev pub codes_leb : List ℕ → List ℕ → Bool
codes_leb [] t = true
codes_leb (_ ∷ _) [] = false
codes_leb (a ∷ s) (b ∷ t) = if eqb a b then codes_leb s t else ltb a b

abbrev pub text_leb : String → String → Bool
text_leb s t = codes_leb (codes s) (codes t)

module _ {ℓ} {A : Type ℓ} where
  -- `le a b` says that `a` may stand before `b`.
  unfoldable pub insert : (A → A → Bool) → A → List A → List A
  insert le a [] = a ∷ []
  insert le a (x ∷ xs) = if le a x then a ∷ x ∷ xs else x ∷ insert le a xs

  unfoldable pub order_by : (A → A → Bool) → List A → List A
  unfolding insert
  order_by le [] = []
  order_by le (x ∷ xs) = insert le x (order_by le xs)

  -- A negative LIMIT is no limit.
  abbrev pub limit_rows : ℤ → List A → List A
  limit_rows (pos n) xs = take n xs
  limit_rows (negsuc n) xs = xs
