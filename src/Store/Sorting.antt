-- ===== src/Store/Sorting.antt =====
-- ORDER BY, LIMIT and OFFSET.
use authserver.Common.{
  Bool, List, [], ◌∷◌, ℕ, zero, suc, In, ◌⊎◌, ◌↔◌, ◌≡◌, arith, if◌then◌else◌, take, ltb,
}

module _ {A : Type 0} (le : A → A → Bool) where
  insert_ordered : A → List A → List A
  insert_ordered a [] = a ∷ []
  insert_ordered a (x ∷ xs) = if le a x then a ∷ x ∷ xs else x ∷ insert_ordered a xs

  unfoldable pub order_by : List A → List A
  unfolding insert_ordered
  order_by [] = []
  order_by (x ∷ xs) = insert_ordered x (order_by xs)

  In-insert_ordered : (a b : A) (xs : List A) → In b (insert_ordered a xs) ↔ ((a ≡ b) ⊎ In b xs)
  unfolding insert_ordered
  In-insert_ordered a b [] = ground arith
  In-insert_ordered a b (x ∷ xs) = ground (arith, In-insert_ordered a b xs)

  pub In-order_by : (b : A) (xs : List A) → In b (order_by xs) ↔ In b xs
  unfolding order_by
  In-order_by b [] = ground arith
  In-order_by b (x ∷ xs) = ground (arith, In-insert_ordered x b (order_by xs), In-order_by b xs)

module _ {A : Type 0} where
  drop : ℕ → List A → List A
  drop zero xs = xs
  drop (suc n) [] = []
  drop (suc n) (x ∷ xs) = drop n xs

  -- A limit of 0 is no limit, and there is no offset without a limit.
  unfoldable pub page : ℕ → ℕ → List A → List A
  unfolding drop
  page limit offset xs = if ltb 0 limit then take limit (drop offset xs) else xs
