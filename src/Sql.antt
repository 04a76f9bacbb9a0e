-- ===== src/Sql.antt =====
-- What an SQL statement does with the rows of one table: SELECT … WHERE, UPDATE … SET … WHERE with
-- its RowsAffected, DELETE … WHERE, EXISTS, and QueryRow, which reads the first row of the result.
pub mod Laws
pub mod Order
use onyxchat.Base.{
  ℕ, zero, suc, ◌+◌, Bool, true, false, not, ◌||◌, Option, none, some, List, [], ◌∷◌, if◌then◌else◌,
  leb,
}

module _ {ℓ} {A : Type ℓ} where
  unfoldable pub select : (A → Bool) → List A → List A
  select p [] = []
  select p (x ∷ xs) = let rest = select p xs in if p x then x ∷ rest else rest

  unfoldable pub update : (A → Bool) → (A → A) → List A → List A
  update p f [] = []
  update p f (x ∷ xs) = (if p x then f x else x) ∷ update p f xs

  unfoldable pub delete : (A → Bool) → List A → List A
  unfolding select
  delete p xs = select (λ x. not (p x)) xs

  unfoldable pub exists_row : (A → Bool) → List A → Bool
  exists_row p [] = false
  exists_row p (x ∷ xs) = p x || exists_row p xs

  unfoldable pub query_row : (A → Bool) → List A → Option A
  query_row p [] = none
  query_row p (x ∷ xs) = if p x then some x else query_row p xs

  -- ORDER BY; rows that the order does not tell apart keep their order.
  insert_in : (A → A → Bool) → A → List A → List A
  insert_in before x [] = x ∷ []
  insert_in before x (y ∷ ys) =
      let rest = insert_in before x ys in if before x y then x ∷ y ∷ ys else y ∷ rest

  unfoldable pub sort_by : (A → A → Bool) → List A → List A
  unfolding insert_in
  sort_by before [] = []
  sort_by before (x ∷ xs) = insert_in before x (sort_by before xs)

  -- ORDER BY a numeric column, ascending.
  unfoldable pub order_by : (A → ℕ) → List A → List A
  unfolding sort_by
  order_by key = sort_by λ x y. leb (key x) (key y)
