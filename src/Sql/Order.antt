-- ===== src/Sql/Order.antt =====
-- Rows in the order of a key: what statements keep of it, and ORDER BY.
use onyxchat.Base.{
  ◌==◌, ◌&&◌, ℕ, zero, suc, ◌<◌, ◌≤◌, ◌≡◌, refl, Bool, true, some, List, [], ◌∷◌, ◌++◌, leb, arith,
  take, drop, ltb, Bool-cases, inl, inr,
}
use onyxchat.Sql.{select, update, query_row, insert_in, order_by}
use onyxchat.Sql.Laws.{query_row-cases}

module _ {ℓ} {A : Type ℓ} where
  -- Keys rise strictly along the rows and lie at or above a bound.
  abbrev pub Ascending : (A → ℕ) → ℕ → List A → Type 0
  Ascending key n [] = Unit {0}
  Ascending key n (x ∷ xs) = (n ≤ key x) × Ascending key (suc (key x)) xs

  abbrev pub Below : (A → ℕ) → ℕ → List A → Type 0
  Below key n [] = Unit {0}
  Below key n (x ∷ xs) = (key x < n) × Below key n xs

  pub Ascending-mono :
      (key : A → ℕ) (m n : ℕ) (xs : List A) → m ≤ n → Ascending key n xs → Ascending key m xs
  Ascending-mono key m n [] h a = tt
  Ascending-mono key m n (x ∷ xs) h a = (omega arith, a.1)

  pub select-Ascending :
      (key : A → ℕ) (p : A → Bool) (n : ℕ) (xs : List A)
      → Ascending key n xs
      → Ascending key n (select p xs)
  unfolding select
  select-Ascending key p n [] a = tt
  select-Ascending key p n (x ∷ xs) a = elim (Bool-cases (p x)) [
    | inl e ↦ rw e (a.0, select-Ascending key p (suc (key x)) xs a.1)
    | inr e ↦ rw e (
        Ascending-mono key n (suc (key x)) (select p xs) (omega arith)
          (select-Ascending key p (suc (key x)) xs a.1))
  ]

  pub update-Ascending :
      (key : A → ℕ) (p : A → Bool) (f : A → A) (n : ℕ) (xs : List A)
      → ((x : A) → key (f x) ≡ key x)
      → Ascending key n xs
      → Ascending key n (update p f xs)
  unfolding update
  update-Ascending key p f n [] h a = tt
  update-Ascending key p f n (x ∷ xs) h a = elim (Bool-cases (p x)) [
    | inl e ↦ rw (e, h x) (a.0, update-Ascending key p f (suc (key x)) xs h a.1)
    | inr e ↦ rw e (a.0, update-Ascending key p f (suc (key x)) xs h a.1)
  ]

  insert_by_least :
      (key : A → ℕ) (x : A) (xs : List A)
      → Ascending key (suc (key x)) xs
      → insert_in (λ y z. leb (key y) (key z)) x xs ≡ x ∷ xs
  unfolding insert_in
  insert_by_least key x [] a = refl
  insert_by_least key x (y ∷ ys) a = ground arith

  -- Rows that are in order already stay as they are.
  pub order_by-Ascending :
      (key : A → ℕ) (n : ℕ) (xs : List A) → Ascending key n xs → order_by key xs ≡ xs
  unfolding order_by
  order_by-Ascending key n [] a = refl
  order_by-Ascending key n (x ∷ xs) a =
      rw (order_by-Ascending key (suc (key x)) xs a.1) (insert_by_least key x xs a.1)

  pub append-Ascending :
      (key : A → ℕ) (n : ℕ) (xs : List A) (y : A)
      → Ascending key n xs
      → Below key (key y) xs
      → n ≤ key y
      → Ascending key n (xs ++ y ∷ [])
  append-Ascending key n [] y a b h = (h, tt)
  append-Ascending key n (x ∷ xs) y a b h =
      (a.0, append-Ascending key (suc (key x)) xs y a.1 b.1 b.0)

  pub Below-mono : (key : A → ℕ) (m n : ℕ) (xs : List A) → m ≤ n → Below key m xs → Below key n xs
  Below-mono key m n [] h b = tt
  Below-mono key m n (x ∷ xs) h b = (omega arith, Below-mono key m n xs h b.1)

  pub append-Below :
      (key : A → ℕ) (n : ℕ) (xs : List A) (y : A)
      → Below key n xs
      → key y < n
      → Below key n (xs ++ y ∷ [])
  append-Below key n [] y b h = (h, tt)
  append-Below key n (x ∷ xs) y b h = (b.0, append-Below key n xs y b.1 h)

  pub update-Below :
      (key : A → ℕ) (p : A → Bool) (f : A → A) (n : ℕ) (xs : List A)
      → ((x : A) → key (f x) ≡ key x)
      → Below key n xs
      → Below key n (update p f xs)
  unfolding update
  update-Below key p f n [] h b = tt
  update-Below key p f n (x ∷ xs) h b = elim (Bool-cases (p x)) [
    | inl e ↦ rw (e, h x) (b.0, update-Below key p f n xs h b.1)
    | inr e ↦ rw e (b.0, update-Below key p f n xs h b.1)
  ]

  -- After the first k rows in order come exactly those above the k-th key.
  abbrev pub last_key : (A → ℕ) → ℕ → List A → ℕ
  last_key key n [] = n
  last_key key n (x ∷ xs) = last_key key (key x) xs

  pub last_key-le :
      (key : A → ℕ) (n k : ℕ) (xs : List A) → Ascending key n xs → n ≤ last_key key n (take k xs)
  last_key-le key n zero xs a = omega arith
  last_key-le key n (suc k) [] a = omega arith
  last_key-le key n (suc k) (x ∷ xs) a = omega (
    arith,
    last_key-le key (key x) k xs (Ascending-mono key (key x) (suc (key x)) xs (omega arith) a.1),
  )

  select-above :
      (key : A → ℕ) (n : ℕ) (xs : List A)
      → Ascending key (suc n) xs
      → select (λ x. ltb n (key x)) xs ≡ xs
  unfolding select
  select-above key n [] a = refl
  select-above key n (x ∷ xs) a =
      ground (
        arith,
        select-above key n xs (Ascending-mono key (suc n) (suc (key x)) xs (omega arith) a.1),
      )

  pub select-drop :
      (key : A → ℕ) (n k : ℕ) (xs : List A)
      → Ascending key (suc n) xs
      → select (λ x. ltb (last_key key n (take k xs)) (key x)) xs ≡ drop k xs
  unfolding select
  select-drop key n zero xs a = select-above key n xs a
  select-drop key n (suc k) [] a = refl
  select-drop key n (suc k) (x ∷ xs) a = ground (
    arith,
    select-drop key (key x) k xs a.1,
    last_key-le key (key x) k xs (Ascending-mono key (key x) (suc (key x)) xs (omega arith) a.1),
  )

  query_row-ge :
      (key : A → ℕ) (p : A → Bool) (n : ℕ) (xs : List A) (r : A)
      → Ascending key n xs
      → query_row p xs ≡ some r
      → n ≤ key r
  unfolding query_row
  query_row-ge key p n [] r a h = cc
  query_row-ge key p n (x ∷ xs) r a h = elim (Bool-cases (p x)) [
    | inl e ↦ ground arith
    | inr e ↦ ground (arith, query_row-ge key p (suc (key x)) xs r a.1)
  ]

  -- Where keys are distinct, a row found by a test that fixes the key is the row with that key.
  pub query_row_by_key :
      (key : A → ℕ) (p : A → Bool) (k n : ℕ) (xs : List A) (r : A)
      → Ascending key n xs
      → ((x : A) → p x ≡ true → key x ≡ k)
      → query_row p xs ≡ some r
      → query_row (λ x. key x == k) xs ≡ some r
  unfolding query_row
  query_row_by_key key p k n [] r a h e = cc
  query_row_by_key key p k n (x ∷ xs) r a h e = elim (query_row-cases p (x ∷ xs)) [
    | inl (_, q) ↦ ground arith
    | inr (y, _, q, t) ↦ elim (Bool-cases (p x)) [
      | inl here ↦ ground (arith, h x)
      | inr there ↦ ground (
        arith,
        h y,
        query_row_by_key key p k (suc (key x)) xs r a.1 h,
        query_row-ge key p (suc (key x)) xs r a.1,
      )
    ]
  ]

  -- A row found by some test is the one with its key.
  query_row-same :
      (key : A → ℕ) (p : A → Bool) (xs : List A) (r : A)
      → query_row p xs ≡ some r
      → query_row (λ x. p x && key x == key r) xs ≡ some r
  unfolding query_row
  query_row-same key p [] r e = cc
  query_row-same key p (x ∷ xs) r e = ground (arith, query_row-same key p xs r)

  pub query_row_own_key :
      (key : A → ℕ) (p : A → Bool) (n : ℕ) (xs : List A) (r : A)
      → Ascending key n xs
      → query_row p xs ≡ some r
      → query_row (λ x. key x == key r) xs ≡ some r
  query_row_own_key key p n xs r a e =
      query_row_by_key key (λ x. p x && key x == key r) (key r) n xs r a (λ x h. ground arith)
        (query_row-same key p xs r e)
