-- ===== src/Sql/Laws.antt =====
-- Laws of the statements on rows.
use mathlib.Core.Option
use onyxchat.Base.{
  ◌==◌, map, ◌&&◌, ◌||◌, ◌≡◌, refl, ap, Bool, true, false, none, some, List, [], ◌∷◌, ◌++◌,
  if◌then◌else◌, arith, length, Bool-cases, inl, inr, ◌⊎◌, not,
}
use onyxchat.Sql.{select, update, delete, exists_row, query_row}

module _ {ℓ} {A : Type ℓ} where
  pub exists_row-append :
      (p : A → Bool) (xs ys : List A)
      → exists_row p (xs ++ ys) ≡ (exists_row p xs || exists_row p ys)
  unfolding exists_row
  exists_row-append p [] ys = refl
  exists_row-append p (x ∷ xs) ys = ground (arith, exists_row-append p xs ys)

  -- The first row of a result, by whether the result has any.
  pub query_row-cases :
      (p : A → Bool) (xs : List A)
      → ((exists_row p xs ≡ false) × (query_row p xs ≡ none))
        ⊎ ((x : A) × (exists_row p xs ≡ true) × (query_row p xs ≡ some x) × (p x ≡ true))
  unfolding exists_row query_row
  query_row-cases p [] = inl (refl, refl)
  query_row-cases p (x ∷ xs) = elim (Bool-cases (p x)) [
    | inl e ↦ inr (x, rw e, rw e, e)
    | inr e ↦ rw e (query_row-cases p xs)
  ]

  pub query_row-append_new :
      (p : A → Bool) (xs : List A) (y : A)
      → exists_row p xs ≡ false
      → p y ≡ true
      → query_row p (xs ++ y ∷ []) ≡ some y
  unfolding exists_row query_row
  query_row-append_new p [] y h e = rw e
  query_row-append_new p (x ∷ xs) y h e = ground (arith, query_row-append_new p xs y)

  pub select-and :
      (p q : A → Bool) (xs : List A) → select (λ x. p x && q x) xs ≡ select q (select p xs)
  unfolding select
  select-and p q [] = refl
  select-and p q (x ∷ xs) = elim (Bool-cases (p x)) [
    | inl e ↦ rw e (ap (λ r. if q x then x ∷ r else r) (select-and p q xs))
    | inr e ↦ rw e (select-and p q xs)
  ]

  pub select-select_weaker :
      (p q : A → Bool) (xs : List A)
      → ((x : A) → q x ≡ true → p x ≡ true)
      → select q (select p xs) ≡ select q xs
  unfolding select
  select-select_weaker p q [] h = refl
  select-select_weaker p q (x ∷ xs) h = elim (Bool-cases (p x)) [
    | inl e ↦ rw e (ap (λ r. if q x then x ∷ r else r) (select-select_weaker p q xs h))
    | inr e ↦ ground (arith, h x, select-select_weaker p q xs h)
  ]

  -- A column that an update leaves alone is seen as before.
  pub exists_row-update :
      (p q : A → Bool) (f : A → A) (xs : List A)
      → ((x : A) → p (f x) ≡ p x)
      → exists_row p (update q f xs) ≡ exists_row p xs
  unfolding exists_row update
  exists_row-update p q f [] h = refl
  exists_row-update p q f (x ∷ xs) h = ground (arith, h x, exists_row-update p q f xs h)

  -- An update after which no row passes a test.
  pub select-update_none :
      (p : A → Bool) (f : A → A) (xs : List A)
      → ((x : A) → p (f x) ≡ false)
      → select p (update p f xs) ≡ []
  unfolding select update
  select-update_none p f [] h = refl
  select-update_none p f (x ∷ xs) h = ground (arith, h x, select-update_none p f xs h)

  -- An update of no row changes nothing.
  pub update-none : (p : A → Bool) (f : A → A) (xs : List A) → select p xs ≡ [] → update p f xs ≡ xs
  unfolding select update
  update-none p f [] h = refl
  update-none p f (x ∷ xs) h = ground (arith, update-none p f xs)

  -- A test that the updated rows neither passed before nor pass after sees no change.
  pub select-update_apart :
      (p q : A → Bool) (f : A → A) (xs : List A)
      → ((x : A) → p x ≡ true → q x ≡ false)
      → ((x : A) → p x ≡ true → q (f x) ≡ false)
      → select q (update p f xs) ≡ select q xs
  unfolding select update
  select-update_apart p q f [] h k = refl
  select-update_apart p q f (x ∷ xs) h k =
      ground (arith, h x, k x, select-update_apart p q f xs h k)

  pub exists_row-select : (p : A → Bool) (xs : List A) → select p xs ≡ [] → exists_row p xs ≡ false
  unfolding select exists_row
  exists_row-select p [] h = refl
  exists_row-select p (x ∷ xs) h = ground (arith, exists_row-select p xs)

  -- The first row by another test, after an update that keeps that test.
  pub query_row-update :
      (p q : A → Bool) (f : A → A) (xs : List A)
      → ((x : A) → q (f x) ≡ q x)
      → query_row q (update p f xs) ≡ Option.map (λ x. if p x then f x else x) (query_row q xs)
  unfolding query_row update
  query_row-update p q f [] h = refl
  query_row-update p q f (x ∷ xs) h = ground (arith, h x, query_row-update p q f xs h)

  pub query_row-update-none :
      (p : A → Bool) (f : A → A) (xs : List A)
      → ((x : A) → p (f x) ≡ false)
      → query_row p (update p f xs) ≡ none
  unfolding query_row update
  query_row-update-none p f [] h = refl
  query_row-update-none p f (x ∷ xs) h = ground (arith, h x, query_row-update-none p f xs h)

  pub length-select :
      (p : A → Bool) (xs : List A) → (length (select p xs) == 0) ≡ not (exists_row p xs)
  unfolding select exists_row
  length-select p [] = refl
  length-select p (x ∷ xs) = elim (Bool-cases (p x)) [
    | inl e ↦ rw e (ground arith)
    | inr e ↦ rw e (length-select p xs)
  ]

  -- An update after which no row passes another test.
  pub select-update_clears :
      (p q : A → Bool) (f : A → A) (xs : List A)
      → ((x : A) → p x ≡ true → q (f x) ≡ false)
      → ((x : A) → p x ≡ false → q x ≡ false)
      → select q (update p f xs) ≡ []
  unfolding select update
  select-update_clears p q f [] h k = refl
  select-update_clears p q f (x ∷ xs) h k =
      ground (arith, h x, k x, select-update_clears p q f xs h k)

  pub select-update-map :
      (p : A → Bool) (f : A → A) (xs : List A)
      → ((x : A) → p (f x) ≡ p x)
      → select p (update p f xs) ≡ map f (select p xs)
  unfolding select update
  select-update-map p f [] h = refl
  select-update-map p f (x ∷ xs) h = elim (Bool-cases (p x)) [
    | inl e ↦ rw (e, h x, e) (ap (λ r. f x ∷ r) (select-update-map p f xs h))
    | inr e ↦ rw (e, e) (select-update-map p f xs h)
  ]

  pub select-delete : (p : A → Bool) (xs : List A) → select p (delete p xs) ≡ []
  unfolding select delete
  select-delete p [] = refl
  select-delete p (x ∷ xs) = ground (arith, select-delete p xs)

  pub query_row-select : (p : A → Bool) (xs : List A) → select p xs ≡ [] → query_row p xs ≡ none
  unfolding select query_row
  query_row-select p [] h = refl
  query_row-select p (x ∷ xs) h = ground (arith, query_row-select p xs)

  pub query_row-exists :
      (p : A → Bool) (xs : List A) (r : A) → query_row p xs ≡ some r → exists_row p xs ≡ true
  query_row-exists p xs r e = ground (arith, query_row-cases p xs)

  pub exists_row-delete :
      (p q : A → Bool) (xs : List A)
      → exists_row q (delete p xs) ≡ exists_row (λ x. q x && not (p x)) xs
  unfolding exists_row delete select
  exists_row-delete p q [] = refl
  exists_row-delete p q (x ∷ xs) = ground (arith, exists_row-delete p q xs)
