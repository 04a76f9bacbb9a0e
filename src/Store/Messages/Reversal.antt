-- ===== src/Store/Messages/Reversal.antt =====
-- `ListConversationBefore` of message_store.go: the loop that turns a page round in place, and the
-- pages of older history that it gives.
use mathlib.Core.List.{reverse-cons, map-append}
use onyxchat.Base.{
  ℕ, zero, suc, ◌+◌, ◌-◌, ◌≤◌, ◌<◌, false, ◌≡◌, refl, ap, sym, ◌∙◌, some, none, List, [], ◌∷◌, ◌++◌,
  arith, map, take, drop, length, ltb, leb, ◌==◌, if◌then◌else◌, ◌&&◌, Bool-cases, Option-cases,
  inl, inr, length-append, length-take, get_elem?, set, reverse,
}
use onyxchat.Sql.{select}
use onyxchat.Sql.Laws.{select-and}
use onyxchat.Sql.Order.{select-Ascending, order_by-Ascending}
use onyxchat.Store.Db.{MessageRow, Db}
use onyxchat.Store.Session.{Session, ok, count_call}
use onyxchat.Store.Messages.{
  display, swap_elems, reverse_loop, rows_before, list_conversation_before, in_conversation,
}
use onyxchat.Store.Messages.Validity.{IsValid, message_id}
use onyxchat.Store.Messages.Paging.{conversation, query_messages-page}

module _ {A : Type 0} where
  length-set : (xs : List A) (i : ℕ) (v : A) → length (set xs i v) ≡ length xs
  length-set [] i v = refl
  length-set (x ∷ xs) zero v = refl
  length-set (x ∷ xs) (suc i) v = ap suc (length-set xs i v)

  get_elem?-set :
      (xs : List A) (i k : ℕ) (v : A)
      → i < length xs
      → get_elem? (set xs i v) k ≡ (if k == i then some v else get_elem? xs k)
  get_elem?-set [] i k v h = absurd (omega arith)
  get_elem?-set (x ∷ xs) zero zero v h = refl
  get_elem?-set (x ∷ xs) zero (suc k) v h = ground arith
  get_elem?-set (x ∷ xs) (suc i) zero v h = ground arith
  get_elem?-set (x ∷ xs) (suc i) (suc k) v h = ground (arith, get_elem?-set xs i k v)

  get_elem?-some : (xs : List A) (i : ℕ) → i < length xs → (a : A) × (get_elem? xs i ≡ some a)
  get_elem?-some [] i h = absurd (omega arith)
  get_elem?-some (x ∷ xs) zero h = (x, refl)
  get_elem?-some (x ∷ xs) (suc i) h = get_elem?-some xs i (omega arith)

  length-swap_elems : (i j : ℕ) (xs : List A) → length (swap_elems i j xs) ≡ length xs
  length-swap_elems i j xs = elim (Option-cases (get_elem? xs i)) [
    | inl e ↦ ground arith
    | inr (a, e) ↦ elim (Option-cases (get_elem? xs j)) [
      | inl q ↦ ground arith
      | inr (b, q) ↦ ground (arith, length-set (set xs i b) j a, length-set xs i b)
    ]
  ]

  get_elem?-swap_elems :
      (i j k : ℕ) (xs : List A)
      → i < length xs
      → j < length xs
      → get_elem? (swap_elems i j xs) k
        ≡ (if k == j then get_elem? xs i else if k == i then get_elem? xs j else get_elem? xs k)
  get_elem?-swap_elems i j k xs hi hj =
      let (a, e) = get_elem?-some xs i hi in
      let (b, q) = get_elem?-some xs j hj in
      ground
        (arith, e, q, get_elem?-set (set xs i b) j k a, get_elem?-set xs i k b, length-set xs i b)

  -- The loop mirrors the indices from i to j and leaves the others.
  get_elem?-reverse_loop :
      (fuel i j k : ℕ) (xs : List A)
      → j < length xs
      → j < i + fuel
      → get_elem? (reverse_loop fuel i j xs) k
        ≡ (if leb i k && leb k j then get_elem? xs (i + j - k) else get_elem? xs k)
  unfolding reverse_loop
  get_elem?-reverse_loop zero i j k xs h f = ground arith
  get_elem?-reverse_loop (suc fuel) i j k xs h f = elim (Bool-cases (ltb i j)) [
    | inl more ↦ rw more (
        ground (
          arith,
          get_elem?-reverse_loop fuel (i + 1) (j - 1) k (swap_elems i j xs),
          length-swap_elems i j xs,
          get_elem?-swap_elems i j k xs,
          get_elem?-swap_elems i j (i + 1 + (j - 1) - k) xs,
        ))
    | inr done ↦ rw done (ground arith)
  ]

  get_elem?-append :
      (xs ys : List A) (k : ℕ)
      → get_elem? (xs ++ ys) k
        ≡ (if ltb k (length xs) then get_elem? xs k else get_elem? ys (k - length xs))
  get_elem?-append [] ys k = ground arith
  get_elem?-append (x ∷ xs) ys zero = ground arith
  get_elem?-append (x ∷ xs) ys (suc k) = ground (arith, get_elem?-append xs ys k)

  length-reverse : (xs : List A) → length (reverse xs) ≡ length xs
  length-reverse [] = refl
  length-reverse (x ∷ xs) =
      omega (
        arith,
        ap length (reverse-cons x xs),
        length-append (reverse xs) (x ∷ []),
        length-reverse xs,
      )

  get_elem?-none : (xs : List A) (k : ℕ) → length xs ≤ k → get_elem? xs k ≡ none
  get_elem?-none [] k h = refl
  get_elem?-none (x ∷ xs) zero h = absurd (omega arith)
  get_elem?-none (x ∷ xs) (suc k) h = get_elem?-none xs k (omega arith)

  get_elem?-cons :
      (x : A) (xs : List A) (n : ℕ)
      → get_elem? (x ∷ xs) n ≡ (if n == 0 then some x else get_elem? xs (n - 1))
  get_elem?-cons x xs zero = refl
  get_elem?-cons x xs (suc n) = ground arith

  get_elem?-reverse :
      (xs : List A) (k : ℕ)
      → get_elem? (reverse xs) k
        ≡ (if ltb k (length xs) then get_elem? xs (length xs - 1 - k) else none)
  get_elem?-reverse [] k = ground arith
  get_elem?-reverse (x ∷ xs) k =
      rw (reverse-cons x xs, get_elem?-append (reverse xs) (x ∷ []) k, length-reverse xs)
        (ground (
          arith,
          get_elem?-reverse xs k,
          get_elem?-cons x xs (length (x ∷ xs) - 1 - k),
          get_elem?-cons x [] (k - length xs),
        ))

  eq_of_get_elem? : (xs ys : List A) → ((k : ℕ) → get_elem? xs k ≡ get_elem? ys k) → xs ≡ ys
  eq_of_get_elem? [] [] h = refl
  eq_of_get_elem? [] (y ∷ ys) h = ground (arith, h 0)
  eq_of_get_elem? (x ∷ xs) [] h = ground (arith, h 0)
  eq_of_get_elem? (x ∷ xs) (y ∷ ys) h = cc (h 0, eq_of_get_elem? xs ys (λ k. h (suc k)))

  -- The loop over the whole page gives the page in the opposite order.
  pub reverse_loop-eq-reverse :
      (xs : List A) → reverse_loop (length xs) 0 (length xs - 1) xs ≡ reverse xs
  reverse_loop-eq-reverse [] = unfold reverse_loop in refl
  reverse_loop-eq-reverse (x ∷ xs) = eq_of_get_elem? _ _ λ k. ground (
    arith,
    get_elem?-reverse_loop (length (x ∷ xs)) 0 (length (x ∷ xs) - 1) k (x ∷ xs),
    get_elem?-reverse (x ∷ xs) k,
    get_elem?-none (x ∷ xs) k,
  )

module _ {A : Type 0} where
  get_elem?-take :
      (n : ℕ) (xs : List A) (k : ℕ)
      → get_elem? (take n xs) k ≡ (if ltb k n then get_elem? xs k else none)
  get_elem?-take zero xs k = ground arith
  get_elem?-take (suc n) [] k = ground arith
  get_elem?-take (suc n) (x ∷ xs) zero = ground arith
  get_elem?-take (suc n) (x ∷ xs) (suc k) = ground (arith, get_elem?-take n xs k)

  get_elem?-drop : (n : ℕ) (xs : List A) (k : ℕ) → get_elem? (drop n xs) k ≡ get_elem? xs (n + k)
  get_elem?-drop zero xs k = ground arith
  get_elem?-drop (suc n) [] k = refl
  get_elem?-drop (suc n) (x ∷ xs) k =
      ground (arith, get_elem?-drop n xs k, get_elem?-cons x xs (suc n + k))

  -- The first rows in falling order, turned round, are the last rows in rising order.
  reverse-take-reverse :
      (n : ℕ) (xs : List A) → reverse (take n (reverse xs)) ≡ drop (length xs - n) xs
  reverse-take-reverse n xs = eq_of_get_elem? _ _ λ k. ground (
    arith,
    get_elem?-reverse (take n (reverse xs)) k,
    length-take n (reverse xs),
    length-reverse xs,
    get_elem?-take n (reverse xs) (length (take n (reverse xs)) - 1 - k),
    get_elem?-reverse xs (length (take n (reverse xs)) - 1 - k),
    get_elem?-drop (length xs - n) xs k,
    get_elem?-none xs (length xs - n + k),
  )

reverse-map {ℓ κ} :
    {A : Type ℓ} {B : Type κ} (f : A → B) (xs : List A) → reverse (map f xs) ≡ map f (reverse xs)
reverse-map f [] = refl
reverse-map f (x ∷ xs) =
    reverse-cons (f x) (map f xs)
    ∙ ap (λ r. r ++ f x ∷ []) (reverse-map f xs)
    ∙ sym (map-append f (reverse xs) (x ∷ []))
    ∙ ap (map f) (sym (reverse-cons x xs))

-- The messages of a list below the cursor.
abbrev pub older : ℕ → List MessageRow → List MessageRow
older before = select λ r. ltb r.id before

rows_before-older :
    (user peer before : ℕ) (db : Db)
    → IsValid db
    → rows_before user peer before db.messages ≡ reverse (older before (conversation user peer db))
unfolding rows_before
rows_before-older user peer before db v = ap reverse (
    order_by-Ascending message_id 1 _ (select-Ascending message_id _ 1 db.messages v.ascending)
    ∙ select-and (in_conversation user peer) (λ r. ltb r.id before) db.messages)

-- In valid tables, when the driver does not fail, a page of older history holds the last `limit`
-- messages of the conversation below the cursor, oldest first, as they are displayed, and says
-- exactly whether more remain below them.
pub list_conversation_before-page :
    (user peer before limit : ℕ) (s : Session)
    → IsValid s.db
    → s.fails s.calls ≡ false
    → let rows = older before (conversation user peer s.db) in
      list_conversation_before user peer before limit s
      ≡ (ok (map display (drop (length rows - limit) rows), ltb limit (length rows)), count_call s)
unfolding list_conversation_before
list_conversation_before-page user peer before limit s v f =
    rw
      (
        query_messages-page (rows_before user peer before) limit s f,
        rows_before-older user peer before s.db v,
      )
      (rw
        (
          reverse_loop-eq-reverse (map display (take limit (reverse rows))),
          reverse-map display (take limit (reverse rows)),
          reverse-take-reverse limit rows,
          length-reverse rows,
        )
        refl)
  where
    rows : List MessageRow
    rows = older before (conversation user peer s.db)
