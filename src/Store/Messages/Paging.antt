-- ===== src/Store/Messages/Paging.antt =====
-- `ListConversationSince` of message_store.go: pages of a conversation by a cursor.
use Prim.Native.Nat.{min}
use onyxchat.Base.{
  ℕ, zero, suc, ◌+◌, ◌≤◌, false, ◌≡◌, refl, ap, sym, ◌∙◌, List, [], ◌∷◌, arith, map, take, length,
  ltb, length-take, take-all,
}
use onyxchat.Sql.{select}
use onyxchat.Sql.Laws.{select-and}
use onyxchat.Sql.Order.{select-Ascending, order_by-Ascending}
use onyxchat.Store.Db.{MessageRow, Db}
use onyxchat.Store.Session.{Session, ok, count_call}
use onyxchat.Store.Messages.{
  display, query_messages, list_conversation_since, rows_since, in_conversation,
}
use onyxchat.Store.Messages.Validity.{IsValid, message_id}

module _ {ℓ κ} {A : Type ℓ} {B : Type κ} where
  pub map-take : (f : A → B) (n : ℕ) (xs : List A) → map f (take n xs) ≡ take n (map f xs)
  map-take f zero xs = refl
  map-take f (suc n) [] = refl
  map-take f (suc n) (x ∷ xs) = ap (λ r. f x ∷ r) (map-take f n xs)

  pub length-map : (f : A → B) (xs : List A) → length (map f xs) ≡ length xs
  length-map f [] = refl
  length-map f (x ∷ xs) = ap suc (length-map f xs)

take-take-suc {ℓ} : {A : Type ℓ} (n : ℕ) (xs : List A) → take n (take (suc n) xs) ≡ take n xs
take-take-suc zero xs = refl
take-take-suc (suc n) [] = refl
take-take-suc (suc n) (x ∷ xs) = ap (λ r. x ∷ r) (take-take-suc n xs)

-- The rows of a conversation, oldest first.
abbrev pub conversation : ℕ → ℕ → Db → List MessageRow
conversation user peer db = select (in_conversation user peer) db.messages

-- Those above the cursor.
abbrev pub above : ℕ → List MessageRow → List MessageRow
above since = select λ r. ltb since r.id

module _ {ℓ κ} {A : Type ℓ} {B : Type κ} (f : A → B) (limit : ℕ) (xs : List A) where
  length-fetched : length (map f (take (suc limit) xs)) ≡ min (suc limit) (length xs)
  length-fetched = length-map f (take (suc limit) xs) ∙ length-take (suc limit) xs

  take-fetched : take limit (map f (take (suc limit) xs)) ≡ map f (take limit xs)
  take-fetched = sym (map-take f limit (take (suc limit) xs)) ∙ ap (map f) (take-take-suc limit xs)

  fetched-short : length xs ≤ limit → map f (take (suc limit) xs) ≡ map f (take limit xs)
  fetched-short h = ap (map f) (take-all (suc limit) xs (omega arith) ∙ sym (take-all limit xs h))

-- One row more than the page holds is fetched, so the page is cut to its limit exactly when it says
-- that there is more.
pub query_messages-page :
    (query : List MessageRow → List MessageRow) (limit : ℕ) (s : Session)
    → s.fails s.calls ≡ false
    → query_messages query (limit + 1) limit s ≡ (
      ok (map display (take limit (query s.db.messages)), ltb limit (length (query s.db.messages))),
      count_call s,
    )
unfolding query_messages
query_messages-page query limit s f =
    let e : limit + 1 ≡ suc limit = omega arith in
    let xs = query s.db.messages in
    rw e (
      ground (
        arith,
        length-fetched display limit xs,
        take-fetched display limit xs,
        fetched-short display limit xs,
      ))

-- In a valid table the rows of a page need no sorting.
rows_since-above :
    (user peer since : ℕ) (db : Db)
    → IsValid db
    → rows_since user peer since db.messages ≡ above since (conversation user peer db)
unfolding rows_since
rows_since-above user peer since db v =
    order_by-Ascending message_id 1 _ (select-Ascending message_id _ 1 db.messages v.ascending)
    ∙ select-and (in_conversation user peer) (λ r. ltb since r.id) db.messages

-- In valid tables, when the driver does not fail, a page holds the first `limit` messages of the
-- conversation above the cursor, oldest first, as they are displayed, and says exactly whether more
-- remain; the tables are only read.
pub list_conversation_since-page :
    (user peer since limit : ℕ) (s : Session)
    → IsValid s.db
    → s.fails s.calls ≡ false
    → list_conversation_since user peer since limit s ≡ (
      ok (
        map display (take limit (above since (conversation user peer s.db))),
        ltb limit (length (above since (conversation user peer s.db))),
      ),
      count_call s,
    )
unfolding list_conversation_since
list_conversation_since-page user peer since limit s v f =
    rw (← rows_since-above user peer since s.db v)
      (query_messages-page (rows_since user peer since) limit s f)
