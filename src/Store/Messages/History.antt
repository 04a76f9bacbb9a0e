-- ===== src/Store/Messages/History.antt =====
-- A client that pages through a conversation with `ListConversationSince` of message_store.go,
-- each time from the id of the last message that it was given.
use onyxchat.Base.{
  ℕ, zero, suc, ◌≤◌, ◌<◌, Bool, true, false, ◌≡◌, refl, ap, sym, ◌∙◌, Option, some, none, List, [],
  ◌∷◌, ◌++◌, arith, map, take, drop, length, ltb, Bool-cases, inl, inr, length-drop,
  take-append-drop, take-all,
}
use mathlib.Core.List.{map-append}
use mathlib.Core.Option
use onyxchat.Sql.{select}
use onyxchat.Sql.Laws.{select-select_weaker}
use onyxchat.Sql.Order.{
  Ascending, Ascending-mono, select-Ascending, select-drop, last_key, last_key-le,
}
use onyxchat.Store.Db.{MessageRow}
use onyxchat.Store.Session.{Session, Result, ok, err, count_call}
use onyxchat.Store.Messages.{Message, display, list_conversation_since}
use onyxchat.Store.Messages.Validity.{IsValid, message_id}
use onyxchat.Store.Messages.Paging.{conversation, above, list_conversation_since-page}

abbrev pub last_id : ℕ → List Message → ℕ
last_id = last_key λ m. m.id

-- `none` when a page fails or the fuel runs out.
abbrev after_page :
    (ℕ → Session → Option (List Message))
    → ℕ
    → Result (List Message × Bool) × Session
    → Option (List Message)
after_page next since (err e, s) = none
after_page next since (ok (msgs, true), s) =
    Option.map (λ rest. msgs ++ rest) (next (last_id since msgs) s)
after_page next since (ok (msgs, false), s) = some msgs

pub fetch_history : ℕ → ℕ → ℕ → ℕ → ℕ → Session → Option (List Message)
fetch_history zero user peer limit since s = none
fetch_history (suc fuel) user peer limit since s =
    after_page (fetch_history fuel user peer limit) since
      (list_conversation_since user peer since limit s)

display-id : (r : MessageRow) → (display r).id ≡ r.id
unfolding display
display-id r = ground arith

last_id-display :
    (since : ℕ) (rows : List MessageRow)
    → last_id since (map display rows) ≡ last_key message_id since rows
last_id-display since [] = refl
last_id-display since (r ∷ rows) = rw display-id (last_id-display r.id rows)

above-Ascending :
    (since n : ℕ) (rows : List MessageRow)
    → Ascending message_id n rows
    → Ascending message_id (suc since) (above since rows)
unfolding select
above-Ascending since n [] a = tt
above-Ascending since n (r ∷ rows) a = ground (
  arith,
  above-Ascending since (suc r.id) rows a.1,
  select-Ascending message_id (λ x. ltb since x.id) (suc r.id) rows a.1,
)

-- After a page, the messages above its last id are those that it left out.
above-next :
    (since limit n : ℕ) (rows : List MessageRow)
    → Ascending message_id n rows
    → above (last_key message_id since (take limit (above since rows))) rows
      ≡ drop limit (above since rows)
above-next since limit n rows a =
    let sorted = above-Ascending since n rows a in
    sym (
      select-select_weaker (λ r. ltb since r.id) (λ r. ltb cursor r.id) rows
        (λ r h. ground (arith, reached)))
    ∙ select-drop message_id since limit (above since rows) sorted
  where
    cursor : ℕ
    cursor = last_key message_id since (take limit (above since rows))

    reached : since ≤ cursor
    reached = last_key-le message_id since limit (above since rows) (
        Ascending-mono message_id since (suc since) _ (omega arith)
          (above-Ascending since n rows a))

map-take-drop {ℓ κ} :
    {A : Type ℓ} {B : Type κ} (f : A → B) (n : ℕ) (xs : List A)
    → map f (take n xs) ++ map f (drop n xs) ≡ map f xs
map-take-drop f n xs =
    sym (map-append f (take n xs) (drop n xs)) ∙ ap (map f) (take-append-drop n xs)

-- In valid tables, paging to the end gives the whole conversation above the cursor, each message
-- once, in order: with a page size above 0, no failure of the driver, and more fuel than there are
-- messages.
pub fetch_history_complete :
    (fuel user peer limit since : ℕ) (s : Session)
    → IsValid s.db
    → ((n : ℕ) → s.fails n ≡ false)
    → 0 < limit
    → length (above since (conversation user peer s.db)) < fuel
    → fetch_history fuel user peer limit since s
      ≡ some (map display (above since (conversation user peer s.db)))
unfolding fetch_history
fetch_history_complete zero user peer limit since s v f p h = absurd (omega arith)
fetch_history_complete (suc fuel) user peer limit since s v f p h =
    rw (list_conversation_since-page user peer since limit s v (f s.calls))
      (elim (Bool-cases (ltb limit (length xs))) [
        | inl more ↦
            rw
              (
                more,
                last_id-display since (take limit xs),
                fetch_history_complete fuel user peer limit cursor (count_call s) v f p
                    (rw next (ground (arith, length-drop limit xs))),
                next,
              )
              (ap some (map-take-drop display limit xs))
        | inr done ↦ rw done (ap (λ ys. some (map display ys)) (take-all limit xs (ground arith)))
      ])
  where
    xs : List MessageRow
    xs = above since (conversation user peer s.db)

    cursor : ℕ
    cursor = last_key message_id since (take limit xs)

    next : above cursor (conversation user peer s.db) ≡ drop limit xs
    next =
        above-next since limit 1 (conversation user peer s.db)
          (select-Ascending message_id _ 1 s.db.messages v.ascending)
