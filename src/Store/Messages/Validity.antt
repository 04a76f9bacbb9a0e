-- ===== src/Store/Messages/Validity.antt =====
-- What the constraints of the table `messages` promise, and that every statement keeps it.
use onyxchat.Base.{
  ℕ, suc, ◌≤◌, String, Bool, false, ◌≡◌, refl, Option, some, none, List, [], ◌∷◌, ◌++◌, arith,
  eq_iff, ◌∙◌, ◌⊎◌, inl, inr, Bool-cases, ◌||◌,
}
use onyxchat.Sql.{update, exists_row}
use onyxchat.Sql.Laws.{exists_row-update, exists_row-append, query_row-cases}
use onyxchat.Sql.Order.{
  Ascending, Below, update-Ascending, update-Below, append-Ascending, append-Below, Below-mono,
}
use onyxchat.Store.Db.{MessageRow, Db}
use onyxchat.Store.Session.{Session}
use onyxchat.Store.Messages.{
  create_or_get_existing, same_key, new_message, is_unread, mark_read, deletable, soft_delete,
}

abbrev pub message_id : MessageRow → ℕ
message_id r = r.id

-- Some row has this sender and this client id; a NULL collides with nothing.
abbrev pub taken : ℕ → Option String → List MessageRow → Bool
taken sender none rows = false
taken sender (some client) rows = exists_row (same_key sender client) rows

abbrev pub collides : MessageRow → List MessageRow → Bool
collides r rows = taken r.sender_id r.client_message_id rows

-- No two rows share a sender and a client id: the index messages_sender_client_msg_uniq.
abbrev pub DistinctKeys : List MessageRow → Type 0
DistinctKeys [] = Unit {0}
DistinctKeys (r ∷ rows) = (collides r rows ≡ false) × DistinctKeys rows

-- Ids are positive, rise in the order of insertion and stay below the sequence.
pub record IsValid (db : Db) : Type 0 where
  pub ascending : Ascending message_id 1 db.messages
  pub below : Below message_id db.next_message db.messages
  pub positive : 1 ≤ db.next_message
  pub distinct : DistinctKeys db.messages

-- An update that leaves the sender and the client id of every row.
pub record KeepsKey (f : MessageRow → MessageRow) : Type 0 where
  pub same_id : (r : MessageRow) → (f r).id ≡ r.id
  pub same_sender : (r : MessageRow) → (f r).sender_id ≡ r.sender_id
  pub same_client : (r : MessageRow) → (f r).client_message_id ≡ r.client_message_id

module _ (p : MessageRow → Bool) (f : MessageRow → MessageRow) (k : KeepsKey f) where
  same_key-kept :
      (sender : ℕ) (client : String) (r : MessageRow)
      → same_key sender client (f r) ≡ same_key sender client r
  unfolding same_key
  same_key-kept sender client r = rw (k.same_sender r, k.same_client r)

  taken-update :
      (sender : ℕ) (client : Option String) (rows : List MessageRow)
      → taken sender client (update p f rows) ≡ taken sender client rows
  taken-update sender none rows = refl
  taken-update sender (some client) rows =
      exists_row-update (same_key sender client) p f rows (same_key-kept sender client)

  update-DistinctKeys :
      (rows : List MessageRow) → DistinctKeys rows → DistinctKeys (update p f rows)
  unfolding update
  update-DistinctKeys [] d = tt
  update-DistinctKeys (r ∷ rows) d = elim (Bool-cases (p r)) [
    | inl e ↦ rw e (
      rw (k.same_sender r, k.same_client r)
          (taken-update r.sender_id r.client_message_id rows ∙ d.0),
      update-DistinctKeys rows d.1,
    )
    | inr e ↦
        rw e (taken-update r.sender_id r.client_message_id rows ∙ d.0, update-DistinctKeys rows d.1)
  ]

  -- An UPDATE that keeps ids and keys keeps the constraints.
  pub update-IsValid :
      (db : Db) → IsValid db → IsValid (record db { messages = update p f db.messages })
  update-IsValid db v = record {
    ascending = update-Ascending message_id p f 1 db.messages k.same_id v.ascending;
    below = update-Below message_id p f db.next_message db.messages k.same_id v.below;
    positive = v.positive;
    distinct = update-DistinctKeys db.messages v.distinct;
  }

-- A key that one row has and another has not tells the two apart both ways.
same_key-apart :
    (r x : MessageRow) (client : String)
    → r.client_message_id ≡ some client
    → same_key r.sender_id client x ≡ false
    → collides x (r ∷ []) ≡ false
unfolding same_key exists_row
same_key-apart r x client e h = go x.client_message_id refl
  where
    go : (c : Option String) → x.client_message_id ≡ c → taken x.sender_id c (r ∷ []) ≡ false
    go none _ = refl
    go (some other) q = ground (arith, eq_iff client other, eq_iff other client)

taken-append :
    (sender : ℕ) (client : Option String) (xs ys : List MessageRow)
    → taken sender client (xs ++ ys) ≡ (taken sender client xs || taken sender client ys)
taken-append sender none xs ys = refl
taken-append sender (some client) xs ys = exists_row-append (same_key sender client) xs ys

-- A new row with a fresh key does not collide with the rows before it.
append-DistinctKeys :
    (rows : List MessageRow) (r : MessageRow) (client : String)
    → r.client_message_id ≡ some client
    → exists_row (same_key r.sender_id client) rows ≡ false
    → DistinctKeys rows
    → DistinctKeys (rows ++ r ∷ [])
unfolding exists_row same_key
append-DistinctKeys [] r client e h d = (ground arith, tt)
append-DistinctKeys (x ∷ rows) r client e h d = (
  ground (
    arith,
    taken-append x.sender_id x.client_message_id rows (r ∷ []),
    same_key-apart r x client e,
  ),
  append-DistinctKeys rows r client e (ground arith) d.1,
)

module _ (sender recipient : ℕ) (body iv : String) (encrypted : Bool) (client : String) where
  abbrev pub inserted : ℕ → Db → Db
  inserted now db = record db {
    messages = db.messages ++ new_message now db sender recipient body iv encrypted client ∷ [];
    next_message = suc db.next_message;
  }

  inserted-IsValid :
      (now : ℕ) (db : Db)
      → exists_row (same_key sender client) db.messages ≡ false
      → IsValid db
      → IsValid (inserted now db)
  inserted-IsValid now db fresh v = record {
    ascending = append-Ascending message_id 1 db.messages row v.ascending v.below v.positive;
    below =
        append-Below message_id (suc db.next_message) db.messages row
          (Below-mono message_id db.next_message (suc db.next_message) db.messages (omega arith)
            v.below)
          (omega arith);
    positive = omega arith;
    distinct = append-DistinctKeys db.messages row client refl fresh v.distinct;
  }
    where
      row : MessageRow
      row = new_message now db sender recipient body iv encrypted client

  -- A send inserts one row with a fresh key, or leaves the tables as they are.
  pub create-db :
      (s : Session)
      → ((exists_row (same_key sender client) s.db.messages ≡ false)
          × ((create_or_get_existing sender recipient body iv encrypted client s).1.db
              ≡ inserted s.now s.db))
        ⊎ ((create_or_get_existing sender recipient body iv encrypted client s).1.db ≡ s.db)
  unfolding create_or_get_existing
  create-db s = ground arith

  -- A send keeps the constraints of the table of messages, whether it inserts, finds its message or
  -- fails.
  pub create-IsValid :
      (s : Session)
      → IsValid s.db
      → IsValid (create_or_get_existing sender recipient body iv encrypted client s).1.db
  create-IsValid s v = elim (create-db s) [
    | inl (fresh, e) ↦ rw e (inserted-IsValid s.now s.db fresh v)
    | inr e ↦ rw e v
  ]

read_KeepsKey : (now : ℕ) → KeepsKey (λ r. record r { read_at = some now })
read_KeepsKey now = record { same_id = λ r. refl; same_sender = λ r. refl; same_client = λ r. refl }

deleted_KeepsKey : (now : ℕ) → KeepsKey (λ r. record r { deleted_at = some now })
deleted_KeepsKey now = record {
  same_id = λ r. refl;
  same_sender = λ r. refl;
  same_client = λ r. refl;
}

-- Marking messages read keeps the constraints of the table of messages.
pub mark_read-IsValid :
    (recipient sender : ℕ) (s : Session)
    → IsValid s.db
    → IsValid (mark_read recipient sender s).1.db
unfolding mark_read
mark_read-IsValid recipient sender s v = elim (Bool-cases (s.fails s.calls)) [
  | inl e ↦ rw e v
  | inr e ↦ rw e (update-IsValid (is_unread recipient sender) _ (read_KeepsKey s.now) s.db v)
]

-- Deleting a message keeps the constraints of the table of messages.
pub soft_delete-IsValid :
    (mid sender : ℕ) (s : Session) → IsValid s.db → IsValid (soft_delete mid sender s).1.db
unfolding soft_delete
soft_delete-IsValid mid sender s v = elim (Bool-cases (s.fails s.calls)) [
  | inl e ↦ rw e v
  | inr e ↦ elim (query_row-cases (deletable mid sender) s.db.messages) [
    | inl (_, q) ↦ rw (e, q) v
    | inr (r, _, q, _) ↦
        rw (e, q) (update-IsValid (deletable mid sender) _ (deleted_KeepsKey s.now) s.db v)
  ]
]
