-- ===== src/Store/Messages/Idempotence.antt =====
-- `CreateOrGetExisting` of message_store.go: a send is repeated without effect.
use onyxchat.Base.{
  ℕ, suc, String, Bool, true, false, ◌≡◌, Option, some, arith, eq_iff, ap, ◌∙◌, inl, inr,
}
use onyxchat.Sql.{query_row}
use onyxchat.Sql.Laws.{query_row-cases, query_row-append_new}
use onyxchat.Store.Db.{MessageRow, Db}
use onyxchat.Store.Session.{Session, ok}
use onyxchat.Store.Messages.{Message, create_or_get_existing, same_key, scan_msg, new_message}

-- What the store holds under a sender and a client's id.
abbrev pub stored : ℕ → String → Session → Option MessageRow
stored sender client s = query_row (same_key sender client) s.db.messages

module _ (sender recipient : ℕ) (body iv : String) (encrypted : Bool) (client : String)
    (s : Session) where
  new_message-same_key :
      same_key sender client (new_message s.now s.db sender recipient body iv encrypted client)
      ≡ true
  unfolding same_key
  new_message-same_key = ground (arith, eq_iff client client)

  -- A call that returns a message returns the one that the store now holds under its key.
  pub create-stored :
      (m : Message) (b : Bool)
      → (create_or_get_existing sender recipient body iv encrypted client s).0 ≡ ok (m, b)
      → (r : MessageRow) × (stored sender client
            (create_or_get_existing sender recipient body iv encrypted client s).1
          ≡ some r)
        × (m ≡ scan_msg r)
  unfolding create_or_get_existing
  create-stored m b h = elim (query_row-cases (same_key sender client) s.db.messages) [
    | inl (none_yet, e) ↦ (
      new_message s.now s.db sender recipient body iv encrypted client,
      ground (
        arith,
        query_row-append_new (same_key sender client) s.db.messages
            (new_message s.now s.db sender recipient body iv encrypted client),
        new_message-same_key,
      ),
      ground arith,
    )
    | inr (r, some_yet, e, k) ↦ (r, ground arith, ground arith)
  ]

-- A key that is taken: the stored message comes back, and only the driver's count of calls moves.
pub create-existing :
    (sender recipient : ℕ) (body iv : String) (encrypted : Bool) (client : String) (s : Session)
    (r : MessageRow)
    → stored sender client s ≡ some r
    → s.fails s.calls ≡ false
    → s.fails (suc s.calls) ≡ false
    → create_or_get_existing sender recipient body iv encrypted client s
      ≡ (ok (scan_msg r, false), record s { calls = suc (suc s.calls) })
unfolding create_or_get_existing
create-existing sender recipient body iv encrypted client s r h f g =
    elim (query_row-cases (same_key sender client) s.db.messages) [
      | inl (none_yet, e) ↦ ground arith
      | inr (x, some_yet, e, k) ↦ ground arith
    ]

-- Once a send has returned a message, a send under the same sender and client id, to whatever
-- recipient and with whatever body, that meets the same tables and no failure of the driver
-- returns that message as not inserted, and leaves the tables as they are.
pub create-retry :
    (sender recipient recipient' : ℕ) (body iv body' iv' : String) (encrypted encrypted' : Bool)
    (client : String) (s t : Session) (m : Message) (b : Bool)
    → (create_or_get_existing sender recipient body iv encrypted client s).0 ≡ ok (m, b)
    → t.db ≡ (create_or_get_existing sender recipient body iv encrypted client s).1.db
    → t.fails t.calls ≡ false
    → t.fails (suc t.calls) ≡ false
    → create_or_get_existing sender recipient' body' iv' encrypted' client t
      ≡ (ok (m, false), record t { calls = suc (suc t.calls) })
create-retry sender recipient recipient' body iv body' iv' encrypted encrypted' client s t m b h
      same f g =
    let (r, held, e) = create-stored sender recipient body iv encrypted client s m b h in
    rw e (
      create-existing sender recipient' body' iv' encrypted' client t r
        (ap (λ (db : Db). query_row (same_key sender client) db.messages) same ∙ held) f g)
