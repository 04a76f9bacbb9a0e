-- ===== src/Store/Messages/Deletion.antt =====
-- `SoftDelete` of message_store.go, and what readers see of a deleted message.
use onyxchat.Base.{ℕ, true, false, ◌≡◌, refl, ap, ◌∙◌, some, none, arith, ◌==◌, inl, inr}
use onyxchat.Sql.{query_row, update}
use onyxchat.Sql.Laws.{query_row-cases, query_row-update, query_row-update-none}
use onyxchat.Sql.Order.{query_row_by_key}
use onyxchat.Store.Db.{MessageRow, Db}
use onyxchat.Store.Session.{Session, ok, err, count_call, message_not_found}
use onyxchat.Store.Messages.{Message, soft_delete, deletable, get_by_id, scan_msg}
use onyxchat.Store.Messages.Validity.{IsValid, message_id}

-- A deletion that goes through was asked for by the sender of the message with that id, which was
-- not deleted before, and returns that message with the time of deletion.
pub soft_delete-sender :
    (mid sender : ℕ) (s : Session) (m : Message)
    → (soft_delete mid sender s).0 ≡ ok m
    → (r : MessageRow) × (query_row (deletable mid sender) s.db.messages ≡ some r)
      × (m.id ≡ mid)
      × (m.sender_id ≡ sender)
      × (r.deleted_at ≡ none)
      × (m ≡ scan_msg (record r { deleted_at = some s.now }))
unfolding soft_delete
soft_delete-sender mid sender s m h = elim (query_row-cases (deletable mid sender) s.db.messages) [
  | inl (_, q) ↦ ground arith
  | inr (r, _, q, d) ↦ (r, q, ground arith, ground arith, ground arith, ground arith)
]

succeeded :
    (mid sender : ℕ) (s : Session) (m : Message)
    → (soft_delete mid sender s).0 ≡ ok m
    → s.fails s.calls ≡ false
unfolding soft_delete
succeeded mid sender s m h = ground arith

-- A deletion that goes through sets the time of deletion of the messages that it was asked for, and
-- changes nothing else in the tables.
pub soft_delete-marks :
    (mid sender : ℕ) (s : Session) (m : Message)
    → (soft_delete mid sender s).0 ≡ ok m
    → (r : MessageRow) × (query_row (deletable mid sender) s.db.messages ≡ some r)
      × ((soft_delete mid sender s).1.db ≡ record s.db {
        messages =
            update (deletable mid sender) (λ x. record x { deleted_at = some s.now }) s.db.messages;
      })
      × (m.id ≡ mid)
      × (m.sender_id ≡ sender)
      × (m.recipient_id ≡ r.recipient_id)
unfolding soft_delete scan_msg
soft_delete-marks mid sender s m h =
    let (r, q, same, own, _, e) = soft_delete-sender mid sender s m h in
    (r, q, rw (succeeded mid sender s m h, q) refl, same, own, rw e refl)

-- A request for a message that is not there, is deleted already or belongs to another sender is
-- answered `message_not_found` and changes no table.
pub soft_delete-refused :
    (mid sender : ℕ) (s : Session)
    → query_row (deletable mid sender) s.db.messages ≡ none
    → s.fails s.calls ≡ false
    → soft_delete mid sender s ≡ (err message_not_found, count_call s)
unfolding soft_delete
soft_delete-refused mid sender s h f = rw (f, h)

deletable_by_id : (mid sender : ℕ) (r : MessageRow) → deletable mid sender r ≡ true → r.id ≡ mid
unfolding deletable
deletable_by_id mid sender r h = ground arith

-- The row that a deletion leaves under its id.
deleted_row :
    (mid sender : ℕ) (s : Session) (m : Message) (r : MessageRow)
    → IsValid s.db
    → s.fails s.calls ≡ false
    → query_row (deletable mid sender) s.db.messages ≡ some r
    → query_row (λ x. x.id == mid) (soft_delete mid sender s).1.db.messages
      ≡ some (record r { deleted_at = some s.now })
unfolding soft_delete
deleted_row mid sender s m r v f q =
    rw (f, q)
      (query_row-update (deletable mid sender) (λ x. x.id == mid)
          (λ x. record x { deleted_at = some s.now }) s.db.messages (λ x. refl)
        ∙ rw
            (query_row_by_key message_id (deletable mid sender) mid 1 s.db.messages r v.ascending
              (deletable_by_id mid sender) q)
            (ground (arith, query_row-cases (deletable mid sender) s.db.messages)))

show_deleted :
    (mid now : ℕ) (t : Session) (m : Message) (r : MessageRow)
    → query_row (λ x. x.id == mid) t.db.messages ≡ some (record r { deleted_at = some now })
    → m ≡ scan_msg (record r { deleted_at = some now })
    → t.fails t.calls ≡ false
    → get_by_id mid t ≡ (ok (record m { body = ""; iv = "" }), count_call t)
unfolding get_by_id scan_msg
show_deleted mid now t m r q e f = rw (f, q) (rw e refl)

-- In valid tables, after a deletion went through, reading the message by its id from the tables that
-- it left, when the driver does not fail, shows the message as the deletion returned it, but for an
-- empty body and an empty iv.
pub soft_delete-hidden :
    (mid sender : ℕ) (s t : Session) (m : Message)
    → IsValid s.db
    → (soft_delete mid sender s).0 ≡ ok m
    → t.db ≡ (soft_delete mid sender s).1.db
    → t.fails t.calls ≡ false
    → get_by_id mid t ≡ (ok (record m { body = ""; iv = "" }), count_call t)
soft_delete-hidden mid sender s t m v h same f =
    let (r, q, _, _, _, e) = soft_delete-sender mid sender s m h in
    let found = deleted_row mid sender s m r v (succeeded mid sender s m h) q in
    show_deleted mid s.now t m r
      (ap (λ (db : Db). query_row (λ x. x.id == mid) db.messages) same ∙ found) e f

deleted_not_deletable :
    (mid sender now : ℕ) (r : MessageRow)
    → deletable mid sender (record r { deleted_at = some now }) ≡ false
unfolding deletable
deleted_not_deletable mid sender now r = ground arith

-- After a deletion went through, a second one on the tables that it left, when the driver does not
-- fail, is answered `message_not_found` and changes no table.
pub soft_delete_twice :
    (mid sender : ℕ) (s t : Session) (m : Message)
    → (soft_delete mid sender s).0 ≡ ok m
    → t.db ≡ (soft_delete mid sender s).1.db
    → t.fails t.calls ≡ false
    → soft_delete mid sender t ≡ (err message_not_found, count_call t)
soft_delete_twice mid sender s t m h same f = soft_delete-refused mid sender t (rw same none_left) f
  where
    none_left : query_row (deletable mid sender) (soft_delete mid sender s).1.db.messages ≡ none
    none_left =
        let (r, q, _, _, _, _) = soft_delete-sender mid sender s m h in
        unfold soft_delete in
        rw (succeeded mid sender s m h, q)
          (query_row-update-none (deletable mid sender) (λ x. record x { deleted_at = some s.now })
            s.db.messages (deleted_not_deletable mid sender s.now))
