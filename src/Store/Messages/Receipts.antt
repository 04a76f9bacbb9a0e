-- ===== src/Store/Messages/Receipts.antt =====
-- `MarkRead` of message_store.go: read receipts.
use onyxchat.Base.{ℕ, true, false, ◌≡◌, ◌≢◌, refl, ap, ◌∙◌, some, List, [], arith, map, ◌⊎◌}
use onyxchat.Sql.{select}
use onyxchat.Sql.Laws.{select-update_none, update-none, select-update_apart}
use onyxchat.Store.Db.{MessageRow, Db}
use onyxchat.Store.Session.{Session, ok, count_call}
use onyxchat.Store.Messages.{mark_read, is_unread}

-- The messages that `recipient` has not read yet from `sender`.
abbrev pub unread : ℕ → ℕ → Db → List MessageRow
unread recipient sender db = select (is_unread recipient sender) db.messages

is_unread_read :
    (recipient sender : ℕ) (now : ℕ) (r : MessageRow)
    → is_unread recipient sender (record r { read_at = some now }) ≡ false
unfolding is_unread
is_unread_read recipient sender now r = ground arith

is_unread_pair :
    (recipient sender recipient' sender' : ℕ) (r : MessageRow)
    → (recipient ≢ recipient') ⊎ (sender ≢ sender')
    → is_unread recipient sender r ≡ true
    → is_unread recipient' sender' r ≡ false
unfolding is_unread
is_unread_pair recipient sender recipient' sender' r h e = ground arith

module _ (recipient sender : ℕ) (s : Session) (f : s.fails s.calls ≡ false) where
  -- When the driver does not fail, the ids that come back are those of the messages that were
  -- unread, in their order, and none of the pair is unread afterwards.
  pub mark_read-exact :
      ((mark_read recipient sender s).0 ≡ ok (map (λ r. r.id) (unread recipient sender s.db)))
      × (unread recipient sender (mark_read recipient sender s).1.db ≡ [])
  unfolding mark_read
  mark_read-exact = (
    rw f,
    rw f (
        select-update_none (is_unread recipient sender) _ s.db.messages
          (is_unread_read recipient sender s.now)),
  )

  -- When the driver does not fail, what another pair of a reader and a sender has unread stays the same.
  pub mark_read-other :
      (recipient' sender' : ℕ)
      → (recipient ≢ recipient') ⊎ (sender ≢ sender')
      → unread recipient' sender' (mark_read recipient sender s).1.db
        ≡ unread recipient' sender' s.db
  unfolding mark_read
  mark_read-other recipient' sender' apart = rw f (
      select-update_apart (is_unread recipient sender) (is_unread recipient' sender') _
        s.db.messages (λ r. is_unread_pair recipient sender recipient' sender' r apart)
        (λ r _. is_unread_read recipient' sender' s.now r))

-- When nothing is unread and the driver does not fail, a call reports nothing and changes no table.
pub mark_read_none :
    (recipient sender : ℕ) (s : Session)
    → unread recipient sender s.db ≡ []
    → s.fails s.calls ≡ false
    → mark_read recipient sender s ≡ (ok [], count_call s)
unfolding mark_read
mark_read_none recipient sender s h f =
    rw
      (
        f,
        h,
        update-none (is_unread recipient sender) (λ r. record r { read_at = some s.now })
            s.db.messages h,
      )
      refl

-- After a first call whose statement the driver ran, a second one on the tables that it left
-- reports nothing and changes no table: no message is reported twice.
pub mark_read_twice :
    (recipient sender : ℕ) (s t : Session)
    → s.fails s.calls ≡ false
    → t.db ≡ (mark_read recipient sender s).1.db
    → t.fails t.calls ≡ false
    → mark_read recipient sender t ≡ (ok [], count_call t)
mark_read_twice recipient sender s t f same g =
    mark_read_none recipient sender t
      (ap (unread recipient sender) same ∙ (mark_read-exact recipient sender s f).1) g
