-- ===== src/Store/Messages/Invariant.antt =====
-- The constraints of the table of messages over any calls of message_store.go that change it.
use onyxchat.Base.{ℕ, String, Bool, List, [], ◌∷◌}
use onyxchat.Store.Session.{Session}
use onyxchat.Store.Messages.{create_or_get_existing, mark_read, soft_delete}
use onyxchat.Store.Messages.Validity.{
  IsValid, create-IsValid, mark_read-IsValid, soft_delete-IsValid,
}

-- A call of the store, by any user.
pub data Change : Type 0 where
  creates :
      (sender recipient : ℕ) (body : String) (iv : String) (encrypted : Bool) (client : String)
      → Change
  reads : (recipient sender : ℕ) → Change
  deletes : (mid sender : ℕ) → Change

abbrev pub change : Change → Session → Session
change (creates sender recipient body iv encrypted client) s =
    (create_or_get_existing sender recipient body iv encrypted client s).1
change (reads recipient sender) s = (mark_read recipient sender s).1
change (deletes mid sender) s = (soft_delete mid sender s).1

abbrev pub changes : List Change → Session → Session
changes [] s = s
changes (c ∷ cs) s = changes cs (change c s)

change-IsValid : (c : Change) (s : Session) → IsValid s.db → IsValid (change c s).db
change-IsValid (creates sender recipient body iv encrypted client) s v =
    create-IsValid sender recipient body iv encrypted client s v
change-IsValid (reads recipient sender) s v = mark_read-IsValid recipient sender s v
change-IsValid (deletes mid sender) s v = soft_delete-IsValid mid sender s v

-- Whatever sends, marks as read and deletions follow one another, failed ones included, the table of
-- messages keeps its constraints: the ids are positive and ascend, the next id is above them, and no
-- two messages share a sender and a client message id.
pub changes-IsValid : (cs : List Change) (s : Session) → IsValid s.db → IsValid (changes cs s).db
changes-IsValid [] s v = v
changes-IsValid (c ∷ cs) s v = changes-IsValid cs (change c s) (change-IsValid c s v)
