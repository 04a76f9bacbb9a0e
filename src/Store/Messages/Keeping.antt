-- ===== src/Store/Messages/Keeping.antt =====
-- Each message over any calls of message_store.go that change the table of messages.
use onyxchat.Base.{
  ℕ, String, Bool, true, List, [], ◌∷◌, ◌++◌, ◌≡◌, refl, ap, sym, ◌∙◌, ◌⊎◌, inl, inr, Option, none,
  some, arith, Bool-cases,
}
use mathlib.Core.Path.{subst}
use onyxchat.Sql.{update}
use onyxchat.Sql.Laws.{query_row-cases}
use onyxchat.Store.Db.{MessageRow}
use onyxchat.Store.Session.{Session}
use onyxchat.Store.Messages.{create_or_get_existing, mark_read, soft_delete, is_unread, deletable}
use onyxchat.Store.Messages.Validity.{create-db}
use onyxchat.Store.Messages.Invariant.{Change, creates, reads, deletes, change, changes}

-- Some call of the list is this one.
abbrev pub Called : Change → List Change → Type 0
Called c [] = ⊥
Called c (d ∷ cs) = (c ≡ d) ⊎ Called c cs

-- What becomes of a message over calls: nothing but its two times changes, each is set once, no deleted
-- message changes, and only a call by its recipient about its sender reads it, only one by its sender
-- with its id deletes it.
pub record Keeps (cs : List Change) (r r' : MessageRow) : Type 0 where
  pub same : r' ≡ record r { read_at = r'.read_at; deleted_at = r'.deleted_at }
  pub read_once : (r.read_at ≡ none) ⊎ (r'.read_at ≡ r.read_at)
  pub final : (r.deleted_at ≡ none) ⊎ (r' ≡ r)
  pub reader : (r'.read_at ≡ r.read_at) ⊎ Called (reads r.recipient_id r.sender_id) cs
  pub deleter : (r'.deleted_at ≡ r.deleted_at) ⊎ Called (deletes r.id r.sender_id) cs

-- The same of every message of a table, in order; new messages come after.
abbrev pub AllKept : List Change → List MessageRow → List MessageRow → Type 0
AllKept cs [] later = Unit {0}
AllKept cs (r ∷ rows) [] = ⊥
AllKept cs (r ∷ rows) (r' ∷ later) = Keeps cs r r' × AllKept cs rows later

unchanged-Keeps : (cs : List Change) (r : MessageRow) → Keeps cs r r
unchanged-Keeps cs r = record {
  same = refl;
  read_once = inr refl;
  final = inr refl;
  reader = inl refl;
  deleter = inl refl;
}

append-AllKept : (cs : List Change) (rows new : List MessageRow) → AllKept cs rows (rows ++ new)
append-AllKept cs [] new = tt
append-AllKept cs (r ∷ rows) new = (unchanged-Keeps cs r, append-AllKept cs rows new)

unchanged-AllKept : (cs : List Change) (rows : List MessageRow) → AllKept cs rows rows
unchanged-AllKept cs [] = tt
unchanged-AllKept cs (r ∷ rows) = (unchanged-Keeps cs r, unchanged-AllKept cs rows)

read-AllKept :
    (recipient sender now : ℕ) (rows : List MessageRow)
    → AllKept
        (reads recipient sender ∷ [])
        rows
        (update (is_unread recipient sender) (λ r. record r { read_at = some now }) rows)
unfolding update is_unread
read-AllKept recipient sender now [] = tt
read-AllKept recipient sender now (r ∷ rows) = elim (Bool-cases (is_unread recipient sender r)) [
  | inl e ↦ rw e (read-Keeps e, read-AllKept recipient sender now rows)
  | inr e ↦ rw e (unchanged-Keeps _ r, read-AllKept recipient sender now rows)
]
  where
    read-Keeps :
        is_unread recipient sender r ≡ true
        → Keeps (reads recipient sender ∷ []) r (record r { read_at = some now })
    read-Keeps e = record {
      same = refl;
      read_once = inl (ground (arith, e));
      final = inl (ground (arith, e));
      reader = inr (inl (ground (arith, e)));
      deleter = inl refl;
    }

delete-AllKept :
    (mid sender now : ℕ) (rows : List MessageRow)
    → AllKept
        (deletes mid sender ∷ [])
        rows
        (update (deletable mid sender) (λ r. record r { deleted_at = some now }) rows)
unfolding update deletable
delete-AllKept mid sender now [] = tt
delete-AllKept mid sender now (r ∷ rows) = elim (Bool-cases (deletable mid sender r)) [
  | inl e ↦ rw e (delete-Keeps e, delete-AllKept mid sender now rows)
  | inr e ↦ rw e (unchanged-Keeps _ r, delete-AllKept mid sender now rows)
]
  where
    delete-Keeps :
        deletable mid sender r ≡ true
        → Keeps (deletes mid sender ∷ []) r (record r { deleted_at = some now })
    delete-Keeps e = record {
      same = refl;
      read_once = inr refl;
      final = inl (ground (arith, e));
      reader = inl refl;
      deleter = inr (inl (ground (arith, e)));
    }

none_or_same :
    (x y z : Option ℕ) → (x ≡ none) ⊎ (y ≡ x) → (y ≡ none) ⊎ (z ≡ y) → (x ≡ none) ⊎ (z ≡ x)
none_or_same x y z (inl e) l = inl e
none_or_same x y z (inr e) (inl f) = inl (sym e ∙ f)
none_or_same x y z (inr e) (inr f) = inr (f ∙ e)

same_or_Called :
    (c : Change) (cs : List Change) (x y z : Option ℕ) (d d' : Change)
    → d' ≡ d
    → (y ≡ x) ⊎ Called d (c ∷ [])
    → (z ≡ y) ⊎ Called d' cs
    → (z ≡ x) ⊎ Called d (c ∷ cs)
same_or_Called c cs x y z d d' same (inl e) (inl f) = inl (f ∙ e)
same_or_Called c cs x y z d d' same (inr (inl h)) l = inr (inl h)
same_or_Called c cs x y z d d' same (inr (inr h)) l = absurd h
same_or_Called c cs x y z d d' same k (inr h) = inr (inr (subst (λ e. Called e cs) same h))

trans-Keeps :
    (c : Change) (cs : List Change) (r r' r'' : MessageRow)
    → Keeps (c ∷ []) r r'
    → Keeps cs r' r''
    → Keeps (c ∷ cs) r r''
trans-Keeps c cs r r' r'' k l = record {
  same =
      l.same
      ∙ ap (λ (x : MessageRow). record x { read_at = r''.read_at; deleted_at = r''.deleted_at })
          k.same;
  read_once = none_or_same _ _ _ k.read_once l.read_once;
  final = elim k.final [
    | inl e ↦ inl e
    | inr e ↦ elim l.final [
      | inl f ↦ inl (ap (λ (x : MessageRow). x.deleted_at) (sym e) ∙ f)
      | inr f ↦ inr (f ∙ e)
    ]
  ];
  reader =
      same_or_Called c cs _ _ _ _ _
        (rw
          (
            ap (λ (x : MessageRow). x.recipient_id) k.same,
            ap (λ (x : MessageRow). x.sender_id) k.same,
          )
          refl)
        k.reader l.reader;
  deleter =
      same_or_Called c cs _ _ _ _ _
        (rw (ap (λ (x : MessageRow). x.id) k.same, ap (λ (x : MessageRow). x.sender_id) k.same)
          refl)
        k.deleter l.deleter;
}

trans-AllKept :
    (c : Change) (cs : List Change) (rows mid later : List MessageRow)
    → AllKept (c ∷ []) rows mid
    → AllKept cs mid later
    → AllKept (c ∷ cs) rows later
trans-AllKept c cs [] mid later k l = tt
trans-AllKept c cs (r ∷ rows) [] later k l = absurd k
trans-AllKept c cs (r ∷ rows) (r' ∷ mid) [] k l = absurd l
trans-AllKept c cs (r ∷ rows) (r' ∷ mid) (r'' ∷ later) (k, ks) (l, ls) =
    (trans-Keeps c cs r r' r'' k l, trans-AllKept c cs rows mid later ks ls)

mark_read-AllKept :
    (recipient sender : ℕ) (s : Session)
    → AllKept
        (reads recipient sender ∷ [])
        s.db.messages
        (mark_read recipient sender s).1.db.messages
unfolding mark_read
mark_read-AllKept recipient sender s = elim (Bool-cases (s.fails s.calls)) [
  | inl e ↦ rw e (unchanged-AllKept _ s.db.messages)
  | inr e ↦ rw e (read-AllKept recipient sender s.now s.db.messages)
]

soft_delete-AllKept :
    (mid sender : ℕ) (s : Session)
    → AllKept (deletes mid sender ∷ []) s.db.messages (soft_delete mid sender s).1.db.messages
unfolding soft_delete
soft_delete-AllKept mid sender s = elim (Bool-cases (s.fails s.calls)) [
  | inl e ↦ rw e (unchanged-AllKept _ s.db.messages)
  | inr e ↦ elim (query_row-cases (deletable mid sender) s.db.messages) [
    | inl (_, q) ↦ rw (e, q) (unchanged-AllKept _ s.db.messages)
    | inr (r, _, q, _) ↦ rw (e, q) (delete-AllKept mid sender s.now s.db.messages)
  ]
]

create-AllKept :
    (sender recipient : ℕ) (body iv : String) (encrypted : Bool) (client : String) (s : Session)
    → AllKept
        (creates sender recipient body iv encrypted client ∷ [])
        s.db.messages
        (create_or_get_existing sender recipient body iv encrypted client s).1.db.messages
create-AllKept sender recipient body iv encrypted client s =
    elim (create-db sender recipient body iv encrypted client s) [
      | inl (_, e) ↦ rw e (append-AllKept _ s.db.messages _)
      | inr e ↦ rw e (unchanged-AllKept _ s.db.messages)
    ]

change-AllKept :
    (c : Change) (s : Session) → AllKept (c ∷ []) s.db.messages (change c s).db.messages
change-AllKept (creates sender recipient body iv encrypted client) s =
    create-AllKept sender recipient body iv encrypted client s
change-AllKept (reads recipient sender) s = mark_read-AllKept recipient sender s
change-AllKept (deletes mid sender) s = soft_delete-AllKept mid sender s

-- Whatever sends, marks as read and deletions follow one another, failed ones included, no message is
-- lost or moved, and new ones come after; of a message nothing but its times of reading and of deletion
-- ever changes, each is set once, a deleted message changes no more, its time of reading is set only
-- where a call by its recipient for messages of its sender is among them, and its time of deletion only
-- where a call by its sender with its id is.
pub changes-AllKept :
    (cs : List Change) (s : Session) → AllKept cs s.db.messages (changes cs s).db.messages
changes-AllKept [] s = unchanged-AllKept [] s.db.messages
changes-AllKept (c ∷ cs) s =
    trans-AllKept c cs s.db.messages (change c s).db.messages (changes (c ∷ cs) s).db.messages
      (change-AllKept c s) (changes-AllKept cs (change c s))
