-- ===== src/Store/Contacts/Laws.antt =====
-- What the contact lists of contact_store.go promise: who is a contact of whom after a change.
use onyxchat.Base.{
  ℕ, suc, String, Bool, true, false, ◌&&◌, ◌≡◌, ◌≢◌, refl, inl, inr, some, List, [], ◌∷◌, ◌++◌,
  arith, ◌==◌, if◌then◌else◌, Bool-cases,
}
use onyxchat.Sql.{select, delete, exists_row, query_row}
use onyxchat.Sql.Laws.{length-select, query_row-cases, exists_row-append}
use onyxchat.Store.Db.{Db, UserRow, ContactRow}
use onyxchat.Store.Session.{
  Session, run, raise, pure, ◌>>=◌, Result, ok, err, contact_exists, contact_not_found,
}
use onyxchat.Store.Users.{active_name, has_username}
use onyxchat.Store.Contacts.{add_contact, remove_contact, same_pair, insert_contact, delete_contact}
use onyxchat.Store.Messages.{user_exists}

-- `peer` stands on the contact list of `uid`.
abbrev pub listed : ℕ → ℕ → Db → Bool
listed uid peer db = exists_row (same_pair uid peer) db.contacts

-- What adding a contact did, by how it ended.
abbrev pub Adds : ℕ → String → Session → Result (Unit {0}) × Session → Type 0
Adds uid name s (ok _, t) =
    (u : UserRow) × (query_row (active_name name) s.db.users ≡ some u)
    × ((x y : ℕ) → listed x y t.db ≡ (if x == uid && y == u.id then true else listed x y s.db))
Adds uid name s (err e, t) = (t.db ≡ s.db) × (e ≢ contact_exists)

append_pair :
    (uid target x y : ℕ) (cs : List ContactRow)
    → exists_row (same_pair x y) (cs ++ record { user_id = uid; contact_id = target } ∷ [])
      ≡ (if x == uid && y == target then true else exists_row (same_pair x y) cs)
unfolding exists_row
append_pair uid target x y cs = ground (
  arith,
  exists_row-append (same_pair x y) cs (record { user_id = uid; contact_id = target } ∷ []),
)

pair_there :
    (uid target x y : ℕ) (cs : List ContactRow)
    → exists_row (same_pair uid target) cs ≡ true
    → exists_row (same_pair x y) cs
      ≡ (if x == uid && y == target then true else exists_row (same_pair x y) cs)
pair_there uid target x y cs h = ground (arith, same)
  where
    same : x ≡ uid → y ≡ target → exists_row (same_pair x y) cs ≡ true
    same p q = rw (p, q) h

insert-Adds :
    (uid : ℕ) (name : String) (s : Session) (u : UserRow) (calls : ℕ)
    → query_row (active_name name) s.db.users ≡ some u
    → Adds uid name s (run (insert_contact uid u.id) (record s { calls = calls }))
unfolding run insert_contact
insert-Adds uid name s u calls q = elim (Bool-cases (s.fails calls)) [
  | inl down ↦ rw down (refl, λ c. cc)
  | inr up ↦ elim (Bool-cases (uid == u.id)) [
    | inl self ↦ rw (up, self) (refl, λ c. cc)
    | inr other ↦ elim (Bool-cases (listed uid u.id s.db)) [
      | inl there ↦ rw (up, other, there) (u, q, λ x y. pair_there uid u.id x y s.db.contacts there)
      | inr new ↦ elim (Bool-cases (user_exists uid s.db.users && user_exists u.id s.db.users)) [
        | inl known ↦
            rw (up, other, new, known) (u, q, λ x y. append_pair uid u.id x y s.db.contacts)
        | inr unknown ↦ rw (up, other, new, unknown) (refl, λ c. cc)
      ]
    ]
  ]
]

-- A call that succeeds found an active user of that name and put it on the caller's list, and changed
-- no other pair; one that fails changes no table. No call answers `contact_exists`.
pub add_contact-Adds :
    (uid : ℕ) (name : String) (s : Session) → Adds uid name s (add_contact uid name s)
unfolding add_contact
add_contact-Adds uid name s = elim (Bool-cases (s.fails s.calls)) [
  | inl down ↦ rw down (refl, λ c. cc)
  | inr up ↦ elim (query_row-cases (active_name name) s.db.users) [
    | inl (_, q) ↦ rw (up, q) (refl, λ c. cc)
    | inr (u, _, q, _) ↦ rw (up, q) (insert-Adds uid name s u (suc s.calls) q)
  ]
]

-- What removing a contact did, by how it ended.
abbrev pub Removes : ℕ → String → Session → Result (Unit {0}) × Session → Type 0
Removes uid name s (ok _, t) =
    (u : UserRow) × (query_row (has_username name) s.db.users ≡ some u)
    × (listed uid u.id s.db ≡ true)
    × ((x y : ℕ) → listed x y t.db ≡ (if x == uid && y == u.id then false else listed x y s.db))
Removes uid name s (err e, t) = (x y : ℕ) → listed x y t.db ≡ listed x y s.db

delete_pair :
    (uid target x y : ℕ) (cs : List ContactRow)
    → exists_row (same_pair x y) (delete (same_pair uid target) cs)
      ≡ (if x == uid && y == target then false else exists_row (same_pair x y) cs)
unfolding exists_row delete select
delete_pair uid target x y [] = ground arith
delete_pair uid target x y (c ∷ cs) = ground (arith, delete_pair uid target x y cs)

delete_pair_absent :
    (uid target x y : ℕ) (cs : List ContactRow)
    → exists_row (same_pair uid target) cs ≡ false
    → exists_row (same_pair x y) (delete (same_pair uid target) cs) ≡ exists_row (same_pair x y) cs
delete_pair_absent uid target x y cs h = ground (arith, delete_pair uid target x y cs, same)
  where
    same : x ≡ uid → y ≡ target → exists_row (same_pair x y) cs ≡ false
    same p q = rw (p, q) h

delete-Removes :
    (uid : ℕ) (name : String) (s : Session) (u : UserRow) (calls : ℕ)
    → query_row (has_username name) s.db.users ≡ some u
    → Removes uid name s (
        (run (delete_contact uid u.id) >>= λ n. if n == 0 then raise contact_not_found else pure tt)
          (record s { calls = calls }))
unfolding run delete_contact
delete-Removes uid name s u calls q = elim (Bool-cases (s.fails calls)) [
  | inl down ↦ rw down (λ x y. refl)
  | inr up ↦ elim (Bool-cases (listed uid u.id s.db)) [
    | inl there ↦
        rw (up, length-select (same_pair uid u.id) s.db.contacts, there)
          (u, q, there, λ x y. delete_pair uid u.id x y s.db.contacts)
    | inr absent ↦
        rw (up, length-select (same_pair uid u.id) s.db.contacts, absent)
          (λ x y. delete_pair_absent uid u.id x y s.db.contacts absent)
  ]
]

-- A call that succeeds found a user of that name on the caller's list and took it off, and changed no
-- other pair; one that fails changes nobody's list.
pub remove_contact-Removes :
    (uid : ℕ) (name : String) (s : Session) → Removes uid name s (remove_contact uid name s)
unfolding remove_contact
remove_contact-Removes uid name s = elim (Bool-cases (s.fails s.calls)) [
  | inl down ↦ rw down (λ x y. refl)
  | inr up ↦ elim (query_row-cases (has_username name) s.db.users) [
    | inl (_, q) ↦ rw (up, q) (λ x y. refl)
    | inr (u, _, q, _) ↦ rw (up, q) (delete-Removes uid name s u (suc s.calls) q)
  ]
]
