-- ===== src/Store/Users/Lookup.antt =====
-- Reading one user, by user_store.go and contact_store.go: what is found, and that nothing changes.
use onyxchat.Base.{ℕ, String, ◌≡◌, some, arith, inl, inr}
use onyxchat.Sql.{query_row}
use onyxchat.Sql.Laws.{query_row-cases}
use onyxchat.Store.Db.{UserRow}
use onyxchat.Store.Session.{Session, ok}
use onyxchat.Store.Users.{
  User, active_name, active_id, scan_user, get_user_by_username, get_user_by_id,
}

-- A read leaves the tables and the time.
pub record IsRead (s t : Session) : Type 0 where
  pub db : t.db ≡ s.db
  pub now : t.now ≡ s.now

pub get_user_by_username-IsRead :
    (name : String) (s : Session) → IsRead s (get_user_by_username name s).1
unfolding get_user_by_username
get_user_by_username-IsRead name s = record { db = ground arith; now = ground arith }

pub get_user_by_id-IsRead : (uid : ℕ) (s : Session) → IsRead s (get_user_by_id uid s).1
unfolding get_user_by_id
get_user_by_id-IsRead uid s = record { db = ground arith; now = ground arith }

pub get_user_by_username-found :
    (name : String) (s : Session) (u : User)
    → (get_user_by_username name s).0 ≡ ok u
    → (r : UserRow) × (query_row (active_name name) s.db.users ≡ some r) × (u ≡ scan_user r)
unfolding get_user_by_username
get_user_by_username-found name s u h = elim (query_row-cases (active_name name) s.db.users) [
  | inl (_, q) ↦ ground arith
  | inr (r, _, q, _) ↦ (r, q, ground arith)
]

pub get_user_by_id-found :
    (uid : ℕ) (s : Session) (u : User)
    → (get_user_by_id uid s).0 ≡ ok u
    → (r : UserRow) × (query_row (active_id uid) s.db.users ≡ some r) × (u ≡ scan_user r)
unfolding get_user_by_id
get_user_by_id-found uid s u h = elim (query_row-cases (active_id uid) s.db.users) [
  | inl (_, q) ↦ ground arith
  | inr (r, _, q, _) ↦ (r, q, ground arith)
]
