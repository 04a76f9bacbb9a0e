-- ===== src/Store/Contacts.antt =====
-- internal/store/contact_store.go: contact lists.
pub mod Laws
use onyxchat.Base.{
  ℕ, suc, String, str_eq, Bool, true, false, not, ◌&&◌, ◌||◌, Option, none, some, List, [], ◌∷◌,
  ◌++◌, map, ◌==◌, if◌then◌else◌, is_null, length,
}
use onyxchat.Sql.{select, delete, exists_row, query_row, sort_by}
use onyxchat.Store.Db.{Db, UserRow, ContactRow}
use onyxchat.Store.Session.{
  M, Session, Statement, Result, ok, err, Error, no_rows, db_error, user_not_found,
  contact_not_found, run, read_only, one_row, pure, raise, ◌>>=◌, ◌>>◌,
}
use onyxchat.Store.Messages.{user_exists}
use onyxchat.Store.Users.{
  active_name, has_username, fetch, user_not_found_if_no_rows, UserName, user_name,
}

pub record Contact : Type 0 where
  pub id : ℕ
  pub username : String
  pub online : Bool

-- WHERE user_id = $1 AND contact_id = $2
abbrev pub same_pair : ℕ → ℕ → ContactRow → Bool
same_pair uid cid c = c.user_id == uid && c.contact_id == cid

-- INSERT … ON CONFLICT DO NOTHING: the pair is the primary key, both users must exist, and a row
-- with user_id = contact_id breaks the CHECK, which is tested before the key.
unfoldable pub insert_contact : ℕ → ℕ → Statement (Unit {0})
unfolding exists_row
insert_contact uid cid now db =
    if uid == cid
    then err db_error
    else if exists_row (same_pair uid cid) db.contacts
    then ok (tt, db)
    else if user_exists uid db.users && user_exists cid db.users
    then ok (
      tt,
      record db { contacts = db.contacts ++ record { user_id = uid; contact_id = cid } ∷ [] },
    )
    else err db_error

unfoldable pub add_contact : ℕ → String → M (Unit {0})
unfolding run query_row active_name insert_contact
add_contact uid name = do
  target ← fetch user_not_found_if_no_rows (λ db. query_row (active_name name) db.users)
  run (insert_contact uid target.id)

abbrev pub contact_not_found_if_no_rows : Error → Error
contact_not_found_if_no_rows no_rows = contact_not_found
contact_not_found_if_no_rows e = e

-- The result is RowsAffected.
unfoldable pub delete_contact : ℕ → ℕ → Statement ℕ
unfolding select delete
delete_contact uid cid now db = ok (
  length (select (same_pair uid cid) db.contacts),
  record db { contacts = delete (same_pair uid cid) db.contacts },
)

unfoldable pub remove_contact : ℕ → String → M (Unit {0})
unfolding run query_row delete_contact
remove_contact uid name = do
  target ← fetch contact_not_found_if_no_rows (λ db. query_row (has_username name) db.users)
  n ← run (delete_contact uid target.id)
  if n == 0 then raise contact_not_found else pure tt

unfoldable pub is_contact : ℕ → ℕ → M Bool
unfolding run exists_row
is_contact uid peer = run (read_only λ db. ok (exists_row (same_pair uid peer) db.contacts))

-- FROM contacts c JOIN users u ON u.id = …: the rows of users that are joined to each row of
-- contacts, in turn.
unfoldable pub join_users :
    (ContactRow → ℕ) → (UserRow → Bool) → List ContactRow → List UserRow → List UserRow
unfolding select
join_users column p [] users = []
join_users column p (c ∷ cs) users =
    select (λ u. u.id == column c && p u) users ++ join_users column p cs users

-- The rows of contacts that are joined to some row of users; an id is the id of one user at most.
unfoldable pub semijoin :
    (ContactRow → ℕ) → (UserRow → Bool) → List ContactRow → List UserRow → List ContactRow
unfolding select exists_row
semijoin column p cs users = select (λ c. exists_row (λ u. u.id == column c && p u) users) cs

abbrev pub to_contact : UserRow → Contact
to_contact u = record { id = u.id; username = u.username; online = false }

unfoldable pub list_contacts : (String → String → Bool) → ℕ → M (List Contact)
unfolding run select join_users sort_by
list_contacts before uid = run (
    read_only λ db. ok (
      map to_contact (
        sort_by (λ u v. before u.username v.username)
          (join_users (λ c. c.contact_id) (λ u. is_null u.deleted_at)
            (select (λ c. c.user_id == uid) db.contacts) db.users))))

unfoldable pub get_contact_follower_ids : ℕ → M (List ℕ)
unfolding run select semijoin
get_contact_follower_ids uid = run (
    read_only λ db. ok (
      map (λ c. c.user_id)
        (semijoin (λ c. c.user_id) (λ u. is_null u.deleted_at)
          (select (λ c. c.contact_id == uid) db.contacts) db.users)))
