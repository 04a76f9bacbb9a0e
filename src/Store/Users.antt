-- ===== src/Store/Users.antt =====
-- internal/store/user_store.go: users, their keys and push tokens, and registration by an invite.
pub mod Registration
pub mod Codes
pub mod Lookup
use onyxchat.Base.{
  ℕ, suc, ◌+◌, String, str_eq, Bool, true, false, not, ◌&&◌, ◌||◌, Option, none, some, List, [],
  ◌∷◌, ◌++◌, map, ◌==◌, ltb, if◌then◌else◌, is_null, coalesce, length, take,
}
use onyxchat.Sql.{select, update, exists_row, query_row, sort_by}
use onyxchat.Store.Db.{Db, UserRow, InviteRow}
use onyxchat.Store.Session.{
  M, Session, Statement, Result, ok, err, Error, no_rows, db_error, unique_violation,
  user_not_found, username_taken, invalid_invite_code, run, read_only, one_row, on_error, pure,
  raise, transaction, ◌>>=◌, ◌>>◌,
}

pub record User : Type 0 where
  pub id : ℕ
  pub username : String
  pub password_hash : String
  pub public_key : String

-- Columns id, username, password_hash, COALESCE(public_key, '').
abbrev pub scan_user : UserRow → User
scan_user u = record {
  id = u.id;
  username = u.username;
  password_hash = u.password_hash;
  public_key = coalesce u.public_key "";
}

-- WHERE username = $1 AND deleted_at IS NULL
unfoldable pub active_name : String → UserRow → Bool
active_name name u = str_eq u.username name && is_null u.deleted_at

-- WHERE id = $1 AND deleted_at IS NULL
unfoldable pub active_id : ℕ → UserRow → Bool
active_id uid u = u.id == uid && is_null u.deleted_at

abbrev pub user_not_found_if_no_rows : Error → Error
user_not_found_if_no_rows no_rows = user_not_found
user_not_found_if_no_rows e = e

-- A read of one row, whose absence is an error of the store.
abbrev pub fetch {ℓ} : {A : Type ℓ} → (Error → Error) → (Db → Option A) → M A
fetch translate query s =
    let (r, s') = run (read_only λ db. one_row (query db)) s in (on_error translate r, s')

unfoldable pub get_user_by_username : String → M User
unfolding run query_row active_name
get_user_by_username name =
    fetch user_not_found_if_no_rows (λ db. query_row (active_name name) db.users) >>= λ u.
    pure (scan_user u)

unfoldable pub get_by_username : String → M User
unfolding get_user_by_username
get_by_username name = get_user_by_username name

-- contact_store.go
unfoldable pub get_user_by_id : ℕ → M User
unfolding run query_row active_id
get_user_by_id uid =
    fetch user_not_found_if_no_rows (λ db. query_row (active_id uid) db.users) >>= λ u.
    pure (scan_user u)

abbrev pub new_user : Db → String → String → UserRow
new_user db name hash = record {
  id = db.next_user;
  username = name;
  password_hash = hash;
  public_key = none;
  push_token = none;
  display_name = none;
  deleted_at = none;
}

abbrev pub has_username : String → UserRow → Bool
has_username name u = str_eq u.username name

-- INSERT INTO users (username, password_hash) VALUES ($1, $2) RETURNING id; names are unique.
unfoldable pub insert_user : String → String → Statement ℕ
unfolding exists_row
insert_user name hash now db =
    if exists_row (has_username name) db.users
    then err unique_violation
    else ok (
      db.next_user,
      record db { users = db.users ++ new_user db name hash ∷ []; next_user = suc db.next_user },
    )

unfoldable pub create_user : String → String → M User
unfolding run insert_user
create_user name hash = do
  uid ← run (insert_user name hash)
  pure (record { id = uid; username = name; password_hash = hash; public_key = "" })

-- used_by IS NULL AND (expires_at IS NULL OR expires_at > NOW()), of the row with this code
unfoldable pub usable : ℕ → String → InviteRow → Bool
usable now code i =
    str_eq i.code code
    && is_null i.used_by
    && (elim i.expires_at [ none ↦ true | some t ↦ ltb now t ])

abbrev pub use_invite : ℕ → String → InviteRow → InviteRow
use_invite now name i = record i { used_by = some name; used_at = some now }

-- The result is RowsAffected.
unfoldable pub consume_invite : String → String → Statement ℕ
unfolding usable select update
consume_invite code name now db = ok (
  length (select (usable now code) db.invites),
  record db { invites = update (usable now code) (use_invite now name) db.invites },
)

abbrev pub username_taken_if_unique : Error → Error
username_taken_if_unique unique_violation = username_taken
username_taken_if_unique e = e

abbrev pub insert_or_taken : String → String → M ℕ
insert_or_taken name hash s =
    let (r, s') = run (insert_user name hash) s in (on_error username_taken_if_unique r, s')

-- The body of the transaction.
abbrev pub register_body : String → String → String → M User
register_body code name hash = do
  n ← run (consume_invite code name)
  if n == 0 then raise invalid_invite_code else do
    uid ← insert_or_taken name hash
    pure (record { id = uid; username = name; password_hash = hash; public_key = "" })

unfoldable pub register_with_invite : String → String → String → M User
unfolding transaction run consume_invite insert_user
register_with_invite code name hash = transaction (register_body code name hash)

-- RowsAffected of 0 is the only error that is not the driver's.
unfoldable pub consume_invite_code : String → String → M (Unit {0})
unfolding run consume_invite
consume_invite_code code name = do
  n ← run (consume_invite code name)
  if n == 0 then raise invalid_invite_code else pure tt

pub record InviteCode : Type 0 where
  pub id : ℕ
  pub code : String
  pub used_by : Option String
  pub expires_at : Option ℕ

-- No row is no error here.
unfoldable pub get_invite_code : String → M (Option InviteCode)
unfolding run query_row usable
get_invite_code code = run λ now db. ok (
  elim (query_row (usable now code) db.invites) [
    | none ↦ none
    | some i ↦
        some (record { id = i.id; code = i.code; used_by = i.used_by; expires_at = i.expires_at })
  ],
  db,
)

-- UPDATE users SET … WHERE id = $2, with no look at deleted_at
abbrev pub update_user : ℕ → (UserRow → UserRow) → M (Unit {0})
update_user uid f =
    run λ now db. ok (tt, record db { users = update (λ u. u.id == uid) f db.users })

unfoldable pub set_public_key : ℕ → String → M (Unit {0})
unfolding run update
set_public_key uid key = update_user uid λ u. record u { public_key = some key }

unfoldable pub set_push_token : ℕ → String → M (Unit {0})
unfolding run update
set_push_token uid token = update_user uid λ u. record u { push_token = some token }

unfoldable pub update_password : ℕ → String → M (Unit {0})
unfolding run update
update_password uid hash = update_user uid λ u. record u { password_hash = hash }

-- A NULL is read as the empty text.
unfoldable pub get_public_key_by_username : String → M String
unfolding run query_row
get_public_key_by_username name =
    fetch user_not_found_if_no_rows (λ db. query_row (has_username name) db.users) >>= λ u.
    pure (coalesce u.public_key "")

unfoldable pub get_push_token : ℕ → M String
unfolding run query_row
get_push_token uid =
    fetch user_not_found_if_no_rows (λ db. query_row (λ u. u.id == uid) db.users) >>= λ u.
    pure (coalesce u.push_token "")

-- Columns id and username.
pub record UserName : Type 0 where
  pub id : ℕ
  pub username : String

abbrev pub user_name : UserRow → UserName
user_name u = record { id = u.id; username = u.username }

-- The database's order of texts, and its ILIKE, are parameters.
module _ (before : String → String → Bool) where
  abbrev pub by_name : List UserRow → List UserRow
  by_name = sort_by λ u v. before u.username v.username

  unfoldable pub list_users : M (List UserName)
  unfolding run select sort_by
  list_users =
      run
        (read_only λ db. ok (map user_name (by_name (select (λ u. is_null u.deleted_at) db.users))))

  unfoldable pub search_users : (String → String → Bool) → String → M (List UserName)
  unfolding run select sort_by
  search_users ilike query = run (
      read_only λ db. ok (
        map user_name (
          take 10
            (by_name (select (λ u. is_null u.deleted_at && ilike u.username query) db.users)))))
