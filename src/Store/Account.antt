-- ===== src/Store/Account.antt =====
-- `DeleteAccountGDPR` of internal/store/contact_store.go: erasure of an account.
pub mod Erasure
pub mod Aftermath
use onyxchat.Base.{
  ℕ, suc, String, str_eq, Bool, true, false, not, ◌&&◌, ◌||◌, Option, none, some, List, [], ◌∷◌,
  ◌++◌, ◌==◌, if◌then◌else◌, is_null, length,
}
use onyxchat.Text.{print_nat}
use onyxchat.Sql.{select, update, delete, exists_row, query_row}
use onyxchat.Store.Db.{Db, UserRow, MessageRow, InviteRow, ContactRow, GdprRow}
use onyxchat.Store.Session.{
  M, Session, Statement, Result, ok, err, Error, no_rows, unique_violation, already_deleted, run,
  read_only, one_row, pure, raise, transaction, ◌>>=◌, ◌>>◌,
}
use onyxchat.Store.Users.{active_id, fetch}

pub record GdprDeletionRecord : Type 0 where
  pub user_id : ℕ
  pub messages_purged : ℕ
  pub public_key_cleared : Bool
  pub invites_expired : ℕ

abbrev pub already_deleted_if_no_rows : Error → Error
already_deleted_if_no_rows no_rows = already_deleted
already_deleted_if_no_rows e = e

-- 'deleted_' || id::text
unfoldable pub deleted_name : ℕ → String
deleted_name uid = Prim.Native.String.◌++◌ "deleted_" (print_nat uid)

abbrev pub anonymized : ℕ → UserRow → UserRow
anonymized now u = record u {
  username = deleted_name u.id;
  password_hash = "";
  public_key = none;
  display_name = some "Deleted User";
  deleted_at = some now;
}

-- Another user has the name that an erased account takes.
unfoldable pub name_held : ℕ → UserRow → Bool
name_held uid u = str_eq u.username (deleted_name uid) && not (u.id == uid)

-- UPDATE users SET username = …, … WHERE id = $2 AND deleted_at IS NULL, and its RowsAffected; names
-- are unique.
unfoldable pub anonymize_user : ℕ → ℕ → Statement ℕ
unfolding select update exists_row active_id name_held
anonymize_user at uid now db =
    if exists_row (active_id uid) db.users && exists_row (name_held uid) db.users
    then err unique_violation
    else ok (
      length (select (active_id uid) db.users),
      record db { users = update (active_id uid) (anonymized at) db.users },
    )

abbrev pub sent_by : ℕ → MessageRow → Bool
sent_by uid m = m.sender_id == uid

abbrev pub purged : MessageRow → MessageRow
purged m = record m { body = ""; iv = none; encrypted = false }

unfoldable pub purge_messages : ℕ → Statement ℕ
unfolding select update
purge_messages uid now db = ok (
  length (select (sent_by uid) db.messages),
  record db { messages = update (sent_by uid) purged db.messages },
)

-- WHERE created_by = $1 AND used_by IS NULL
unfoldable pub unused_by : String → InviteRow → Bool
unused_by name i = str_eq i.created_by name && is_null i.used_by

unfoldable pub expire_invites : String → Statement ℕ
unfolding select update unused_by
expire_invites name now db = ok (
  length (select (unused_by name) db.invites),
  record db {
    invites = update (unused_by name) (λ i. record i { expires_at = some now }) db.invites;
  },
)

abbrev pub touches : ℕ → ContactRow → Bool
touches uid c = c.user_id == uid || c.contact_id == uid

unfoldable pub remove_contacts : ℕ → Statement (Unit {0})
unfolding delete select
remove_contacts uid now db = ok (tt, record db { contacts = delete (touches uid) db.contacts })

unfoldable pub write_log : GdprRow → Statement (Unit {0})
write_log row now db = ok (tt, record db { gdpr_log = db.gdpr_log ++ row ∷ [] })

-- Steps 2 to 5 of the transaction; `at` is the time that Go's clock gave at its start.
abbrev pub erase_rest : ℕ → ℕ → UserRow → M GdprDeletionRecord
erase_rest at uid user = do
  messages ← run (purge_messages uid)
  invites ← run (expire_invites user.username)
  run (remove_contacts uid)
  run (
      write_log (record {
        user_id = uid;
        anonymized_at = at;
        messages_purged = messages;
        public_key_cleared = true;
        invites_expired = invites;
        notes = "user-initiated deletion";
      }))
  pure (record {
    user_id = uid;
    messages_purged = messages;
    public_key_cleared = true;
    invites_expired = invites;
  })

-- The body of the transaction.
abbrev pub erase_body : ℕ → ℕ → M GdprDeletionRecord
erase_body at uid = do
  user ← fetch already_deleted_if_no_rows (λ db. query_row (active_id uid) db.users)
  n ← run (anonymize_user at uid)
  if n == 0 then raise already_deleted else erase_rest at uid user

unfoldable pub delete_account_gdpr : ℕ → ℕ → M GdprDeletionRecord
unfolding transaction run query_row active_id anonymize_user purge_messages expire_invites
    remove_contacts write_log
delete_account_gdpr at uid = transaction (erase_body at uid)
