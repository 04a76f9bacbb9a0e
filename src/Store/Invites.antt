-- ===== src/Store/Invites.antt =====
-- internal/store/admin_invite_store.go: invite codes, as the administrator sees them.
use onyxchat.Base.{
  ℕ, suc, String, str_eq, Bool, Option, none, List, [], ◌∷◌, ◌++◌, ◌==◌, if◌then◌else◌, length, leb,
}
use onyxchat.Sql.{select, update, exists_row, sort_by}
use onyxchat.Store.Db.{Db, InviteRow}
use onyxchat.Store.Session.{
  M, Statement, ok, err, Error, unique_violation, invite_exists, invite_not_found, run, read_only,
  on_error, pure, raise, ◌>>=◌,
}

-- InviteCodeFull is the whole row. Newest first.
unfoldable pub admin_list_invites : M (List InviteRow)
unfolding run sort_by
admin_list_invites =
    run (read_only λ db. ok (sort_by (λ i j. leb j.created_at i.created_at) db.invites))

abbrev pub has_code : String → InviteRow → Bool
has_code code i = str_eq i.code code

abbrev pub new_invite : ℕ → Db → String → String → Option ℕ → InviteRow
new_invite now db code creator expires = record {
  id = db.next_invite;
  code = code;
  created_by = creator;
  used_by = none;
  used_at = none;
  expires_at = expires;
  created_at = now;
}

-- Codes are unique.
unfoldable pub insert_invite : String → String → Option ℕ → Statement InviteRow
unfolding exists_row
insert_invite code creator expires now db =
    if exists_row (has_code code) db.invites
    then err unique_violation
    else ok (
      new_invite now db code creator expires,
      record db {
        invites = db.invites ++ new_invite now db code creator expires ∷ [];
        next_invite = suc db.next_invite;
      },
    )

abbrev pub invite_exists_if_unique : Error → Error
invite_exists_if_unique unique_violation = invite_exists
invite_exists_if_unique e = e

unfoldable pub admin_create_invite : String → String → Option ℕ → M InviteRow
unfolding run insert_invite
admin_create_invite code creator expires s =
    let (r, s') = run (insert_invite code creator expires) s in
    (on_error invite_exists_if_unique r, s')

-- UPDATE invite_codes SET used_by = NULL, used_at = NULL WHERE code = $1; the result is RowsAffected.
unfoldable pub reset_invite : String → Statement ℕ
unfolding select update
reset_invite code now db = ok (
  length (select (has_code code) db.invites),
  record db {
    invites = update (has_code code) (λ i. record i { used_by = none; used_at = none }) db.invites;
  },
)

unfoldable pub admin_reset_invite : String → M (Unit {0})
unfolding run reset_invite
admin_reset_invite code = do
  n ← run (reset_invite code)
  if n == 0 then raise invite_not_found else pure tt
