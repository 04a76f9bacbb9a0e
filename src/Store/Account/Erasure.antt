-- ===== src/Store/Account/Erasure.antt =====
-- What `DeleteAccountGDPR` of contact_store.go erases, what it leaves, and when it fails.
use onyxchat.Base.{
  ℕ, suc, true, false, ◌≡◌, refl, sym, ◌∙◌, inl, inr, some, [], ◌∷◌, ◌++◌, arith, ◌==◌,
  if◌then◌else◌, length, Bool-cases,
}
use onyxchat.Sql.{select, update, delete, exists_row, query_row}
use onyxchat.Sql.Laws.{query_row-cases, query_row-exists}
use onyxchat.Store.Db.{Db, UserRow, GdprRow}
use onyxchat.Store.Session.Laws.{run-step, transaction-step, commit-step}
use onyxchat.Store.Session.{
  Session, run, commit, raise, ◌>>=◌, Result, ok, err, Error, already_deleted,
}
use onyxchat.Store.Users.{active_id}
use onyxchat.Store.Account.{
  GdprDeletionRecord, delete_account_gdpr, erase_body, erase_rest, anonymize_user, purge_messages,
  expire_invites, remove_contacts, write_log, anonymized, name_held, sent_by, purged, unused_by,
  touches,
}

abbrev pub log_row : ℕ → ℕ → GdprDeletionRecord → GdprRow
log_row uid at r = record {
  user_id = uid;
  anonymized_at = at;
  messages_purged = r.messages_purged;
  public_key_cleared = r.public_key_cleared;
  invites_expired = r.invites_expired;
  notes = "user-initiated deletion";
}

-- The tables after an erasure of the user with the row `u`.
abbrev pub erased : ℕ → ℕ → ℕ → UserRow → GdprDeletionRecord → Db → Db
erased at uid now u r db = record db {
  users = update (active_id uid) (anonymized at) db.users;
  messages = update (sent_by uid) purged db.messages;
  invites = update (unused_by u.username) (λ i. record i { expires_at = some now }) db.invites;
  contacts = delete (touches uid) db.contacts;
  gdpr_log = db.gdpr_log ++ log_row uid at r ∷ [];
}

-- What a deletion did to the tables, by how it ended.
abbrev pub Erases : ℕ → ℕ → Session → Result GdprDeletionRecord × Session → Type 0
Erases at uid s (ok r, t) =
    (u : UserRow) × (query_row (active_id uid) s.db.users ≡ some u)
    × (exists_row (name_held uid) s.db.users ≡ false)
    × (t.db ≡ erased at uid s.now u r s.db)
    × (r.messages_purged ≡ length (select (sent_by uid) s.db.messages))
    × (r.invites_expired ≡ length (select (unused_by u.username) s.db.invites))
Erases at uid s (err e, t) = t.db ≡ s.db

module _ (at uid : ℕ) (s : Session) where
  -- The same, of the body before it is committed.
  abbrev Pending : Result GdprDeletionRecord × Session → Type 0
  Pending x = Erases at uid s (commit s.db x.0 x.1)

  abbrev record_of : UserRow → GdprDeletionRecord
  record_of u = record {
    user_id = uid;
    messages_purged = length (select (sent_by uid) s.db.messages);
    public_key_cleared = true;
    invites_expired = length (select (unused_by u.username) s.db.invites);
  }

  module _ (u : UserRow) (q : query_row (active_id uid) s.db.users ≡ some u)
      (free : exists_row (name_held uid) s.db.users ≡ false) where
    -- The session at which the user's row is anonymized, after so many calls.
    abbrev anonymized_at : ℕ → Session
    anonymized_at calls = record s {
      calls = calls;
      db = record s.db { users = update (active_id uid) (anonymized at) s.db.users };
    }

    abbrev erased_db : Db
    erased_db = erased at uid s.now u (record_of u) s.db

    -- From the purge of the messages on, no statement is refused.
    rest-Pending : (calls : ℕ) → Pending (erase_rest at uid u (anonymized_at calls))
    unfolding purge_messages expire_invites remove_contacts write_log
    rest-Pending calls =
        run-step Pending (purge_messages uid) _ (anonymized_at calls) _ _ refl refl (
          run-step Pending (expire_invites u.username) _ _ _ _ refl refl (
            run-step Pending (remove_contacts uid) _ _ _ _ refl refl (
              run-step Pending (write_log (log_row uid at (record_of u))) _ _ _ _ refl refl (
                commit-step (Erases at uid s) s.db (record_of u)
                  (record s { calls = suc (suc (suc (suc calls))); db = erased_db }) refl
                  (u, q, free, refl, refl, refl)))))

    anonymize-Pending :
        (calls : ℕ)
        → Pending (
            (run (anonymize_user at uid) >>= λ n.
            if n == 0 then raise already_deleted else erase_rest at uid u)
              (record s { calls = calls }))
    unfolding anonymize_user
    anonymize-Pending calls =
        run-step Pending (anonymize_user at uid) _ (record s { calls = calls })
          (length (select (active_id uid) s.db.users)) (anonymized_at calls).db
          (ground (arith, free)) refl
          (elim (Bool-cases (length (select (active_id uid) s.db.users) == 0)) [
            | inl none_found ↦ rw none_found refl
            | inr found ↦ rw found (rest-Pending (suc calls))
          ])

  -- The name that the user would take is another's: the constraint refuses the update.
  held-Pending :
      (u : UserRow)
      → exists_row (name_held uid) s.db.users ≡ true
      → exists_row (active_id uid) s.db.users ≡ true
      → (calls : ℕ)
      → Pending (
          (run (anonymize_user at uid) >>= λ n.
          if n == 0 then raise already_deleted else erase_rest at uid u)
            (record s { calls = calls }))
  unfolding anonymize_user run
  held-Pending u held active calls = elim (Bool-cases (s.fails calls)) [
    | inl down ↦ rw down refl
    | inr up ↦ rw (up, held, active) refl
  ]

-- A deletion that succeeds found the user, with its name free to anonymize to, and did every part of
-- the erasure, and its record counts the messages and codes it touched; one that fails, for whatever
-- reason and at whichever call, leaves every table as it was.
pub delete_account-Erases :
    (at uid : ℕ) (s : Session) → Erases at uid s (delete_account_gdpr at uid s)
unfolding delete_account_gdpr
delete_account-Erases at uid s =
    transaction-step (Erases at uid s) (erase_body at uid) s refl
      (elim (Bool-cases (s.fails (suc s.calls))) [
        | inl down ↦ rw down refl
        | inr up ↦ elim (query_row-cases (active_id uid) s.db.users) [
          | inl (_, q) ↦ rw (up, q) refl
          | inr (u, _, q, _) ↦
              rw (up, q)
                (elim (Bool-cases (exists_row (name_held uid) s.db.users)) [
                  | inl held ↦
                      held-Pending at uid s u held (query_row-exists (active_id uid) s.db.users u q)
                        (suc (suc s.calls))
                  | inr free ↦ anonymize-Pending at uid s u q free (suc (suc s.calls))
                ])
        ]
      ])

true≢false : ¬ (true ≡ false)
true≢false e = cc

-- When somebody holds the name that the erasure would give to a user, no call deletes the account:
-- each ends in an error and changes no table.
pub delete_account-name_held :
    (at uid : ℕ) (s : Session)
    → exists_row (name_held uid) s.db.users ≡ true
    → (e : Error) × ((delete_account_gdpr at uid s).0 ≡ err e)
      × ((delete_account_gdpr at uid s).1.db ≡ s.db)
delete_account-name_held at uid s held =
    go (delete_account_gdpr at uid s).0 refl (delete_account-Erases at uid s)
  where
    go :
        (r : Result GdprDeletionRecord)
        → (delete_account_gdpr at uid s).0 ≡ r
        → Erases at uid s (r, (delete_account_gdpr at uid s).1)
        → (e : Error) × (r ≡ err e) × ((delete_account_gdpr at uid s).1.db ≡ s.db)
    go (ok r) e (_, _, free, _, _, _) = absurd (true≢false (sym held ∙ free))
    go (err x) e same = (x, refl, same)
