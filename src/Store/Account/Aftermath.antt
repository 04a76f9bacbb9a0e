-- ===== src/Store/Account/Aftermath.antt =====
-- What readers find after `DeleteAccountGDPR` of contact_store.go has gone through.
use mathlib.Core.Option
use onyxchat.Base.{
  if◌then◌else◌, ℕ, ◌+◌, String, str_eq, false, not, ◌&&◌, ◌≡◌, refl, ap, ◌∙◌, none, some, [],
  arith, ◌==◌, map,
}
use onyxchat.Sql.{select, query_row}
use onyxchat.Sql.Laws.{
  select-update_clears, select-update-map, select-update_apart, select-delete,
  query_row-update-none, query_row-update,
}
use onyxchat.Store.Db.{Db, UserRow, InviteRow}
use onyxchat.Store.Session.{Session, Result, ok, err}
use onyxchat.Store.Users.{active_id, usable, get_push_token}
use onyxchat.Store.Account.{
  GdprDeletionRecord, delete_account_gdpr, anonymized, sent_by, purged, unused_by, touches,
}
use onyxchat.Store.Account.Erasure.{Erases, delete_account-Erases, erased}

pub record IsErased (uid : ℕ) (name : String) (now : ℕ) (before after : Db) : Type 0 where
  -- nobody with this id is looked up
  pub account : query_row (active_id uid) after.users ≡ none
  -- the user's messages keep their rows, without body, iv or mark of encryption
  pub sent : select (sent_by uid) after.messages ≡ map purged (select (sent_by uid) before.messages)
  -- what others sent stays
  pub received :
      select (λ m. not (sent_by uid m)) after.messages
      ≡ select (λ m. not (sent_by uid m)) before.messages
  -- no contact list names the user, nor has the user one
  pub contact_lists : select (touches uid) after.contacts ≡ []
  -- no code that the user made buys an account, however long after
  pub codes :
      (code : String) (delay : ℕ)
      → select (λ i. str_eq i.created_by name && usable (now + delay) code i) after.invites ≡ []

not_active : (at uid : ℕ) (u : UserRow) → active_id uid (anonymized at u) ≡ false
unfolding active_id
not_active at uid u = ground arith

not_usable :
    (name code : String) (now delay : ℕ) (i : InviteRow)
    → (str_eq i.created_by name && usable (now + delay) code (record i { expires_at = some now }))
      ≡ false
unfolding usable
not_usable name code now delay i = ground arith

not_usable_used :
    (name code : String) (later : ℕ) (i : InviteRow)
    → unused_by name i ≡ false
    → (str_eq i.created_by name && usable later code i) ≡ false
unfolding usable unused_by
not_usable_used name code later i h = ground arith

erased-IsErased :
    (at uid now : ℕ) (u : UserRow) (r : GdprDeletionRecord) (db : Db)
    → IsErased uid u.username now db (erased at uid now u r db)
erased-IsErased at uid now u r db = record {
  account = query_row-update-none (active_id uid) (anonymized at) db.users (not_active at uid);
  sent = select-update-map (sent_by uid) purged db.messages (λ m. refl);
  received =
      select-update_apart (sent_by uid) (λ m. not (sent_by uid m)) purged db.messages (λ m e. rw e)
        (λ m e. rw e);
  contact_lists = select-delete (touches uid) db.contacts;
  codes = λ code delay.
      select-update_clears (unused_by u.username)
        (λ i. str_eq i.created_by u.username && usable (now + delay) code i) _ db.invites
        (λ i _. not_usable u.username code now delay i)
        (λ i e. not_usable_used u.username code (now + delay) i e);
}

-- After a deletion that succeeded, the user with the name that it had is erased: the account is
-- found no more, its messages are blank, what others sent is as before, the contacts are gone both
-- ways, and its codes buy no account from then on.
pub delete_account-IsErased :
    (at uid : ℕ) (s : Session) (r : GdprDeletionRecord)
    → (delete_account_gdpr at uid s).0 ≡ ok r
    → (u : UserRow) × (query_row (active_id uid) s.db.users ≡ some u)
      × IsErased uid u.username s.now s.db (delete_account_gdpr at uid s).1.db
delete_account-IsErased at uid s r h =
    go (delete_account_gdpr at uid s).0 h (delete_account-Erases at uid s)
  where
    go :
        (x : Result GdprDeletionRecord)
        → x ≡ ok r
        → Erases at uid s (x, (delete_account_gdpr at uid s).1)
        → (u : UserRow) × (query_row (active_id uid) s.db.users ≡ some u)
          × IsErased uid u.username s.now s.db (delete_account_gdpr at uid s).1.db
    go (ok y) e (u, q, _, d, _, _) = (u, q, rw d (erased-IsErased at uid s.now u y s.db))
    go (err x) e same = absurd (ok≢err e)
      where
        ok≢err : err x ≡ ok r → ⊥
        ok≢err c = cc

push_token_kept :
    (at uid user : ℕ) (s t : Session)
    → query_row (λ u. u.id == user) t.db.users
      ≡ Option.map
          (λ u. if active_id uid u then anonymized at u else u)
          (query_row (λ u. u.id == user) s.db.users)
    → t.fails t.calls ≡ s.fails s.calls
    → (get_push_token user t).0 ≡ (get_push_token user s).0
unfolding get_push_token
push_token_kept at uid user s t e f = ground arith

-- After a deletion that succeeded, the push token of any user, the deleted one included, is read
-- from the tables that it left as it was read before, the driver failing in both reads or in
-- neither.
pub get_push_token-erased :
    (at uid user : ℕ) (s t : Session) (r : GdprDeletionRecord)
    → (delete_account_gdpr at uid s).0 ≡ ok r
    → t.db ≡ (delete_account_gdpr at uid s).1.db
    → t.fails t.calls ≡ s.fails s.calls
    → (get_push_token user t).0 ≡ (get_push_token user s).0
get_push_token-erased at uid user s t r h same f =
    push_token_kept at uid user s t
      (go (delete_account_gdpr at uid s).0 h (delete_account-Erases at uid s)) f
  where
    go :
        (x : Result GdprDeletionRecord)
        → x ≡ ok r
        → Erases at uid s (x, (delete_account_gdpr at uid s).1)
        → query_row (λ u. u.id == user) t.db.users
          ≡ Option.map
              (λ u. if active_id uid u then anonymized at u else u)
              (query_row (λ u. u.id == user) s.db.users)
    go (ok y) e (u, q, _, d, _, _) =
        ap (λ (db : Db). query_row (λ x. x.id == user) db.users) (same ∙ d)
        ∙ query_row-update (active_id uid) (λ x. x.id == user) (anonymized at) s.db.users
            (λ x. refl)
    go (err x) e _ = cc
