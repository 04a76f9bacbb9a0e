-- ===== src/Store/Users/Codes.antt =====
-- Invite codes over the calls of user_store.go, contact_store.go and admin_invite_store.go.
pub mod Spent
use onyxchat.Base.{
  ℕ, suc, ◌≤◌, String, str_eq, eq_iff, Bool, true, false, ◌≡◌, ◌≢◌, refl, ap, sym, ◌∙◌, ◌⊎◌, inl,
  inr, Option, none, some, List, [], ◌∷◌, ◌++◌, arith, Bool-cases, ◌==◌, if◌then◌else◌,
}
use onyxchat.Sql.{select, update, exists_row}
use onyxchat.Sql.Laws.{exists_row-update, exists_row-append, select-update_clears}
use onyxchat.Store.Db.{Db, InviteRow, UserRow}
use onyxchat.Store.Session.{
  Session, Result, Error, read_only, one_row, ok, err, raise, invalid_invite_code, already_deleted,
}
use onyxchat.Store.Session.Laws.{KeepsNow, run-KeepsNow, transaction-KeepsNow, bind-KeepsNow}
use onyxchat.Store.Users.{
  fetch, User, register_with_invite, consume_invite_code, usable, use_invite,
}
use onyxchat.Store.Users.Registration.{
  Registers, register-Registers, register-spends, register-unusable, usable-later,
}
use onyxchat.Store.Invites.{has_code, new_invite, admin_create_invite, admin_reset_invite}
use onyxchat.Store.Account.{
  delete_account_gdpr, erase_body, erase_rest, already_deleted_if_no_rows, anonymize_user,
  purge_messages, expire_invites, remove_contacts, write_log, unused_by, GdprDeletionRecord,
}
use onyxchat.Store.Account.Erasure.{Erases, delete_account-Erases}
use onyxchat.Store.Users.Codes.Spent.{
  IsSpent, use-IsSpent, reset-IsSpent, expire-IsSpent, added-IsSpent, either-IsSpent, later-IsSpent,
  usable-has_code,
}

-- What a call, or all that happens between two calls, makes of the table of codes. The code is not
-- reset; `elsewhere` is any change of the other tables, of the time and of the driver.
pub data Step (code : String) (s t : Session) : Type 0 where
  registers : (c name hash : String) → t ≡ (register_with_invite c name hash s).1 → Step code s t
  consumes : (c name : String) → t ≡ (consume_invite_code c name s).1 → Step code s t
  creates :
      (c creator : String) (expires : Option ℕ)
      → t ≡ (admin_create_invite c creator expires s).1
      → Step code s t
  resets_other : (c : String) → c ≢ code → t ≡ (admin_reset_invite c s).1 → Step code s t
  erases : (at uid : ℕ) → t ≡ (delete_account_gdpr at uid s).1 → Step code s t
  elsewhere : t.db.invites ≡ s.db.invites → s.now ≤ t.now → Step code s t

pub data Reach (code : String) (s : Session) : Session → Type 0 where
  start : Reach code s s
  after : {t u : Session} → Reach code s t → Step code t u → Reach code s u

register-now :
    (code name hash : String) (s : Session) → (register_with_invite code name hash s).1.now ≡ s.now
unfolding register_with_invite
register-now code name hash s = ground arith

consume-now : (code name : String) (s : Session) → (consume_invite_code code name s).1.now ≡ s.now
unfolding consume_invite_code
consume-now code name s = ground arith

create-now :
    (code creator : String) (expires : Option ℕ) (s : Session)
    → (admin_create_invite code creator expires s).1.now ≡ s.now
unfolding admin_create_invite
create-now code creator expires s = ground arith

reset-now : (code : String) (s : Session) → (admin_reset_invite code s).1.now ≡ s.now
unfolding admin_reset_invite
reset-now code s = ground arith

fetch-KeepsNow :
    {A : Type 0} (translate : Error → Error) (query : Db → Option A)
    → KeepsNow (fetch translate query)
fetch-KeepsNow translate query = record {
  same = (run-KeepsNow (read_only λ db. one_row (query db))).same;
}

rest-KeepsNow : (at uid : ℕ) (u : UserRow) → KeepsNow (erase_rest at uid u)
rest-KeepsNow at uid u = bind-KeepsNow _ _ (run-KeepsNow (purge_messages uid)) λ _.
    bind-KeepsNow _ _ (run-KeepsNow (expire_invites u.username)) λ _.
      bind-KeepsNow _ _ (run-KeepsNow (remove_contacts uid))
        λ _. bind-KeepsNow _ _ (run-KeepsNow (write_log _)) λ _. record { same = λ s. refl }

erase-now : (at uid : ℕ) (s : Session) → (delete_account_gdpr at uid s).1.now ≡ s.now
unfolding delete_account_gdpr
erase-now at uid =
    (transaction-KeepsNow (erase_body at uid) (
      bind-KeepsNow _ _ (fetch-KeepsNow already_deleted_if_no_rows _) λ u.
        bind-KeepsNow _ _ (run-KeepsNow (anonymize_user at uid)) (after_anonymize-KeepsNow u))).same
  where
    after_anonymize-KeepsNow :
        (u : UserRow) (n : ℕ)
        → KeepsNow (if n == 0 then raise already_deleted else erase_rest at uid u)
    after_anonymize-KeepsNow u n = elim (Bool-cases (n == 0)) [
      | inl e ↦ rw e (record { same = λ s. refl })
      | inr e ↦ rw e (rest-KeepsNow at uid u)
    ]

reset-db :
    (code : String) (s : Session)
    → ((admin_reset_invite code s).1.db.invites ≡ s.db.invites)
      ⊎ ((admin_reset_invite code s).1.db.invites
          ≡ update (has_code code) (λ i. record i { used_by = none; used_at = none }) s.db.invites)
unfolding admin_reset_invite
reset-db code s = ground arith

consume-db :
    (code name : String) (s : Session)
    → ((consume_invite_code code name s).1.db.invites ≡ s.db.invites)
      ⊎ ((consume_invite_code code name s).1.db.invites
          ≡ update (usable s.now code) (use_invite s.now name) s.db.invites)
unfolding consume_invite_code
consume-db code name s = ground arith

register-db :
    (code name hash : String) (s : Session)
    → ((register_with_invite code name hash s).1.db.invites ≡ s.db.invites)
      ⊎ ((register_with_invite code name hash s).1.db.invites
          ≡ update (usable s.now code) (use_invite s.now name) s.db.invites)
register-db code name hash s = go _ (register-Registers code name hash s)
  where
    go :
        (x : Result User × Session)
        → Registers code name hash s x
        → (x.1.db.invites ≡ s.db.invites)
          ⊎ (x.1.db.invites ≡ update (usable s.now code) (use_invite s.now name) s.db.invites)
    go (ok u, t) (_, _, e, _) = inr (ap (λ (db : Db). db.invites) e)
    go (err e, t) same = inl (ap (λ (db : Db). db.invites) same)

create-IsSpent :
    (code c creator : String) (expires : Option ℕ) (s : Session)
    → IsSpent code s.now s.db.invites
    → IsSpent code s.now (admin_create_invite c creator expires s).1.db.invites
unfolding admin_create_invite
create-IsSpent code c creator expires s v = elim (Bool-cases (s.fails s.calls)) [
  | inl down ↦ rw down v
  | inr up ↦ elim (Bool-cases (exists_row (has_code c) s.db.invites)) [
    | inl conflict ↦ rw (up, conflict) v
    | inr free ↦
        rw (up, free)
          (added-IsSpent code s.now (new_invite s.now s.db c creator expires) s.db.invites free v)
  ]
]

erase-IsSpent :
    (code : String) (at uid : ℕ) (s : Session)
    → IsSpent code s.now s.db.invites
    → IsSpent code s.now (delete_account_gdpr at uid s).1.db.invites
erase-IsSpent code at uid s v = go _ (delete_account-Erases at uid s)
  where
    go :
        (x : Result GdprDeletionRecord × Session)
        → Erases at uid s x
        → IsSpent code s.now x.1.db.invites
    go (ok r, t) (u, _, _, e, _, _) = rw e (expire-IsSpent code s.now u.username s.db.invites v)
    go (err e, t) same = rw same v

abbrev HasSpent : String → Session → Type 0
HasSpent code s = IsSpent code s.now s.db.invites

Step-HasSpent : {code : String} {s t : Session} → Step code s t → HasSpent code s → HasSpent code t
Step-HasSpent {code} {s} (registers c name hash e) v =
    rw (e, register-now c name hash s)
      (either-IsSpent code s.now s.db.invites _ _ (register-db c name hash s)
        (use-IsSpent code s.now c name s.db.invites) v)
Step-HasSpent {code} {s} (consumes c name e) v =
    rw (e, consume-now c name s)
      (either-IsSpent code s.now s.db.invites _ _ (consume-db c name s)
        (use-IsSpent code s.now c name s.db.invites) v)
Step-HasSpent {code} {s} (creates c creator expires e) v =
    rw (e, create-now c creator expires s) (create-IsSpent code c creator expires s v)
Step-HasSpent {code} {s} (resets_other c other e) v =
    rw (e, reset-now c s)
      (either-IsSpent code s.now s.db.invites _ _ (reset-db c s)
        (reset-IsSpent code s.now c s.db.invites other) v)
Step-HasSpent {code} {s} (erases at uid e) v =
    rw (e, erase-now at uid s) (erase-IsSpent code at uid s v)
Step-HasSpent {code} {s} {t} (elsewhere same later) v =
    later-IsSpent code s.now t.now t.db.invites later (rw same v)

Reach-HasSpent :
    {code : String} {s t : Session} → HasSpent code s → Reach code s t → HasSpent code t
Reach-HasSpent v start = v
Reach-HasSpent v (after r st) = Step-HasSpent st (Reach-HasSpent v r)

register-HasSpent :
    (code name hash : String) (s : Session) (u : User)
    → (register_with_invite code name hash s).0 ≡ ok u
    → HasSpent code (register_with_invite code name hash s).1
register-HasSpent code name hash s u h =
    let (there, e, spent) = register-spends code name hash s u h in
    rw (register-now code name hash s, e)
      (record {
        there =
            exists_row-update (has_code code) (usable s.now code) (use_invite s.now name)
              s.db.invites (λ i. refl)
            ∙ usable-has_code s.now code s.db.invites there;
        spent = spent;
      })

-- A code that has bought an account buys no other, whatever registrations, other uses of codes, new
-- codes, erasures, resets of other codes, changes of the other tables and time come between, when the
-- driver does not fail: the answer is `invalid_invite_code`.
pub register_once :
    (code name name' hash hash' : String) (s t : Session) (u : User)
    → (register_with_invite code name hash s).0 ≡ ok u
    → Reach code (register_with_invite code name hash s).1 t
    → t.fails t.calls ≡ false
    → t.fails (suc t.calls) ≡ false
    → (register_with_invite code name' hash' t).0 ≡ err invalid_invite_code
register_once code name name' hash hash' s t u h r f g =
    register-unusable code name' hash' t
      (Reach-HasSpent (register-HasSpent code name hash s u h) r).spent f g
