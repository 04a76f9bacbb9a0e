-- ===== src/Store/Users/Registration.antt =====
-- `RegisterWithInvite` of user_store.go: an invite code buys one account.
use onyxchat.Base.{ℕ, suc, ◌≤◌, String, true, false, ◌≡◌, ap, [], ◌∷◌, ◌++◌, arith}
use onyxchat.Sql.{select, update, exists_row}
use onyxchat.Sql.Laws.{length-select, select-update_none}
use onyxchat.Store.Db.{Db, InviteRow}
use onyxchat.Store.Session.{Session, Result, ok, err, invalid_invite_code}
use onyxchat.Store.Users.{User, register_with_invite, usable, use_invite, has_username, new_user}

-- The tables after a registration.
abbrev pub registered : ℕ → String → String → String → Db → Db
registered now code name hash db = record db {
  invites = update (usable now code) (use_invite now name) db.invites;
  users = db.users ++ new_user db name hash ∷ [];
  next_user = suc db.next_user;
}

-- What a registration did, by how it ended.
abbrev pub Registers : String → String → String → Session → Result User × Session → Type 0
Registers code name hash s (ok u, t) =
    (exists_row (usable s.now code) s.db.invites ≡ true)
    × (exists_row (has_username name) s.db.users ≡ false)
    × (t.db ≡ registered s.now code name hash s.db)
    × (u ≡ record { id = s.db.next_user; username = name; password_hash = hash; public_key = "" })
Registers code name hash s (err e, t) = t.db ≡ s.db

-- A registration that succeeds found the code usable and the name free, burns the code and adds the
-- user; one that fails, for whatever reason and at whichever call, burns nothing and adds nobody.
pub register-Registers :
    (code name hash : String) (s : Session)
    → Registers code name hash s (register_with_invite code name hash s)
unfolding register_with_invite
register-Registers code name hash s = ground (arith, length-select (usable s.now code) s.db.invites)

-- A code that cannot be used now cannot be used later, unless it is reset.
pub usable-later :
    (now later : ℕ) (code : String) (i : InviteRow)
    → now ≤ later
    → usable now code i ≡ false
    → usable later code i ≡ false
unfolding usable
usable-later now later code i h e = ground arith

used-not_usable :
    (now later : ℕ) (code name : String) (i : InviteRow)
    → usable later code (use_invite now name i) ≡ false
unfolding usable
used-not_usable now later code name i = ground arith

pub register-unusable :
    (code name hash : String) (s : Session)
    → select (usable s.now code) s.db.invites ≡ []
    → s.fails s.calls ≡ false
    → s.fails (suc s.calls) ≡ false
    → (register_with_invite code name hash s).0 ≡ err invalid_invite_code
unfolding register_with_invite
register-unusable code name hash s h f g = ground arith

-- After a registration that succeeds its code is there and buys nothing at that time.
pub register-spends :
    (code name hash : String) (s : Session) (u : User)
    → (register_with_invite code name hash s).0 ≡ ok u
    → (exists_row (usable s.now code) s.db.invites ≡ true)
      × ((register_with_invite code name hash s).1.db.invites
          ≡ update (usable s.now code) (use_invite s.now name) s.db.invites)
      × (select
            (usable s.now code)
            (update (usable s.now code) (use_invite s.now name) s.db.invites)
          ≡ [])
register-spends code name hash s u h =
    let (there, invites) = go _ (register-Registers code name hash s) h in
    (
      there,
      invites,
      select-update_none (usable s.now code) (use_invite s.now name) s.db.invites
          (used-not_usable s.now s.now code name),
    )
  where
    go :
        (x : Result User × Session)
        → Registers code name hash s x
        → x.0 ≡ ok u
        → (exists_row (usable s.now code) s.db.invites ≡ true)
          × (x.1.db.invites ≡ update (usable s.now code) (use_invite s.now name) s.db.invites)
    go (ok _, t) (there, _, e, _) _ = (there, ap (λ (db : Db). db.invites) e)
    go (err e, t) same k = cc
