-- ===== src/Http/Password.antt =====
-- internal/http/password_handlers.go: what `ChangePasswordHandler` changes, and what logins ask for
-- from then on.
use onyxchat.Base.{
  ℕ, ◌≤◌, String, len, str_eq, Bool, true, ◌≡◌, refl, ap, ◌∙◌, sym, Option, none, some, arith, inl,
  inr, ◌⊎◌, ◌||◌, ◌==◌, ltb, Bool-cases,
}
use onyxchat.Sql.{query_row, update}
use onyxchat.Store.Db.{Db, UserRow}
use onyxchat.Store.Session.{Session, Result, Error, ok, err}
use onyxchat.Store.Users.{User, update_password, active_name, scan_user}
use onyxchat.Store.Users.Lookup.{get_user_by_username-IsRead, get_user_by_username-found}
use onyxchat.Http.{CurrentUser, Reply, status, Server}
use onyxchat.Http.Auth.{ChangePasswordRequest, save_hash, verify_current, change_password_handler}

abbrev pub with_hash : ℕ → String → Db → Db
with_hash uid hash db = record db {
  users = update (λ u. u.id == uid) (λ u. record u { password_hash = hash }) db.users;
}

update_password-cases :
    (uid : ℕ) (hash : String) (s : Session)
    → (((update_password uid hash s).0 ≡ ok tt)
        × ((update_password uid hash s).1.db ≡ with_hash uid hash s.db))
      ⊎ ((e : Error) × ((update_password uid hash s).0 ≡ err e)
          × ((update_password uid hash s).1.db ≡ s.db))
unfolding update_password
update_password-cases uid hash s = elim (Bool-cases (s.fails s.calls)) [
  | inl e ↦ rw e (inr (_, refl, refl))
  | inr e ↦ rw e (inl (refl, refl))
]

module _ (password_matches : (hash password : String) → Bool)
    (hash_password : String → Option String) {L : Type 0} (cu : CurrentUser)
    (req : ChangePasswordRequest) (v : Server L) where
  -- What a request to change the password did, by its answer.
  abbrev pub Changes : Reply (Unit {0}) × Server L → Type 0
  Changes (status code, w) =
      (u : UserRow) × (hash : String) × (query_row (active_name cu.username) v.session.db.users
        ≡ some u)
      × (password_matches u.password_hash req.current_password ≡ true)
      × (8 ≤ len req.new_password)
      × (hash_password req.new_password ≡ some hash)
      × (w.session.db ≡ with_hash cu.id hash v.session.db)
  Changes (other, w) = w.session.db ≡ v.session.db

  hashed-Changes :
      (s : Session) (u : UserRow) (h : Option String)
      → s.db ≡ v.session.db
      → query_row (active_name cu.username) v.session.db.users ≡ some u
      → password_matches u.password_hash req.current_password ≡ true
      → 8 ≤ len req.new_password
      → hash_password req.new_password ≡ h
      → Changes (save_hash password_matches hash_password cu h (record v { session = s }))
  hashed-Changes s u none same q m long h = same
  hashed-Changes s u (some hash) same q m long h = elim (update_password-cases cu.id hash s) [
    | inl (done, e) ↦ rw done (u, hash, q, m, long, h, e ∙ ap (with_hash cu.id hash) same)
    | inr (_, failed, e) ↦ rw failed (e ∙ same)
  ]

  found-Changes :
      (s : Session) (x : Result User)
      → s.db ≡ v.session.db
      → 8 ≤ len req.new_password
      → ((user : User)
          → x ≡ ok user
          → (u : UserRow) × (query_row (active_name cu.username) v.session.db.users ≡ some u)
            × (user ≡ scan_user u))
      → Changes (verify_current password_matches hash_password cu req x (record v { session = s }))
  found-Changes s (err e) same long row = same
  found-Changes s (ok user) same long row =
      elim (Bool-cases (password_matches user.password_hash req.current_password)) [
        | inl right ↦
            let (u, q, e) = row user refl in
            rw right (
              hashed-Changes s u _ same q (rw (sym (ap (λ (x : User). x.password_hash) e)) right)
                long refl)
        | inr wrong ↦ rw wrong same
      ]

  -- For a user and a body that decodes: a change that is answered with a bare status found the
  -- current password to match the hash of the active user of the caller's name, has a new password of
  -- 8 bytes or more, and put its hash into the row of the caller's id and into no other; any other
  -- answer leaves the tables as they are.
  pub change_password-Changes :
      Changes (change_password_handler password_matches hash_password (some cu) (some req) v)
  unfolding change_password_handler
  change_password-Changes =
      elim (Bool-cases (str_eq req.current_password "" || str_eq req.new_password "")) [
        | inl blank ↦ rw blank refl
        | inr given ↦ elim (Bool-cases (ltb (len req.new_password) 8)) [
          | inl short ↦ rw (given, short) refl
          | inr long ↦
              rw (given, long)
                (found-Changes _ _ (get_user_by_username-IsRead cu.username v.session).db
                  (ground (arith, long)) (get_user_by_username-found cu.username v.session))
        ]
      ]
