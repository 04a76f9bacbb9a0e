-- ===== src/Http/Access.antt =====
-- Who may read a key, change a contact list and delete an account: the handlers of
-- internal/http/key_handlers.go and account_contact_handlers.go.
use mathlib.Core.Option
use onyxchat.Base.{
  ℕ, String, str_eq, Bool, true, false, ◌&&◌, ◌≡◌, ◌≢◌, refl, ap, sym, ◌∙◌, ◌==◌, inl, inr, Option,
  none, some, arith, if◌then◌else◌, coalesce, eq_iff, Bool-cases,
}
use onyxchat.Text.{trim_space}
use onyxchat.Sql.{query_row}
use onyxchat.Sql.Laws.{query_row-cases}
use onyxchat.Hub.Client.{close_with}
use onyxchat.Hub.Membership.{registered}
use onyxchat.Hub.Delivery.{client, disconnect_user-client}
use onyxchat.Store.Db.{UserRow}
use onyxchat.Store.Session.{
  Session, Result, Error, user_not_found, contact_exists, already_deleted, ok, err,
}
use onyxchat.Store.Users.{User, get_user_by_username, active_name}
use onyxchat.Store.Contacts.Laws.{listed, Adds, add_contact-Adds}
use onyxchat.Store.Account.{GdprDeletionRecord, delete_account_gdpr}
use onyxchat.Store.Account.Erasure.{Erases, delete_account-Erases}
use onyxchat.Store.Account.Aftermath.{IsErased, delete_account-IsErased}
use onyxchat.Http.{CurrentUser, Reply, error, json_error, json, status, Server}
use onyxchat.Http.Keys.{GetKeyResponse, get_key_handler}
use onyxchat.Http.Contacts.{
  add_contact_handler, after_add, delete_account_handler, confirm, after_erasure,
}

given :
    (x : Option String) (key : String) → key ≡ coalesce x "" → str_eq key "" ≡ false → x ≡ some key
given (some k) key e h = ap some (sym e)
given none key e h = absurd (apart h)
  where
    apart : str_eq key "" ≡ false → ⊥
    apart f = ground (arith, f, e, eq_iff key "")

-- A key that is answered is the one of an active user of that name who stands on the caller's
-- contact list, and is not empty.
pub get_key-contact :
    {L : Type 0} (cu : CurrentUser) (name : String) (v : Server L) (code : ℕ)
    (body : GetKeyResponse)
    → (get_key_handler (some cu) name v).0 ≡ json code body
    → (u : UserRow) × (query_row (active_name name) v.session.db.users ≡ some u)
      × (listed cu.id u.id v.session.db ≡ true)
      × (u.public_key ≡ some body.public_key)
      × (body.username ≡ name)
      × (str_eq body.public_key "" ≡ false)
unfolding get_key_handler
get_key-contact cu name v code body h =
    elim (query_row-cases (active_name name) v.session.db.users) [
      | inl (_, q) ↦ ground arith
      | inr (u, _, q, _) ↦ (
        u,
        q,
        ground arith,
        given u.public_key body.public_key (ground arith) (ground arith),
        ground arith,
        ground arith,
      )
    ]

-- What a request to add a contact did, by its answer.
abbrev pub AddsContact :
    {L : Type 0} → CurrentUser → String → Server L → Reply (Unit {0}) × Server L → Type 0
AddsContact cu name v (status code, w) =
    (u : UserRow) × (code ≡ 201)
    × (query_row (active_name (trim_space name)) v.session.db.users ≡ some u)
    × ((x y : ℕ)
        → listed x y w.session.db
          ≡ (if x == cu.id && y == u.id then true else listed x y v.session.db))
AddsContact cu name v (error code text, w) = (w.session.db ≡ v.session.db) × (code ≢ 409)
AddsContact cu name v (json_error code text, w) = (w.session.db ≡ v.session.db) × (code ≡ 500)
AddsContact cu name v (json code x, w) = ⊥

module _ {L : Type 0} (equal_fold : String → String → Bool) (cu : CurrentUser) (name : String)
    (v : Server L) where
  after-AddsContact :
      (x : Result (Unit {0})) (s : Session)
      → Adds cu.id (trim_space name) v.session (x, s)
      → AddsContact cu name v (after_add x (record v { session = s }))
  after-AddsContact (ok _) s (u, q, pairs) = (u, refl, q, pairs)
  after-AddsContact (err user_not_found) s (same, other) = (same, λ c. omega (arith, c))
  after-AddsContact (err contact_exists) s (same, other) = absurd (other refl)
  after-AddsContact (err e) s (same, other) = (same, refl)

  -- For a request with a user and a body that decodes: 201 is answered only for an active user of
  -- the trimmed name, who is then on the caller's list, with no other pair changed; every other
  -- answer leaves the tables as they are, and 409 is never answered.
  pub add_contact_handler-AddsContact :
      AddsContact cu name v (add_contact_handler equal_fold (some cu) (some name) v)
  unfolding add_contact_handler
  add_contact_handler-AddsContact = elim (Bool-cases (str_eq (trim_space name) "")) [
    | inl empty ↦ rw empty (refl, λ c. omega (arith, c))
    | inr named ↦ elim (Bool-cases (equal_fold (trim_space name) cu.username)) [
      | inl self ↦ rw (named, self) (refl, λ c. omega (arith, c))
      | inr other ↦
          rw (named, other)
            (after-AddsContact _ _ (add_contact-Adds cu.id (trim_space name) v.session))
    ]
  ]

-- What a request to delete the account did, by its answer.
abbrev pub DeletesAccount :
    {L : Type 0}
    → (String → String → Bool)
    → CurrentUser
    → String
    → Server L
    → Reply (Unit {0}) × Server L
    → Type 0
DeletesAccount matches cu password v (status code, w) =
    (found u : UserRow) × (query_row (active_name cu.username) v.session.db.users ≡ some found)
    × (matches found.password_hash password ≡ true)
    × IsErased cu.id u.username v.session.now v.session.db w.session.db
    × ((k : ℕ)
        → client k w.hub
          ≡ Option.map
              (λ c. if registered cu.id k v.hub then close_with 1008 "account deleted" c else c)
              (client k v.hub))
DeletesAccount matches cu password v (error code text, w) =
    (w.session.db ≡ v.session.db) × (w.hub ≡ v.hub)
DeletesAccount matches cu password v (json_error code text, w) =
    (w.session.db ≡ v.session.db) × (w.hub ≡ v.hub)
DeletesAccount matches cu password v (json code x, w) = ⊥

erasure_failed :
    (at uid : ℕ) (s : Session) (e : Error)
    → (delete_account_gdpr at uid s).0 ≡ err e
    → (delete_account_gdpr at uid s).1.db ≡ s.db
erasure_failed at uid s e h = go (delete_account_gdpr at uid s).0 h (delete_account-Erases at uid s)
  where
    go :
        (x : Result GdprDeletionRecord)
        → x ≡ err e
        → Erases at uid s (x, (delete_account_gdpr at uid s).1)
        → (delete_account_gdpr at uid s).1.db ≡ s.db
    go (ok r) h' erases = cc
    go (err e') h' same = same

lookup_same :
    (name : String) (s : Session)
    → ((get_user_by_username name s).1.db ≡ s.db) × ((get_user_by_username name s).1.now ≡ s.now)
unfolding get_user_by_username
lookup_same name s = (ground arith, ground arith)

found_user :
    (name : String) (s : Session) (u : User)
    → (get_user_by_username name s).0 ≡ ok u
    → (r : UserRow) × (query_row (active_name name) s.db.users ≡ some r)
      × (u.password_hash ≡ r.password_hash)
unfolding get_user_by_username
found_user name s u h = elim (query_row-cases (active_name name) s.db.users) [
  | inl (_, q) ↦ ground arith
  | inr (r, _, q, _) ↦ (r, q, ground arith)
]

module _ {L : Type 0} (matches : String → String → Bool) (clock : ℕ) (cu : CurrentUser)
    (password : String) (v : Server L) where
  refused :
      (e : Error) (s : Session)
      → s.db ≡ v.session.db
      → DeletesAccount matches cu password v
          (after_erasure matches clock cu (err e) (record v { session = s }))
  refused already_deleted s same = (same, refl)
  refused e s same = (same, refl)

  erased-DeletesAccount :
      (found : UserRow) (s : Session) (x : Result GdprDeletionRecord)
      → s.db ≡ v.session.db
      → s.now ≡ v.session.now
      → query_row (active_name cu.username) v.session.db.users ≡ some found
      → matches found.password_hash password ≡ true
      → (delete_account_gdpr clock cu.id s).0 ≡ x
      → DeletesAccount matches cu password v (
          after_erasure matches clock cu x
            (record v { session = (delete_account_gdpr clock cu.id s).1 }))
  erased-DeletesAccount found s (ok r) same now q m h =
      let (u, _, gone) = delete_account-IsErased clock cu.id s r h in
      (found, u, q, m, rw (sym same, sym now) gone, λ k. disconnect_user-client cu.id k v.hub)
  erased-DeletesAccount found s (err e) same now q m h =
      refused e _ (erasure_failed clock cu.id s e h ∙ same)

  user-DeletesAccount :
      (s : Session) (x : Result User)
      → s.db ≡ v.session.db
      → s.now ≡ v.session.now
      → ((u : User)
          → x ≡ ok u
          → (r : UserRow) × (query_row (active_name cu.username) v.session.db.users ≡ some r)
            × (u.password_hash ≡ r.password_hash))
      → DeletesAccount matches cu password v
          (confirm matches clock cu password x (record v { session = s }))
  user-DeletesAccount s (err e) same now found = (same, refl)
  user-DeletesAccount s (ok u) same now found =
      elim (Bool-cases (matches u.password_hash password)) [
        | inl right ↦
            let (r, q, hash) = found u refl in
            rw right (erased-DeletesAccount r s _ same now q (rw (sym hash) right) refl)
        | inr wrong ↦ rw wrong (same, refl)
      ]

  -- For a request with a user and a body that decodes: 204 is answered only for a password that
  -- matches the one stored under the caller's name; then the caller's account is erased and each
  -- client that it has registered, and no other, is closed. Every other answer leaves the tables and
  -- the hub as they are.
  pub delete_account_handler-DeletesAccount :
      DeletesAccount matches cu password v
        (delete_account_handler matches clock (some cu) (some password) v)
  unfolding delete_account_handler
  delete_account_handler-DeletesAccount = elim (Bool-cases (str_eq (trim_space password) "")) [
    | inl blank ↦ rw blank (refl, refl)
    | inr given_one ↦ rw given_one (
        user-DeletesAccount _ _ (lookup_same cu.username v.session).0
          (lookup_same cu.username v.session).1 (found_user cu.username v.session))
  ]
