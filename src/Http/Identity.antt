-- ===== src/Http/Identity.antt =====
-- What `AuthMiddleware` of internal/http/middleware.go and `ChangePasswordHandler` of
-- internal/http/password_handlers.go let through.
use onyxchat.Base.{
  ℕ, String, str_eq, Bool, true, false, ◌≡◌, refl, ◌⊎◌, inl, inr, Option, none, some, arith,
  Bool-cases,
}
use onyxchat.Text.{cut}
use onyxchat.Sql.{query_row}
use onyxchat.Sql.Laws.{query_row-cases}
use onyxchat.Store.Db.{UserRow}
use onyxchat.Store.Session.{Session, Result, ok, err}
use onyxchat.Store.Users.{User, active_id, get_user_by_id}
use onyxchat.Http.{CurrentUser, Reply, json_error, Server, Handler}
use onyxchat.Http.Auth.{Token, parse, auth_middleware, with_parts, with_claims, after_lookup}

found_by_id :
    (uid : ℕ) (s : Session) (u : User)
    → (get_user_by_id uid s).0 ≡ ok u
    → (r : UserRow) × (query_row (active_id uid) s.db.users ≡ some r)
unfolding get_user_by_id
found_by_id uid s u h = elim (query_row-cases (active_id uid) s.db.users) [
  | inl (_, q) ↦ ground arith
  | inr (r, _, q, _) ↦ (r, q)
]

lookup_db : (uid : ℕ) (s : Session) → (get_user_by_id uid s).1.db ≡ s.db
unfolding get_user_by_id
lookup_db uid s = ground arith

module _ (parse_with_claims : (Bool → Option String) → String → Option Token)
    (equal_fold : String → String → Bool) (secret : String) {L A : Type 0}
    (next : Option CurrentUser → Handler L A) (header : String) (v : Server L) where
  -- The request went on to `next` with a user, or was refused.
  abbrev pub Authenticates : Reply A × Server L → Type 0
  Authenticates out =
      ((scheme token : String) × (claims : CurrentUser) × (u : UserRow) × (w : Server L) × (cut 32
            header
          ≡ some (scheme, token))
        × (equal_fold scheme "Bearer" ≡ true)
        × (parse parse_with_claims equal_fold secret token ≡ some claims)
        × (query_row (active_id claims.id) v.session.db.users ≡ some u)
        × (w.session.db ≡ v.session.db)
        × (out ≡ next (some claims) w))
      ⊎ ((text : String) × (out.0 ≡ json_error 401 text)
          × (out.1.session.db ≡ v.session.db)
          × (out.1.hub ≡ v.hub))

  lookup-Authenticates :
      (scheme token : String) (claims : CurrentUser) (x : Result User)
      → cut 32 header ≡ some (scheme, token)
      → equal_fold scheme "Bearer" ≡ true
      → parse parse_with_claims equal_fold secret token ≡ some claims
      → (get_user_by_id claims.id v.session).0 ≡ x
      → Authenticates (
          after_lookup parse_with_claims equal_fold secret next claims x
            (record v { session = (get_user_by_id claims.id v.session).1 }))
  lookup-Authenticates scheme token claims (err e) c b p h =
      inr ("account not found or deleted", refl, lookup_db claims.id v.session, refl)
  lookup-Authenticates scheme token claims (ok u) c b p h =
      let (r, q) = found_by_id claims.id v.session u h in
      inl (scheme, token, claims, r, _, c, b, p, q, lookup_db claims.id v.session, refl)

  claims-Authenticates :
      (scheme token : String) (x : Option CurrentUser)
      → cut 32 header ≡ some (scheme, token)
      → equal_fold scheme "Bearer" ≡ true
      → parse parse_with_claims equal_fold secret token ≡ x
      → Authenticates (with_claims parse_with_claims equal_fold secret next x v)
  claims-Authenticates scheme token none c b p = inr ("invalid or expired token", refl, refl, refl)
  claims-Authenticates scheme token (some claims) c b p =
      lookup-Authenticates scheme token claims _ c b p refl

  parts-Authenticates :
      (x : Option (String × String))
      → cut 32 header ≡ x
      → Authenticates (with_parts parse_with_claims equal_fold secret next x v)
  parts-Authenticates none c = inr ("invalid authorization header", refl, refl, refl)
  parts-Authenticates (some (scheme, token)) c = elim (Bool-cases (equal_fold scheme "Bearer")) [
    | inl bearer ↦ rw bearer (claims-Authenticates scheme token _ c bearer refl)
    | inr other ↦ rw other (inr ("invalid authorization header", refl, refl, refl))
  ]

  -- A request whose method is not OPTIONS goes on only with a bearer token that parses to claims
  -- whose id is the id of an account that is not deleted, and then with those claims as its user; any
  -- other is answered 401. Neither changes a table.
  pub auth_middleware-Authenticates :
      (method : String)
      → str_eq method "OPTIONS" ≡ false
      → Authenticates (auth_middleware parse_with_claims equal_fold secret next method header v)
  unfolding auth_middleware
  auth_middleware-Authenticates method m = elim (Bool-cases (str_eq header "")) [
    | inl blank ↦ rw (m, blank) (inr ("missing authorization header", refl, refl, refl))
    | inr there ↦ rw (m, there) (parts-Authenticates _ refl)
  ]
