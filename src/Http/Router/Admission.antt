-- ===== src/Http/Router/Admission.antt =====
-- What the middlewares of internal/http let through to the handler that they stand around.
use onyxchat.Base.{
  ℕ, String, str_eq, eq_iff, false, ◌≡◌, refl, ◌∙◌, ◌⊎◌, inl, inr, Option, none, some, List, [],
  ◌∷◌, Bool-cases, ℤ, pos, negsuc, to_nat, arith,
}
use onyxchat.Sql.{query_row}
use onyxchat.Store.Db.{UserRow}
use onyxchat.Store.Session.{Session, Result, user_not_found, ok, err}
use onyxchat.Store.Users.{User, active_id}
use onyxchat.Store.Users.Lookup.{get_user_by_id-found, get_user_by_id-IsRead}
use onyxchat.Redis.{Redis}
use onyxchat.Http.{CurrentUser, Reply, error, json_error}
use onyxchat.Text.{print_nat}
use onyxchat.Http.Limits.{keyed_allow}
use onyxchat.Http.Gate.{Gate, GateHandler, get_user_by_int}
use onyxchat.Http.Identity.{auth_middleware-Authenticates}
use onyxchat.Http.Tickets.{Claimed, admitted, admit, from_ticket, or_header}
use onyxchat.Http.Router.{Guard, auth, per_user, admin, ws_auth, Asked, Setup, hand_back, guarded}

module _ {R : Redis} {L A : Type 0} (next : Option CurrentUser → GateHandler R L A)
    (g : Gate R L) where
  -- A refusal, which leaves the tables as they are.
  abbrev pub Refuses : Reply A × Gate R L → Type 0
  Refuses out =
      (code : ℕ) × (text : String) × ((out.0 ≡ error code text) ⊎ (out.0 ≡ json_error code text))
      × (out.1.server.session.db ≡ g.server.session.db)

  -- A user's request that is refused or goes on.
  abbrev pub GoesOn : Type 0 → CurrentUser → Reply A × Gate R L → Type 0
  GoesOn IsRight claims out =
      ((g' : Gate R L) × (g'.server.session.db ≡ g.server.session.db)
        × IsRight
        × (out ≡ next (some claims) g'))
      ⊎ Refuses out

  -- The request was refused, or went on with the claims of an account that is not deleted.
  abbrev pub Admits : (CurrentUser → Type 0) → Reply A × Gate R L → Type 0
  Admits IsRight out =
      ((claims : CurrentUser) × (u : UserRow) × (g' : Gate R L) × (query_row (active_id claims.id)
            g.server.session.db.users
          ≡ some u)
        × (g'.server.session.db ≡ g.server.session.db)
        × IsRight claims
        × (out ≡ next (some claims) g'))
      ⊎ Refuses out

module _ {R : Redis} {L A : Type 0} (c : Setup L) (asked : Asked)
    (next : Option CurrentUser → GateHandler R L A) where
  -- What a list of middlewares makes of a request that has a user.
  abbrev pub Keeps : (CurrentUser → Type 0) → List Guard → Type 0
  Keeps IsRight gs =
      (claims : CurrentUser) (g : Gate R L)
      → GoesOn next g (IsRight claims) claims (guarded c asked gs next (some claims) g)

  pub none-Keeps : Keeps (λ _. Unit {0}) []
  unfolding guarded
  none-Keeps claims g = inl (g, refl, tt, refl)

  pub admin-Keeps : Keeps (λ u. u.username ≡ c.admin_username) (admin ∷ [])
  unfolding guarded
  admin-Keeps claims g = elim (Bool-cases (str_eq claims.username c.admin_username)) [
    | inl same ↦ inl (g, refl, (eq_iff claims.username c.admin_username).0 same, rw same refl)
    | inr other ↦ inr (403, "forbidden", inl (rw other refl), rw other refl)
  ]

  pub per_user-Keeps :
      (IsRight : CurrentUser → Type 0) (gs : List Guard)
      → Keeps IsRight gs
      → Keeps IsRight (per_user ∷ gs)
  unfolding guarded
  per_user-Keeps IsRight gs keeps claims g =
      let asked_limiter =
        keyed_allow c.permit g.server.session.now (print_nat claims.id) g.user_limiter in
      elim (Bool-cases asked_limiter.0) [
        | inl within ↦ rw within (keeps claims (record g { user_limiter = asked_limiter.1 }))
        | inr full ↦ inr (429, "rate limit exceeded", inl (rw full refl), rw full refl)
      ]

  pub auth-Admits :
      (IsRight : CurrentUser → Type 0) (gs : List Guard) (g : Gate R L)
      → str_eq asked.method "OPTIONS" ≡ false
      → Keeps IsRight gs
      → Admits next g IsRight (guarded c asked (auth ∷ gs) next none g)
  unfolding guarded
  auth-Admits IsRight gs g method keeps =
      elim (auth_middleware-Authenticates c.parse_with_claims c.equal_fold c.jwt_secret hand_back
        asked.authorization g.server asked.method method) [
          | inl (scheme, token, claims, u, w, _, _, _, active, db, out) ↦
              rw out (elim (keeps claims (record g { server = w })) [
                | inl (g', kept, right, on) ↦ inl (claims, u, g', active, kept ∙ db, right, on)
                | inr (code, text, e, kept) ↦ inr (code, text, e, kept ∙ db)
              ])
          | inr (text, e, db, hub) ↦ inr (401, text, inr (rw e refl), rw e db)
        ]

get_user_by_int-found :
    (i : ℤ) (s : Session) (u : User)
    → (get_user_by_int i s).0 ≡ ok u
    → (r : UserRow) × (query_row (active_id (to_nat i)) s.db.users ≡ some r)
unfolding get_user_by_int
get_user_by_int-found (pos n) s u h = let (r, q, _) = get_user_by_id-found n s u h in (r, q)
get_user_by_int-found (negsuc n) s u h = ground arith

get_user_by_int-db : (i : ℤ) (s : Session) → (get_user_by_int i s).1.db ≡ s.db
unfolding get_user_by_int
get_user_by_int-db (pos n) s = (get_user_by_id-IsRead n s).db
get_user_by_int-db (negsuc n) s = ground arith

module _ {R : Redis} {L A : Type 0} (next : Option CurrentUser → GateHandler R L A)
    (g : Gate R L) where
  admitted-Admits :
      (uid : ℤ) (name : String) (x : Result User) (h : Gate R L)
      → h.server.session.db ≡ g.server.session.db
      → ((u : User)
          → x ≡ ok u
          → (r : UserRow) × (query_row (active_id (to_nat uid)) g.server.session.db.users ≡ some r))
      → Admits next g (λ _. Unit {0}) (admitted (λ u. next (some u)) uid name x h)
  admitted-Admits uid name (err user_not_found) h same row =
      inr (401, "unauthorized", inl refl, same)
  admitted-Admits uid name (err e) h same row = inr (500, "internal server error", inl refl, same)
  admitted-Admits uid name (ok u) h same row =
      let (r, q) = row u refl in
      inl (record { id = to_nat uid; username = name }, r, h, q, same, tt, refl)

  admit-Admits :
      (x : Claimed) (s : R.State)
      → Admits next g (λ _. Unit {0}) (admit (λ u. next (some u)) x (record g { redis = s }))
  admit-Admits none s = inr (401, "unauthorized", inl refl, refl)
  admit-Admits (some (uid, name)) s =
      admitted-Admits uid name _ _ (get_user_by_int-db uid g.server.session)
        (get_user_by_int-found uid g.server.session)

  pub ws_auth-Admits :
      (c : Setup L) (asked : Asked)
      → Admits next g (λ _. Unit {0}) (guarded c asked (ws_auth ∷ []) next none g)
  unfolding guarded
  ws_auth-Admits c asked =
      admit-Admits
        (or_header c.parse_with_claims c.equal_fold c.jwt_secret asked.authorization
          (from_ticket R asked.ticket g.redis).0)
        (from_ticket R asked.ticket g.redis).1
