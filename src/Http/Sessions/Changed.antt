-- ===== src/Http/Sessions/Changed.antt =====
-- `ChangePasswordHandler` of internal/http/password_handlers.go and `LoginHandler` of
-- auth_handlers.go together.
use onyxchat.Base.{ℕ, String, Bool, true, ◌≡◌, refl, ap, sym, ◌∙◌, Option, some, ◌==◌, ==_iff}
use onyxchat.Text.{trim_space}
use onyxchat.Redis.{Redis, IsLawful}
use onyxchat.Sql.{query_row}
use onyxchat.Sql.Laws.{query_row-update}
use onyxchat.Store.Db.{Db, UserRow}
use onyxchat.Store.Users.{active_name}
use onyxchat.Http.{CurrentUser, Reply, error, json_error, json, status, Server}
use onyxchat.Http.Auth.{ChangePasswordRequest, change_password_handler}
use onyxchat.Http.Password.{Changes, with_hash, change_password-Changes}
use onyxchat.Http.Gate.{Gate}
use onyxchat.Http.Sessions.{Claims, SessionResponse, LoginRequest, login_handler}
use onyxchat.Http.Sessions.Login.{Logins, login-Logins}

-- The active user of a name, with a new hash in the row of its id.
query_row-with_hash :
    (uid : ℕ) (name hash : String) (db : Db) (u : UserRow)
    → query_row (active_name name) db.users ≡ some u
    → u.id ≡ uid
    → query_row (active_name name) (with_hash uid hash db).users
      ≡ some (record u { password_hash = hash })
unfolding active_name
query_row-with_hash uid name hash db u q own =
    query_row-update (λ x. x.id == uid) (active_name name) (λ x. record x { password_hash = hash })
      db.users (λ x. refl)
    ∙ rw (q, (==_iff u.id uid).1 own) refl

module _ (password_matches : (hash password : String) → Bool)
    (hash_password : String → Option String) {L : Type 0} where
  -- What a change that was answered with a status left under the caller's name.
  changed :
      (cu : CurrentUser) (req : ChangePasswordRequest) (v : Server L)
      (x : Reply (Unit {0}) × Server L) (code : ℕ)
      → ((u : UserRow)
          → query_row (active_name cu.username) v.session.db.users ≡ some u
          → u.id ≡ cu.id)
      → Changes password_matches hash_password cu req v x
      → x.0 ≡ status code
      → (u : UserRow) × (hash : String) × (hash_password req.new_password ≡ some hash)
        × (query_row (active_name cu.username) x.1.session.db.users
            ≡ some (record u { password_hash = hash }))
        × (u.id ≡ cu.id)
  changed cu req v (status c, w) code own (u, hash, q, m, long, h, e) a = (
    u,
    hash,
    h,
    rw e (query_row-with_hash cu.id cu.username hash v.session.db u q (own u q)),
    own u q,
  )
  changed cu req v (error c t, w) code own e a = cc
  changed cu req v (json_error c t, w) code own e a = cc
  changed cu req v (json c t, w) code own e a = cc

module _ (R : Redis) (lawful : IsLawful R) (sign : Claims → String → Option String)
    (secret : String) {L B : Type 0} (encode : B → String) (random : Option B)
    (permit : ℕ → L → Bool × L) (to_lower : String → String)
    (password_matches : (hash password : String) → Bool)
    (hash_password : String → Option String) where
  logged_in :
      (login : LoginRequest) (g : Gate R L) (x : Reply SessionResponse × Gate R L) (code : ℕ)
      (resp : SessionResponse) (u : UserRow)
      → Logins R lawful sign secret encode random permit to_lower password_matches login g x
      → x.0 ≡ json code resp
      → query_row (active_name (trim_space login.username)) g.server.session.db.users ≡ some u
      → (password_matches u.password_hash login.password ≡ true) × (resp.id ≡ u.id)
  logged_in login g (json c r, h) code resp u (w, q, m, i, _) a here =
      let same : w ≡ u = cc in
      let same_resp : r ≡ resp = cc in
      (
        rw (sym same) m,
        ap (λ (z : SessionResponse). z.id) (sym same_resp) ∙ i.id ∙ ap (λ (z : UserRow). z.id) same,
      )
  logged_in login g (error c t, h) code resp u e a here = cc
  logged_in login g (json_error c t, h) code resp u e a here = cc
  logged_in login g (status c, h) code resp u e a here = cc

  -- After a change of password that was answered with a bare status, for a caller whose name belongs
  -- to the active user with the caller's id: whoever logs in under that name, on the tables that the
  -- change left, gets a session only for a password that matches the hash of the new one, and the
  -- session is the caller's.
  pub change_password-login :
      (cu : CurrentUser) (req : ChangePasswordRequest) (v : Server L) (login : LoginRequest)
      (g : Gate R L) (code code' : ℕ) (resp : SessionResponse)
      → ((u : UserRow)
          → query_row (active_name cu.username) v.session.db.users ≡ some u
          → u.id ≡ cu.id)
      → (change_password_handler password_matches hash_password (some cu) (some req) v).0
        ≡ status code
      → g.server.session.db
        ≡ (change_password_handler password_matches hash_password
            (some cu)
            (some req)
            v).1.session.db
      → trim_space login.username ≡ cu.username
      → (login_handler R sign secret encode random permit to_lower password_matches
          (some login)
          g).0
        ≡ json code' resp
      → (hash : String) × (hash_password req.new_password ≡ some hash)
        × (password_matches hash login.password ≡ true)
        × (resp.id ≡ cu.id)
  change_password-login cu req v login g code code' resp own done same named answered =
      let (u, hash, h, q, mine) =
        changed password_matches hash_password cu req v _ code own
          (change_password-Changes password_matches hash_password cu req v) done in
      let (m, i) =
        logged_in login g _ code' resp (record u { password_hash = hash })
          (login-Logins R lawful sign secret encode random permit to_lower password_matches login g)
          answered (rw (named, same) q) in
      (hash, h, m, i ∙ mine)
