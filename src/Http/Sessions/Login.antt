-- ===== src/Http/Sessions/Login.antt =====
-- What `LoginHandler` and `RegisterHandler` of internal/http/auth_handlers.go hand out, and to whom.
use onyxchat.Base.{
  ℕ, String, str_eq, Bool, true, false, ◌||◌, ◌≡◌, refl, ap, sym, ◌∙◌, inl, inr, Option, none, some,
  Bool-cases, pos, eq_iff,
}
use onyxchat.Text.{trim_space}
use onyxchat.Redis.{Redis, IsLawful, Answer, found, missing, failed}
use onyxchat.Sql.{query_row}
use onyxchat.Store.Db.{UserRow}
use onyxchat.Store.Session.{Result, ok, err, user_not_found}
use onyxchat.Store.Users.{User, active_name, scan_user}
use onyxchat.Store.Users.Lookup.{IsRead, get_user_by_username-IsRead, get_user_by_username-found}
use onyxchat.Http.{Reply, error, json_error, json, status, Server}
use onyxchat.Http.Limits.{KeyedLimiter}
use onyxchat.Http.Gate.{Gate}
use onyxchat.Http.Sessions.{
  Claims, SessionResponse, LoginRequest, generate, refresh_key, refresh_token_ttl,
  new_refresh_token, store_refresh_token, with_stored, with_refresh, with_token, login_handler,
  login_allowed, with_user_row,
}

module _ (R : Redis) (lawful : IsLawful R) (sign : Claims → String → Option String)
    (secret : String) where
  -- What a session that is handed out to a user consists of: an access token for it, and a refresh
  -- token under which Redis holds its id.
  pub record Issues (user : User) (now : ℕ) (resp : SessionResponse) (s : R.State) : Type 0 where
    pub id : resp.id ≡ user.id
    pub name : resp.username ≡ user.username
    pub access : generate sign secret now user ≡ some resp.token
    pub refresh : lawful.int_at (refresh_key resp.refresh_token) s ≡ some (pos user.id)

  -- Either a session is issued, or there is no session in the answer; the server stays as it is.
  abbrev pub Issued : {L : Type 0} → User → Gate R L → Reply SessionResponse × Gate R L → Type 0
  Issued user g (json code resp, h) =
      Issues user g.server.session.now resp h.redis × (h.server ≡ g.server)
  Issued user g (other, h) = h.server ≡ g.server

  module _ {L B : Type 0} (encode : B → String) (random : Option B) where
    stored-Issued :
        (user : User) (g : Gate R L) (token refresh : String) (a : Answer (Unit {0}))
        → generate sign secret g.server.session.now user ≡ some token
        → (store_refresh_token R refresh user.id g.redis).0 ≡ a
        → Issued user g (
            with_stored R sign secret encode random user token refresh a
              (record g { redis = (store_refresh_token R refresh user.id g.redis).1 }))
    unfolding store_refresh_token
    stored-Issued user g token refresh (found tt) t h = (
      record {
        id = refl;
        name = refl;
        access = t;
        refresh =
            lawful.set_int-int (refresh_key refresh) (refresh_key refresh) user.id refresh_token_ttl
              g.redis h
            ∙ rw ((eq_iff (refresh_key refresh) (refresh_key refresh)).1 refl) refl;
      },
      refl,
    )
    stored-Issued user g token refresh missing t h = refl
    stored-Issued user g token refresh failed t h = refl

    refresh-Issued :
        (user : User) (g : Gate R L) (token : String) (refresh : Option String)
        → generate sign secret g.server.session.now user ≡ some token
        → Issued user g (with_refresh R sign secret encode random user token refresh g)
    refresh-Issued user g token none t = refl
    refresh-Issued user g token (some refresh) t = stored-Issued user g token refresh _ t refl

    pub token-Issued :
        (user : User) (g : Gate R L) (x : Option String)
        → generate sign secret g.server.session.now user ≡ x
        → Issued user g (with_token R sign secret encode random user x g)
    token-Issued user g none t = refl
    token-Issued user g (some token) t =
        refresh-Issued user g token (new_refresh_token encode random) t

    module _ (permit : ℕ → L → Bool × L) (to_lower : String → String)
        (password_matches : String → String → Bool) where
      -- What a login did, by its answer.
      abbrev pub Logins : LoginRequest → Gate R L → Reply SessionResponse × Gate R L → Type 0
      Logins req g (json code resp, h) =
          (u : UserRow) × (query_row (active_name (trim_space req.username))
              g.server.session.db.users
            ≡ some u)
          × (password_matches u.password_hash req.password ≡ true)
          × Issues (scan_user u) g.server.session.now resp h.redis
          × (h.server.session.db ≡ g.server.session.db)
      Logins req g (other, h) = h.server.session.db ≡ g.server.session.db

      -- A session issued after reads of the store answers a login.
      Issued-Logins :
          (req : LoginRequest) (g k : Gate R L) (u : UserRow) (user : User)
          → IsRead g.server.session k.server.session
          → query_row (active_name (trim_space req.username)) g.server.session.db.users ≡ some u
          → user ≡ scan_user u
          → password_matches u.password_hash req.password ≡ true
          → (out : Reply SessionResponse × Gate R L) → Issued user k out
          → Logins req g out
      Issued-Logins req g k u user read q same m (json code resp, h) (i, kept) = (
        u,
        q,
        m,
        rw (sym same, sym read.now) i,
        ap (λ (v : Server L). v.session.db) kept ∙ read.db,
      )
      Issued-Logins req g k u user read q same m (error code t, h) kept =
          ap (λ (v : Server L). v.session.db) kept ∙ read.db
      Issued-Logins req g k u user read q same m (json_error code t, h) kept =
          ap (λ (v : Server L). v.session.db) kept ∙ read.db
      Issued-Logins req g k u user read q same m (status code, h) kept =
          ap (λ (v : Server L). v.session.db) kept ∙ read.db

      row-Logins :
          (req : LoginRequest) (g k : Gate R L) (x : Result User)
          → IsRead g.server.session k.server.session
          → ((user : User)
              → x ≡ ok user
              → (u : UserRow) × (query_row
                    (active_name (trim_space req.username))
                    g.server.session.db.users
                  ≡ some u)
                × (user ≡ scan_user u))
          → Logins req g (
              with_user_row R sign secret encode random permit to_lower password_matches
                req.password x k)
      row-Logins req g k (err user_not_found) read row = read.db
      row-Logins req g k (err e) read row = read.db
      row-Logins req g k (ok user) read row =
          elim (Bool-cases (password_matches user.password_hash req.password)) [
            | inl right ↦
                let (u, q, same) = row user refl in
                rw right (
                  Issued-Logins req g k u user read q same
                    (rw (sym (ap (λ (v : User). v.password_hash) same)) right) _
                    (token-Issued user k _ refl))
            | inr wrong ↦ rw wrong read.db
          ]

      allowed-Logins :
          (req : LoginRequest) (g : Gate R L) (limiter : KeyedLimiter L) (allowed : Bool)
          → Logins req g (
              login_allowed R sign secret encode random permit to_lower password_matches
                (trim_space req.username)
                req.password
                allowed
                (record g { id_limiter = limiter }))
      allowed-Logins req g limiter false = refl
      allowed-Logins req g limiter true =
          row-Logins req g _ _
            (get_user_by_username-IsRead (trim_space req.username) g.server.session)
            (get_user_by_username-found (trim_space req.username) g.server.session)

      -- A session is handed out only for a password that matches the one stored under an active user's
      -- trimmed name: the answer then names that user, carries an access token for it, and Redis holds
      -- its id under the refresh token. No login changes a table.
      pub login-Logins :
          (req : LoginRequest) (g : Gate R L)
          → Logins req g (
              login_handler R sign secret encode random permit to_lower password_matches
                (some req)
                g)
      unfolding login_handler
      login-Logins req g =
          elim (Bool-cases (str_eq (trim_space req.username) "" || str_eq req.password "")) [
            | inl blank ↦ rw blank refl
            | inr given ↦ rw given (allowed-Logins req g _ _)
          ]
