-- ===== src/Http/Sessions.antt =====
-- internal/http/auth_handlers.go and refresh_token.go, with `Generate` of jwt.go: registration, login,
-- and the rotation of refresh tokens. `hash_password` is bcrypt.GenerateFromPassword and
-- `password_matches` whether bcrypt.CompareHashAndPassword returns no error; `sign` is SignedString
-- under HS256; `random` is what rand.Read fills for a refresh token, where it does not fail, and
-- `encode` is base64.RawURLEncoding.EncodeToString.
pub mod Login
pub mod Changed
pub mod Rotation
pub mod Registering
pub mod Renewal
use Prim.Native.String.{◌++◌}
use onyxchat.Base.{
  ℕ, ◌+◌, ◌*◌, String, str_eq, Bool, true, false, ◌||◌, Option, none, some, List, map,
  if◌then◌else◌, ℤ, coalesce,
}
use onyxchat.Text.{trim_space, print_nat}
use onyxchat.Redis.{Redis, Answer, found, missing, failed}
use onyxchat.Store.Session.{
  Result, ok, err, Error, user_not_found, invalid_invite_code, username_taken,
}
use onyxchat.Store.Users.{
  User, UserName, register_with_invite, get_user_by_username, list_users, search_users,
}
use onyxchat.Http.{Reply, json_error, json, Server, Handler, answer, call}
use onyxchat.Http.Limits.{keyed_allow}
use onyxchat.Http.Gate.{Gate, GateHandler, reply, ask_store, ask_redis, get_user_by_int}

pub record Claims : Type 0 where
  pub user_id : ℕ
  pub username : String
  pub subject : String
  pub expires_at : ℕ
  pub issued_at : ℕ

-- `JWTManager.Generate`: a token lasts 15 minutes.
unfoldable pub generate : (Claims → String → Option String) → String → ℕ → User → Option String
unfolding print_nat
generate sign secret now user =
    sign
      (record {
        user_id = user.id;
        username = user.username;
        subject = print_nat user.id;
        expires_at = now + 15 * 60;
        issued_at = now;
      })
      secret

-- `refreshTokenPrefix` before the token, and `refreshTokenTTL` in seconds.
abbrev pub refresh_key : String → String
refresh_key token = "rt:" ++ token

abbrev pub refresh_token_ttl : ℕ
refresh_token_ttl = 30 * 24 * 60 * 60

module _ {B : Type 0} (encode : B → String) where
  abbrev pub new_refresh_token : Option B → Option String
  new_refresh_token none = none
  new_refresh_token (some b) = some (encode b)

module _ (R : Redis) where
  unfoldable pub store_refresh_token : String → ℕ → R.State → Answer (Unit {0}) × R.State
  store_refresh_token token uid = R.set_int (refresh_key token) uid refresh_token_ttl

  unfoldable pub lookup_refresh_token : String → R.State → Answer ℤ × R.State
  lookup_refresh_token token = R.get_int (refresh_key token)

  unfoldable pub delete_refresh_token : String → R.State → Answer (Unit {0}) × R.State
  delete_refresh_token token = R.del (refresh_key token)

pub record RegisterRequest : Type 0 where
  pub username : String
  pub password : String
  pub invite_code : String

-- `RegisterResponse`, and `LoginResponse`, which has the same fields.
pub record SessionResponse : Type 0 where
  pub id : ℕ
  pub username : String
  pub token : String
  pub refresh_token : String

pub record LoginRequest : Type 0 where
  pub username : String
  pub password : String

pub record RefreshResponse : Type 0 where
  pub token : String
  pub refresh_token : String

module _ (R : Redis) {L B : Type 0} (sign : Claims → String → Option String) (secret : String)
    (encode : B → String) (random : Option B) where
  abbrev pub with_stored :
      User → (token refresh : String) → Answer (Unit {0}) → GateHandler R L SessionResponse
  with_stored user token refresh (found _) = reply (
      json 200
        (record { id = user.id; username = user.username; token = token; refresh_token = refresh }))
  with_stored user token refresh _ = reply (json_error 500 "failed to generate token")

  abbrev pub with_refresh :
      User → (token : String) → Option String → GateHandler R L SessionResponse
  with_refresh user token none = reply (json_error 500 "failed to generate token")
  with_refresh user token (some refresh) =
      ask_redis (store_refresh_token R refresh user.id) (with_stored user token refresh)

  abbrev pub with_token : User → Option String → GateHandler R L SessionResponse
  with_token user none = reply (json_error 500 "failed to generate token")
  with_token user (some token) = with_refresh user token (new_refresh_token encode random)

  -- The end of `RegisterHandler` and of `LoginHandler`: the access token, then the refresh token.
  abbrev pub issue : User → GateHandler R L SessionResponse
  issue user g = with_token user (generate sign secret g.server.session.now user) g

  module _ (hash_password : String → Option String) where
    abbrev pub registered : Result User → GateHandler R L SessionResponse
    registered (err invalid_invite_code) =
        reply (json_error 403 "invalid or already used invite code")
    registered (err username_taken) = reply (json_error 409 "username already taken")
    registered (err e) = reply (json_error 500 "failed to create user")
    registered (ok user) = issue user

    abbrev pub register_hashed :
        (code username : String) → Option String → GateHandler R L SessionResponse
    register_hashed code username none = reply (json_error 500 "could not hash password")
    register_hashed code username (some hash) =
        ask_store (register_with_invite code username hash) registered

    unfoldable pub register_handler : Option RegisterRequest → GateHandler R L SessionResponse
    unfolding trim_space register_with_invite store_refresh_token generate
    register_handler none = reply (json_error 400 "invalid JSON")
    register_handler (some req) =
        let username = trim_space req.username in
        if str_eq username "" || str_eq req.password ""
        then reply (json_error 400 "username and password required")
        else if str_eq req.invite_code ""
        then reply (json_error 403 "invite code required")
        else register_hashed req.invite_code username (hash_password req.password)

  module _ (permit : ℕ → L → Bool × L) (to_lower : String → String)
      (password_matches : (hash password : String) → Bool) where
    abbrev pub with_user_row : (password : String) → Result User → GateHandler R L SessionResponse
    with_user_row password (err user_not_found) = reply (json_error 401 "invalid credentials")
    with_user_row password (err e) = reply (json_error 500 "internal server error")
    with_user_row password (ok user) =
        if password_matches user.password_hash password
        then issue user
        else reply (json_error 401 "invalid credentials")

    abbrev pub login_allowed : (username password : String) → Bool → GateHandler R L SessionResponse
    login_allowed username password true =
        ask_store (get_user_by_username username) (with_user_row password)
    login_allowed username password false = reply (json_error 429 "too many requests")

    abbrev pub login_named : (username password : String) → GateHandler R L SessionResponse
    login_named username password g =
        let (allowed, limiter) =
          keyed_allow permit g.server.session.now (to_lower username) g.id_limiter in
        login_allowed username password allowed (record g { id_limiter = limiter })

    unfoldable pub login_handler : Option LoginRequest → GateHandler R L SessionResponse
    unfolding trim_space keyed_allow get_user_by_username store_refresh_token generate
    login_handler none = reply (json_error 400 "invalid JSON")
    login_handler (some req) =
        let username = trim_space req.username in
        if str_eq username "" || str_eq req.password ""
        then reply (json_error 400 "username and password required")
        else login_named username req.password

  abbrev pub refreshed : (refresh : String) → Option String → GateHandler R L RefreshResponse
  refreshed refresh none = reply (json_error 500 "failed to generate token")
  refreshed refresh (some token) =
      reply (json 200 (record { token = token; refresh_token = refresh }))

  abbrev pub after_store :
      User → (refresh : String) → Answer (Unit {0}) → GateHandler R L RefreshResponse
  after_store user refresh (found _) g =
      refreshed refresh (generate sign secret g.server.session.now user) g
  after_store user refresh _ g = reply (json_error 500 "failed to generate token") g

  abbrev pub store_new : User → Option String → GateHandler R L RefreshResponse
  store_new user none = reply (json_error 500 "failed to generate token")
  store_new user (some refresh) =
      ask_redis (store_refresh_token R refresh user.id) (after_store user refresh)

  -- The answer to the deletion of the old token is not looked at.
  abbrev pub rotate : (old : String) → Result User → GateHandler R L RefreshResponse
  rotate old (err e) = reply (json_error 401 "account not found")
  rotate old (ok user) =
      ask_redis (delete_refresh_token R old) λ _. store_new user (new_refresh_token encode random)

  abbrev pub with_owner : (old : String) → Answer ℤ → GateHandler R L RefreshResponse
  with_owner old (found uid) = ask_store (get_user_by_int uid) (rotate old)
  with_owner old _ = reply (json_error 401 "invalid or expired refresh token")

  -- The body is `refresh_token`.
  unfoldable pub refresh_handler : Option String → GateHandler R L RefreshResponse
  unfolding lookup_refresh_token get_user_by_int delete_refresh_token store_refresh_token generate
  refresh_handler none = reply (json_error 400 "invalid JSON")
  refresh_handler (some old) =
      if str_eq old ""
      then reply (json_error 401 "refresh_token required")
      else ask_redis (lookup_refresh_token R old) (with_owner old)

-- The body is `refresh_token`; the answer to its deletion is not looked at.
unfoldable pub logout_handler : (R : Redis) → {L : Type 0} → Option String → GateHandler R L String
unfolding delete_refresh_token
logout_handler R none = reply (json_error 400 "invalid JSON")
logout_handler R (some token) =
    if str_eq token ""
    then reply (json 200 "ok")
    else ask_redis (delete_refresh_token R token) λ _. reply (json 200 "ok")

module _ {L : Type 0} (before : String → String → Bool) (ilike : String → String → Bool) where
  abbrev listed : Result (List UserName) → Handler L (List UserName)
  listed (err e) = answer (json_error 500 "failed to list users")
  listed (ok us) = answer (json 200 us)

  -- The query's value of search.
  unfoldable pub list_users_handler : String → Handler L (List UserName)
  unfolding trim_space list_users search_users
  list_users_handler search =
      let q = trim_space search in
      if str_eq q ""
      then call (list_users before) listed
      else call (search_users before ilike q) listed
