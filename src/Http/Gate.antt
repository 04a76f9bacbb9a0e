-- ===== src/Http/Gate.antt =====
-- The handlers of internal/http that keep something in Redis, or are limited: the server, Redis and
-- the limiters of NewRouter.
use onyxchat.Base.{ℕ, String, Bool, Option, none, some, if◌then◌else◌, ℤ, pos, negsuc}
use onyxchat.Text.{print_nat}
use onyxchat.Redis.{Redis}
use onyxchat.Store.Session.{M, Result, run}
use onyxchat.Store.Users.{User, get_user_by_id, fetch, user_not_found_if_no_rows}
use onyxchat.Http.{CurrentUser, Reply, error, Server, Handler}
use onyxchat.Http.Limits.{KeyedLimiter, keyed_allow}

-- `L` is rate.Limiter.
pub record Gate (R : Redis) (L : Type 0) : Type 0 where
  pub server : Server L
  pub redis : R.State
  pub ip_limiter : KeyedLimiter L
  pub id_limiter : KeyedLimiter L
  pub user_limiter : KeyedLimiter L

abbrev pub GateHandler {ℓ} : (R : Redis) → Type 0 → Type ℓ → Type ℓ
GateHandler R L A = Gate R L → Reply A × Gate R L

module _ {ℓ} {R : Redis} {L : Type 0} {A : Type ℓ} where
  abbrev pub reply : Reply A → GateHandler R L A
  reply r g = (r, g)

  -- A handler that touches neither Redis nor a limiter.
  abbrev pub on_server : Handler L A → GateHandler R L A
  on_server handle g = let (r, v) = handle g.server in (r, record g { server = v })

  -- 401 without a user.
  abbrev pub as_user : Option CurrentUser → (CurrentUser → GateHandler R L A) → GateHandler R L A
  as_user none handle g = reply (error 401 "unauthorized") g
  as_user (some u) handle g = handle u g

module _ {ℓ κ} {R : Redis} {L : Type 0} {A : Type ℓ} {B : Type κ} where
  -- A call of the store, and of Redis.
  abbrev pub ask_store : M A → (Result A → GateHandler R L B) → GateHandler R L B
  ask_store m f g =
      let (r, s) = m g.server.session in f r (record g { server = record g.server { session = s } })

  abbrev pub ask_redis : (R.State → A × R.State) → (A → GateHandler R L B) → GateHandler R L B
  ask_redis c f g = let (a, s) = c g.redis in f a (record g { redis = s })

module _ {ℓ} {R : Redis} {L : Type 0} {A : Type ℓ} (permit : ℕ → L → Bool × L) where
  -- `LoginIPRateLimit` around a handler, for the address that ClientIP gives.
  unfoldable pub login_ip_rate_limit : String → GateHandler R L A → GateHandler R L A
  unfolding keyed_allow
  login_ip_rate_limit ip next g =
      let (ok, limiter) = keyed_allow permit g.server.session.now ip g.ip_limiter in
      let g' = record g { ip_limiter = limiter } in
      if ok then next g' else reply (error 429 "too many requests") g'

  -- `PerUserRateLimit` around a handler.
  unfoldable pub per_user_rate_limit : Option CurrentUser → GateHandler R L A → GateHandler R L A
  unfolding keyed_allow print_nat
  per_user_rate_limit none next g = next g
  per_user_rate_limit (some u) next g =
      let (ok, limiter) = keyed_allow permit g.server.session.now (print_nat u.id) g.user_limiter in
      let g' = record g { user_limiter = limiter } in
      if ok then next g' else reply (error 429 "rate limit exceeded") g'

-- `GetUserByID` of an int64: no row has a negative id.
unfoldable pub get_user_by_int : ℤ → M User
unfolding get_user_by_id run
get_user_by_int (pos n) = get_user_by_id n
get_user_by_int (negsuc n) = fetch user_not_found_if_no_rows λ db. none
