-- ===== src/Start/Secret.antt =====
-- When the server starts, and the secret that guards its internal routes.
use onyxchat.Base.{String, str_eq, true, false, none, ◌≡◌, refl, inl, inr, Bool-cases, Option-cases}
use onyxchat.Http.{Handler, Server}
use onyxchat.Http.Auth.{internal_service_auth}
use onyxchat.Http.Sentry.{Logger, Sink}
use onyxchat.Start.{
  Platform, running, Boot, ◌>>=◌, done, unless, env_or, Succeeds, >>=-Succeeds, RedisOptions,
}
use onyxchat.Start.Database.{
  resolve_secret, must_open, run_migrations, init_tracer, resolve_db_dsn, new_pool,
}
use onyxchat.Start.Server.{
  Config, parse_allowed_origins, is_empty, dev_service_secret, with_sentry, jwt_secret,
  redis_options, connect_redis, service_secret, admin_username, allowed_origins, start,
}

-- An environment in prod with every variable that the start insists on, and services that answer.
-- INTERNAL_SERVICE_SECRET is not among them.
pub record IsReady (p : Platform) : Type 0 where
  pub in_prod : p.getenv "SM_ENV" ≡ "prod"
  pub jwt_set : str_eq (p.getenv "JWT_SECRET") "" ≡ false
  pub dsn_set : str_eq (p.getenv "SM_DB_DSN") "" ≡ false
  pub opens : p.open_db (p.getenv "SM_DB_DSN") ≡ none
  pub pings : p.ping_db (p.getenv "SM_DB_DSN") ≡ none
  pub migrates : run_migrations p ≡ none
  pub token_set : str_eq (p.getenv "SM_REDIS_AUTH_TOKEN") "" ≡ false
  pub redis_answers : (o : RedisOptions) → p.ping_redis o ≡ none
  pub admin_set : str_eq (p.getenv "SM_ADMIN_USERNAME") "" ≡ false
  pub origins_set : is_empty (parse_allowed_origins (p.getenv "SM_ALLOWED_ORIGINS")) ≡ false

abbrev Any {ℓ} : {A : Type ℓ} → A → Type 0
Any a = Unit {0}

module _ (p : Platform) where
  init_tracer-Succeeds : (log : Logger) → Succeeds Any (init_tracer p log)
  unfolding init_tracer ◌>>=◌
  init_tracer-Succeeds log s =
      elim (Bool-cases (str_eq (p.getenv "OTEL_EXPORTER_OTLP_ENDPOINT") "")) [
        | inl unset ↦ (false, rw unset refl, tt)
        | inr endpoint ↦
            elim (Option-cases (p.new_exporter (p.getenv "OTEL_EXPORTER_OTLP_ENDPOINT"))) [
              | inr (e, bad) ↦ (false, rw (endpoint, bad) refl, tt)
              | inl good ↦ elim (Option-cases p.new_resource) [
                | inr (e, bad) ↦ (true, rw (endpoint, good, bad) refl, tt)
                | inl fine ↦ (true, rw (endpoint, good, fine) refl, tt)
              ]
            ]
      ]

  connect_redis-Succeeds :
      (log : Logger) (o : RedisOptions)
      → p.ping_redis o ≡ none
      → Succeeds Any (connect_redis p log o)
  unfolding connect_redis ◌>>=◌
  connect_redis-Succeeds log o up s = elim (Option-cases p.instrument_tracing) [
    | inl fine ↦ (tt, rw (fine, up) refl, tt)
    | inr (e, bad) ↦ (tt, rw (bad, up) refl, tt)
  ]

  service_secret-Succeeds :
      (log : Logger)
      → Succeeds
          (λ v. v ≡ env_or p "INTERNAL_SERVICE_SECRET" dev_service_secret)
          (service_secret p log)
  unfolding service_secret ◌>>=◌
  service_secret-Succeeds log s =
      elim (Bool-cases (str_eq (p.getenv "INTERNAL_SERVICE_SECRET") "")) [
        | inl unset ↦ (dev_service_secret, rw unset refl, rw unset refl)
        | inr given ↦ (p.getenv "INTERNAL_SERVICE_SECRET", rw given refl, rw given refl)
      ]

  module _ (ready : IsReady p) where
    resolved :
        (env_key ssm_path : String)
        → str_eq (p.getenv env_key) "" ≡ false
        → Succeeds (λ v. v ≡ p.getenv env_key) (resolve_secret p env_key ssm_path)
    unfolding resolve_secret
    resolved env_key ssm_path given s = (p.getenv env_key, rw given refl, refl)

    jwt_secret-Succeeds : (log : Logger) (env : String) → Succeeds Any (jwt_secret p log env)
    unfolding jwt_secret
    jwt_secret-Succeeds log env =
        >>=-Succeeds _ _ (resolved _ _ ready.jwt_set) λ v e s. (v, rw (e, ready.jwt_set) refl, tt)

    must_open-Succeeds : Succeeds Any (must_open p)
    unfolding must_open resolve_db_dsn ◌>>=◌
    must_open-Succeeds s =
        (new_pool (p.getenv "SM_DB_DSN"), rw (ready.dsn_set, ready.opens, ready.pings) refl, tt)

    redis_options-Succeeds : (env : String) → Succeeds Any (redis_options p env)
    unfolding redis_options
    redis_options-Succeeds env = elim (Bool-cases (str_eq env "prod")) [
      | inl prod ↦ rw prod (
          >>=-Succeeds {Q = λ v. v ≡ p.getenv "SM_REDIS_AUTH_TOKEN"} {P = Any} _ _
            (resolved "SM_REDIS_AUTH_TOKEN" "/onyxchat/prod/SM_REDIS_AUTH_TOKEN" ready.token_set)
            (λ v e s. (_, refl, tt)))
      | inr dev ↦ rw dev (λ s. (_, refl, tt))
    ]

    admin_username-Succeeds :
        (log : Logger) (env : String) → Succeeds Any (admin_username p log env)
    unfolding admin_username
    admin_username-Succeeds log env s = (p.getenv "SM_ADMIN_USERNAME", rw ready.admin_set refl, tt)

    allowed_origins-Succeeds :
        (log : Logger) (env : String) → Succeeds Any (allowed_origins p log env)
    unfolding allowed_origins
    allowed_origins-Succeeds log env s =
        (parse_allowed_origins (p.getenv "SM_ALLOWED_ORIGINS"), rw ready.origins_set refl, tt)

    migrations-Succeeds :
        (give_up : String → Boot (Unit {0})) → Succeeds Any (unless give_up (run_migrations p) done)
    migrations-Succeeds give_up s = (tt, rw ready.migrates refl, tt)

    start-Succeeds :
        (plain : Logger)
        → Succeeds
            (λ c.
              (c.env ≡ "prod")
              × (c.service_secret ≡ env_or p "INTERNAL_SERVICE_SECRET" dev_service_secret))
            (start p plain)
    unfolding start
    start-Succeeds plain =
        let env = env_or p "SM_ENV" "dev" in
        >>=-Succeeds _ _ (init_tracer-Succeeds plain) λ _ _.
          >>=-Succeeds {Q = Any} (with_sentry p env plain) _ (λ s. (_, refl, tt))
            λ log _. >>=-Succeeds _ _ (jwt_secret-Succeeds log env) λ jwt _.
              >>=-Succeeds _ _ must_open-Succeeds λ pool _.
                >>=-Succeeds _ _ (migrations-Succeeds _) λ _ _.
                  >>=-Succeeds _ _ (redis_options-Succeeds env) λ redis _.
                    >>=-Succeeds _ _ (connect_redis-Succeeds log redis (ready.redis_answers redis))
                      λ _ _. >>=-Succeeds _ _ (service_secret-Succeeds log) λ service is_service.
                        >>=-Succeeds _ _ (admin_username-Succeeds log env) λ admin _.
                          >>=-Succeeds _ _ (allowed_origins-Succeeds log env)
                            λ origins _ s. (_, refl, (rw ready.in_prod refl, is_service))

-- In prod, with every variable set that the start insists on and services that answer, the server
-- starts. It does so without INTERNAL_SERVICE_SECRET too, and then its internal routes are open to
-- everyone who sends the default that stands in the source.
pub start-default_secret :
    (p : Platform) (plain : Logger) (s : Sink)
    → IsReady p
    → (c : Config) × ((start p plain s).0 ≡ running c)
      × (c.env ≡ "prod")
      × (str_eq (p.getenv "INTERNAL_SERVICE_SECRET") "" ≡ true
          → (L A : Type 0) (next : Handler L A) (v : Server L)
          → internal_service_auth c.service_secret dev_service_secret next v ≡ next v)
unfolding internal_service_auth
start-default_secret p plain s ready =
    let (c, ran, (in_prod, is_service)) = start-Succeeds p ready plain s in
    (c, ran, in_prod, λ unset L A next v. rw (is_service, unset) refl)
