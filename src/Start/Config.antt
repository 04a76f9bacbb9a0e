-- ===== src/Start/Config.antt =====
-- What the server runs with, once it has started.
use onyxchat.Base.{
  String, str_eq, Bool, true, false, not, Option, none, some, List, [], ◌∷◌, ◌≡◌, refl, sym, ap,
  ◌∙◌, ◌⊎◌, inl, inr, Bool-cases, if◌then◌else◌,
}
use mathlib.Core.Path.{subst}
use onyxchat.Http.Sentry.{Level, Field, Logger, Sink}
use onyxchat.Start.{
  Platform, Fetched, fetched, failed, running, Boot, ◌>>=◌, ◌>>◌, pure, fatal, unless, from_fetched,
  env_or, Ensures, running-injective, >>=-Ensures, then-Ensures, RedisOptions, log_with,
}
use onyxchat.Start.Database.{resolve_secret}
use onyxchat.Start.Server.{
  Config, parse_allowed_origins, is_empty, dev_service_secret, jwt_secret, redis_options,
  service_secret, admin_username, allowed_origins, start,
}

-- The choice between a value that is given, the end of the program in prod, and a default.
chosen {ℓ} :
    {A : Type ℓ} (empty prod : Bool) (given other : A) (log : Logger) (lvl : Level)
    (msg why : String) (fields : List Field) (s : Sink) {v : A}
    → ((if not empty
          then pure given
          else if prod
          then fatal log why []
          else log_with log lvl msg fields >> pure other)
        s).0
      ≡ running v
    → ((empty ≡ false) × (given ≡ v)) ⊎ ((empty ≡ true) × (prod ≡ false) × (other ≡ v))
unfolding ◌>>=◌
chosen false prod given other log lvl msg why fields s h = inl (refl, cc)
chosen true true given other log lvl msg why fields s h = cc
chosen true false given other log lvl msg why fields s h = inr (refl, refl, cc)

module _ (p : Platform) where
  -- A secret of the environment, or of the parameter store where the variable is empty.
  abbrev pub IsFrom : (env_key ssm_path : String) → String → Type 0
  IsFrom env_key ssm_path v =
      (v ≡ p.getenv env_key)
      ⊎ ((str_eq (p.getenv env_key) "" ≡ true) × (p.get_parameter ssm_path ≡ fetched v))

  from_store :
      (ssm_path : String) (a : Option String) (r : Fetched String)
      (give_up give_up' : String → Boot String)
      → ((e : String) (s : Sink) (v : String) → (give_up e s).0 ≡ running v → ⊥)
      → ((e : String) (s : Sink) (v : String) → (give_up' e s).0 ≡ running v → ⊥)
      → (s : Sink) (v : String) → (unless give_up a (from_fetched give_up' r pure) s).0 ≡ running v
      → r ≡ fetched v
  from_store ssm_path none (fetched w) give_up give_up' ends ends' s v h = cc
  from_store ssm_path none (failed e) give_up give_up' ends ends' s v h = absurd (ends' e s v h)
  from_store ssm_path (some e) r give_up give_up' ends ends' s v h = absurd (ends e s v h)

  resolve_secret-IsFrom :
      (env_key ssm_path : String)
      → Ensures (IsFrom env_key ssm_path) (resolve_secret p env_key ssm_path)
  unfolding resolve_secret
  resolve_secret-IsFrom env_key ssm_path s v h = elim (Bool-cases (str_eq (p.getenv env_key) "")) [
    | inl unset ↦ inr (
      unset,
      from_store ssm_path p.aws_config (p.get_parameter ssm_path) _ _ (λ e s v h. cc)
          (λ e s v h. cc) s v (rw unset at h),
    )
    | inr given ↦ inl (let h' = rw given at h in cc)
  ]

  -- A text that is there, and in prod from where it should be.
  abbrev Checked : (env : String) → (IsRight : String → Type 0) → String → Type 0
  Checked env IsRight v = (str_eq v "" ≡ false) × (str_eq env "prod" ≡ true → IsRight v)

  Checked-chosen :
      (env : String) (IsRight : String → Type 0) (given other v : String)
      → str_eq other "" ≡ false
      → IsRight given
      → ((str_eq given "" ≡ false) × (given ≡ v))
        ⊎ ((str_eq given "" ≡ true) × (str_eq env "prod" ≡ false) × (other ≡ v))
      → Checked env IsRight v
  Checked-chosen env IsRight given other v there right (inl (full, e)) =
      subst (λ w. Checked env IsRight w) e (full, λ _. right)
  Checked-chosen env IsRight given other v there right (inr (_, dev, e)) =
      subst (λ w. Checked env IsRight w) e (there, λ prod. cc)

  admin_username-Checked :
      (log : Logger) (env : String)
      → Ensures (Checked env (λ w. w ≡ p.getenv "SM_ADMIN_USERNAME")) (admin_username p log env)
  unfolding admin_username
  admin_username-Checked log env s v h =
      let name = p.getenv "SM_ADMIN_USERNAME" in
      Checked-chosen env (λ w. w ≡ name) name "admin" v refl refl
        (chosen (str_eq name "") (str_eq env "prod") name "admin" log _ _ _ _ s h)

  jwt_secret-Checked :
      (log : Logger) (env : String)
      → Ensures
          (Checked env (IsFrom "JWT_SECRET" "/onyxchat/prod/JWT_SECRET"))
          (jwt_secret p log env)
  unfolding jwt_secret
  jwt_secret-Checked log env =
      >>=-Ensures _ _ (resolve_secret-IsFrom "JWT_SECRET" "/onyxchat/prod/JWT_SECRET")
        λ secret right s v h.
          Checked-chosen env (IsFrom "JWT_SECRET" "/onyxchat/prod/JWT_SECRET") secret
            "dev-insecure-jwt-secret-change-me" v refl right
            (chosen (str_eq secret "") (str_eq env "prod") secret _ log _ _ _ _ s h)

  allowed_origins_given :
      (log : Logger) (env : String)
      → Ensures
          (λ v.
            (is_empty v ≡ false)
            × (str_eq env "prod" ≡ true
                → v ≡ parse_allowed_origins (p.getenv "SM_ALLOWED_ORIGINS")))
          (allowed_origins p log env)
  unfolding allowed_origins
  allowed_origins_given log env s v h =
      let origins = parse_allowed_origins (p.getenv "SM_ALLOWED_ORIGINS") in
      elim (chosen (is_empty origins) (str_eq env "prod") origins ("http://localhost:5173" ∷ []) log
        _ _ _ _ s h) [
          | inl (full, e) ↦ (rw (← e) full, λ _. sym e)
          | inr (_, dev, e) ↦ (rw (← e) refl, λ prod. cc)
        ]

  service_secret_given :
      (log : Logger)
      → Ensures
          (λ v. (str_eq v "" ≡ false) × (v ≡ env_or p "INTERNAL_SERVICE_SECRET" dev_service_secret))
          (service_secret p log)
  unfolding service_secret ◌>>=◌
  service_secret_given log s v h =
      let secret = p.getenv "INTERNAL_SERVICE_SECRET" in
      elim (Bool-cases (str_eq secret "")) [
        | inl unset ↦
            let e : running dev_service_secret ≡ running v = rw unset at h in
            let e' : dev_service_secret ≡ v = cc in (rw (← e') refl, rw unset (sym e'))
        | inr given ↦
            let e : running secret ≡ running v = rw given at h in
            let e' : secret ≡ v = cc in (rw (← e') given, rw given (sym e'))
      ]

  redis_options_tls :
      (env : String) → Ensures (λ o. o.tls ≡ str_eq env "prod") (redis_options p env)
  unfolding redis_options
  redis_options_tls env s o h = elim (Bool-cases (str_eq env "prod")) [
    | inl prod ↦ rw prod (
        then-Ensures {P = λ o. o.tls ≡ true}
          (resolve_secret p "SM_REDIS_AUTH_TOKEN" "/onyxchat/prod/SM_REDIS_AUTH_TOKEN") _
          (λ password s o h. sym (ap (λ (o : RedisOptions). o.tls) (running-injective h))) s o
          (rw prod at h))
    | inr dev ↦ rw dev (sym (ap (λ (o : RedisOptions). o.tls) (running-injective (rw dev at h))))
  ]

-- What holds of the configuration of a server that has started.
pub record IsConfigured (p : Platform) (c : Config) : Type 0 where
  pub jwt_given : str_eq c.jwt_secret "" ≡ false
  pub service_given : str_eq c.service_secret "" ≡ false
  pub service_from : c.service_secret ≡ env_or p "INTERNAL_SERVICE_SECRET" dev_service_secret
  pub admin_given : str_eq c.admin_username "" ≡ false
  pub origins_given : is_empty c.allowed_origins ≡ false
  pub in_prod :
      p.getenv "SM_ENV" ≡ "prod"
      → IsFrom p "JWT_SECRET" "/onyxchat/prod/JWT_SECRET" c.jwt_secret
        × (c.admin_username ≡ p.getenv "SM_ADMIN_USERNAME")
        × (c.allowed_origins ≡ parse_allowed_origins (p.getenv "SM_ALLOWED_ORIGINS"))
        × (c.redis.tls ≡ true)

env_or-prod :
    (p : Platform) → p.getenv "SM_ENV" ≡ "prod" → str_eq (env_or p "SM_ENV" "dev") "prod" ≡ true
env_or-prod p prod = rw prod refl

start-Ensures : (p : Platform) (plain : Logger) → Ensures (IsConfigured p) (start p plain)
unfolding start
start-Ensures p plain =
    let env = env_or p "SM_ENV" "dev" in
    then-Ensures _ _ λ _. then-Ensures _ _ λ log.
      >>=-Ensures _ _ (jwt_secret-Checked p log env) λ jwt jwt_ok. then-Ensures _ _ λ pool.
        then-Ensures _ _ λ _. >>=-Ensures _ _ (redis_options_tls p env) λ redis tls.
          then-Ensures _ _ λ _. >>=-Ensures _ _ (service_secret_given p log) λ service service_ok.
            >>=-Ensures _ _ (admin_username-Checked p log env) λ admin admin_ok.
              >>=-Ensures _ _ (allowed_origins_given p log env) λ origins origins_ok s c h.
                subst (IsConfigured p) (running-injective h) (record {
                  jwt_given = jwt_ok.0;
                  service_given = service_ok.0;
                  service_from = service_ok.1;
                  admin_given = admin_ok.0;
                  origins_given = origins_ok.0;
                  in_prod = λ prod.
                      let is_prod = env_or-prod p prod in
                      (jwt_ok.1 is_prod, admin_ok.1 is_prod, origins_ok.1 is_prod, tls ∙ is_prod);
                })

-- A server that starts has a JWT secret, a service secret, an administrator's name and an allowed
-- origin, none of them empty. The service secret is INTERNAL_SERVICE_SECRET, or the default of the source
-- where that is empty. In prod the JWT secret is the one of the environment, or of the parameter
-- store where the variable is empty, the administrator's name and the origins are those of the
-- environment, and Redis is reached over TLS.
pub start-IsConfigured :
    (p : Platform) (plain : Logger) (s : Sink) (c : Config)
    → (start p plain s).0 ≡ running c
    → IsConfigured p c
start-IsConfigured p plain s c h = start-Ensures p plain s c h
