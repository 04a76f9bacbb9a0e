-- ===== src/Start/Notifier.antt =====
-- notification-service/cmd/notifier/main.go, up to the loops that it starts.
pub mod Agreement
use onyxchat.Base.{
  ℕ, ◌*◌, String, str_eq, Bool, true, false, Option, none, some, List, [], ◌∷◌, if◌then◌else◌,
}
use onyxchat.Http.Sentry.{Level, Logger, text}
use onyxchat.Start.{
  Platform, RedisOptions, Boot, ◌>>=◌, ◌>>◌, pure, done, fatal, unless, log_with, error_field,
  env_or,
}
use onyxchat.Start.Database.{init_tracer}
use onyxchat.Start.Server.{dev_service_secret}

-- What the service runs with.
pub record Settings : Type 0 where
  pub redis : RedisOptions
  pub server_url : String
  pub service_secret : String
  pub metrics_addr : String

module _ (p : Platform) where
  abbrev pub notifier_redis : RedisOptions
  notifier_redis = record {
    addr = env_or p "SM_REDIS_ADDR" "redis:6379";
    dial_timeout = 5 * 1000;
    read_timeout = 10 * 1000;
    write_timeout = 5 * 1000;
    tls = false;
    password = "";
  }

  abbrev pub note_default : Logger → Boot (Unit {0})
  note_default log =
      if str_eq (p.getenv "INTERNAL_SERVICE_SECRET") ""
      then log_with log Level.warn "INTERNAL_SERVICE_SECRET not set; using insecure dev default" []
      else done

  -- `main` up to notifier.New; its tracer differs in names only.
  unfoldable pub start_notifier : Logger → Boot Settings
  unfolding init_tracer
  start_notifier log = do
    init_tracer p log
    unless
        (λ e.
          fatal log "failed to connect to Redis"
            (text "addr" notifier_redis.addr ∷ error_field e ∷ []))
        (p.ping_redis notifier_redis)
        (log_with log Level.info "connected to Redis" (text "addr" notifier_redis.addr ∷ []))
    note_default log
    pure (record {
      redis = notifier_redis;
      server_url = env_or p "ONYXCHAT_SERVER_URL" "http://server:8080";
      service_secret = env_or p "INTERNAL_SERVICE_SECRET" dev_service_secret;
      metrics_addr = env_or p "NOTIF_METRICS_ADDR" ":9091";
    })
