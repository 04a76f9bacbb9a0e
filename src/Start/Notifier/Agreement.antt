-- ===== src/Start/Notifier/Agreement.antt =====
-- The two programs agree on the secret between them.
use onyxchat.Base.{◌≡◌, refl, sym, ap}
use text.Mathlib.TextPositions.{eq_refl}
use onyxchat.Http.{Handler, Server}
use onyxchat.Http.Auth.{internal_service_auth}
use onyxchat.Http.Sentry.{Logger, Sink}
use onyxchat.Start.{Platform, running, env_or, Ensures, then-Ensures, running-injective}
use onyxchat.Start.Server.{Config, start, dev_service_secret}
use onyxchat.Start.Config.{start-IsConfigured}
use onyxchat.Start.Notifier.{Settings, start_notifier}

start_notifier_secret :
    (p : Platform) (log : Logger)
    → Ensures
        (λ c. c.service_secret ≡ env_or p "INTERNAL_SERVICE_SECRET" dev_service_secret)
        (start_notifier p log)
unfolding start_notifier
start_notifier_secret p log = then-Ensures _ _ λ _. then-Ensures _ _ λ _.
    then-Ensures _ _ λ _ s c h. sym (ap (λ (t : Settings). t.service_secret) (running-injective h))

-- A server and a notification service that have started with the same value of
-- INTERNAL_SERVICE_SECRET, set or not, agree: the server's internal routes let the requests of the service
-- through.
pub start-start_notifier :
    (p q : Platform) (plain log : Logger) (s s' : Sink) (c : Config) (c' : Settings)
    → p.getenv "INTERNAL_SERVICE_SECRET" ≡ q.getenv "INTERNAL_SERVICE_SECRET"
    → (start p plain s).0 ≡ running c
    → (start_notifier q log s').0 ≡ running c'
    → (L A : Type 0) (next : Handler L A) (v : Server L)
    → internal_service_auth c.service_secret c'.service_secret next v ≡ next v
unfolding internal_service_auth
start-start_notifier p q plain log s s' c c' same ran ran' L A next v =
    let server = (start-IsConfigured p plain s c ran).service_from in
    let service = start_notifier_secret q log s' c' ran' in
    rw (server, service, same, eq_refl (env_or q "INTERNAL_SERVICE_SECRET" dev_service_secret)) refl
