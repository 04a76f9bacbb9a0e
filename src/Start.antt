-- ===== src/Start.antt =====
-- How the two programs start: the environment and the services that they ask, as what those answer, and
-- a start as a chain of steps that log and may end the program.
pub mod Database
pub mod Server
pub mod Notifier
pub mod Origins
pub mod Config
pub mod Secret
use Prim.Native.String.{◌++◌}
use onyxchat.Base.{
  ℕ, String, str_eq, Bool, Option, none, some, List, [], ◌∷◌, if◌then◌else◌, ◌≡◌, refl,
}
use onyxchat.Http.Sentry.{Level, Field, Logger, Sink, log_at, ClientOptions, SentryCore, err}

-- A value, or the text of an error.
pub data Fetched {ℓ} (A : Type ℓ) : Type ℓ where
  fetched : A → Fetched A
  failed : String → Fetched A

-- The options of the Redis client; in milliseconds.
pub record RedisOptions : Type 0 where
  pub addr : String
  pub dial_timeout : ℕ
  pub read_timeout : ℕ
  pub write_timeout : ℕ
  pub tls : Bool
  pub password : String

-- What migrate's Up and Version return: an error may be ErrNoChange, or ErrNilVersion.
pub data Migrated : Type 0 where
  applied : Migrated
  unchanged : Migrated
  broken : String → Migrated

-- os.Getenv, and the answers of AWS, the database, the migration library, Redis, Sentry, the tee of zap
-- and the OTLP exporter; where only an error matters, it is `none` or its text.
pub record Platform : Type 0 where
  pub getenv : String → String
  pub aws_config : Option String
  pub get_parameter : String → Fetched String
  pub get_secret_value : String → Fetched String
  pub parse_creds : String → Fetched (String × String)
  pub query_escape : String → String
  pub open_db : String → Option String
  pub ping_db : String → Option String
  pub migration_source : Option String
  pub migration_driver : Option String
  pub new_migrator : Option String
  pub migrate_up : Migrated
  pub migration_version : Migrated
  pub instrument_tracing : Option String
  pub ping_redis : RedisOptions → Option String
  pub init_sentry_sdk : ClientOptions → Option String
  pub new_tee : Logger → SentryCore → Logger
  pub new_exporter : String → Option String
  pub new_resource : Option String

-- A program that runs on with a value, or that ended with the text of a fatal entry.
pub data Outcome {ℓ} (A : Type ℓ) : Type ℓ where
  running : A → Outcome A
  exits : String → Outcome A

abbrev pub Boot {ℓ} : Type ℓ → Type ℓ
Boot A = Sink → Outcome A × Sink

abbrev pub continue {ℓ κ} : {A : Type ℓ} {B : Type κ} → Outcome A → (A → Boot B) → Boot B
continue (running a) f s = f a s
continue (exits e) f s = (exits e, s)

infixl 5 ◌>>=◌ ◌>>◌
unfoldable pub ◌>>=◌ {ℓ κ} : {A : Type ℓ} {B : Type κ} → Boot A → (A → Boot B) → Boot B
◌>>=◌ m f s = let (o, s') = m s in continue o f s'

abbrev pub ◌>>◌ {ℓ κ} : {A : Type ℓ} {B : Type κ} → Boot A → Boot B → Boot B
m >> k = m >>= λ _. k

abbrev pub pure {ℓ} : {A : Type ℓ} → A → Boot A
pure a s = (running a, s)

abbrev pub done : Boot (Unit {0})
done = pure tt

-- log.Fatalf of the standard library, and Fatal of zap.
abbrev pub fatalf {ℓ} : {A : Type ℓ} → String → Boot A
fatalf msg s = (exits msg, s)

abbrev pub fatal {ℓ} : {A : Type ℓ} → Logger → String → List Field → Boot A
fatal log msg fields s = (exits msg, log_at log Level.fatal msg fields s)

abbrev pub log_with : Logger → Level → String → List Field → Boot (Unit {0})
log_with log lvl msg fields s = (running tt, log_at log lvl msg fields s)

abbrev pub error_field : String → Field
error_field e = record { key = "error"; value = err (some e) }

-- An error ends the program, with its text behind the message.
abbrev pub unless {ℓ} : {A : Type ℓ} → (String → Boot A) → Option String → Boot A → Boot A
unless give_up none next = next
unless give_up (some e) next = give_up e

abbrev pub from_fetched {ℓ κ} :
    {A : Type ℓ} {B : Type κ} → (String → Boot B) → Fetched A → (A → Boot B) → Boot B
from_fetched give_up (fetched a) next = next a
from_fetched give_up (failed e) next = give_up e

-- A variable of the environment, or a default where it is empty.
abbrev pub env_or : Platform → String → String → String
env_or p key other = if str_eq (p.getenv key) "" then other else p.getenv key

-- Where a chain runs on, its value has a property.
abbrev pub Ensures {ℓ κ} : {A : Type ℓ} → (A → Type κ) → Boot A → Type (ℓ ⊔ κ)
Ensures P m = (s : Sink) (a : _) → (m s).0 ≡ running a → P a

pub running-injective {ℓ} : {A : Type ℓ} {a b : A} → running a ≡ running b → a ≡ b
running-injective h = cc

continue-running {ℓ κ τ} :
    {A : Type ℓ} {B : Type κ} (P : B → Type τ) (o : Outcome A) (f : A → Boot B) (s : Sink) {b : B}
    → ((a : A) → o ≡ running a → (f a s).0 ≡ running b → P b)
    → (continue o f s).0 ≡ running b
    → P b
continue-running P (running a) f s go h = go a refl h
continue-running P (exits e) f s go h = cc

pub >>=-Ensures {ℓ κ σ τ} :
    {A : Type ℓ} {B : Type κ} {Q : A → Type σ} {P : B → Type τ} (m : Boot A) (f : A → Boot B)
    → Ensures Q m
    → ((a : A) → Q a → Ensures P (f a))
    → Ensures P (m >>= f)
unfolding ◌>>=◌
>>=-Ensures {P} m f first next s b h =
    continue-running P (m s).0 f (m s).1
      (λ a ran then_ran. next a (first s a ran) (m s).1 b then_ran) h

-- The same, whatever the first step gives.
pub then-Ensures {ℓ κ τ} :
    {A : Type ℓ} {B : Type κ} {P : B → Type τ} (m : Boot A) (f : A → Boot B)
    → ((a : A) → Ensures P (f a))
    → Ensures P (m >>= f)
then-Ensures m f next = >>=-Ensures {Q = λ _. Unit {0}} m f (λ s a h. tt) λ a _. next a

-- A chain that runs on from any state, to a value with a property.
abbrev pub Succeeds {ℓ κ} : {A : Type ℓ} → (A → Type κ) → Boot A → Type (ℓ ⊔ κ)
Succeeds P m = (s : Sink) → (a : _) × ((m s).0 ≡ running a) × P a

pub >>=-Succeeds {ℓ κ σ τ} :
    {A : Type ℓ} {B : Type κ} {Q : A → Type σ} {P : B → Type τ} (m : Boot A) (f : A → Boot B)
    → Succeeds Q m
    → ((a : A) → Q a → Succeeds P (f a))
    → Succeeds P (m >>= f)
unfolding ◌>>=◌
>>=-Succeeds m f first next s =
    let (a, ran, q) = first s in let (b, then_ran, r) = next a q (m s).1 in (b, rw ran then_ran, r)
