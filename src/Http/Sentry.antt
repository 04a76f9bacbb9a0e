-- ===== src/Http/Sentry.antt =====
-- internal/http/sentry.go. A logger of zap is what its entries make the Sentry library do; what it
-- prints, and what the Sentry library does with a call, belong to those libraries.
pub mod Forwarding
use onyxchat.Base.{
  ℕ, String, str_eq, Bool, true, false, Option, none, some, List, [], ◌∷◌, ◌++◌, ℤ, leb,
  if◌then◌else◌,
}

-- zapcore.Level, in its order.
pub data Level : Type 0 where
  debug info warn error dpanic panic fatal : Level

unfoldable pub rank : Level → ℕ
rank debug = 0
rank info = 1
rank warn = 2
rank error = 3
rank dpanic = 4
rank panic = 5
rank fatal = 6

-- What a zapcore.Field holds, by its type: `err` is ErrorType, with the text of an error where its
-- interface is one; `reflect` stands for the types that the code does not tell apart.
pub data FieldValue : Type 0 where
  string : String → FieldValue
  int64 : ℤ → FieldValue
  bool : Bool → FieldValue
  err : Option String → FieldValue
  reflect : String → FieldValue

pub record Field : Type 0 where
  pub key : String
  pub value : FieldValue

abbrev pub text : String → String → Field
text key s = record { key = key; value = string s }

pub record LogEntry : Type 0 where
  pub level : Level
  pub message : String

abbrev pub skip_sentry_key : String
skip_sentry_key = "skip_sentry"

-- `SkipSentry`.
abbrev pub skip_sentry : Field
skip_sentry = record { key = skip_sentry_key; value = bool true }

-- `sentryCore`.
pub record SentryCore : Type 0 where
  pub min_level : Level
  pub fields : List Field

unfoldable pub enabled : Level → SentryCore → Bool
unfolding rank
enabled lvl c = leb (rank c.min_level) (rank lvl)

-- `With`.
unfoldable pub with_fields : List Field → SentryCore → SentryCore
with_fields fields c = record c { fields = c.fields ++ fields }

-- `Check`: `ce` holds the cores that take the entry.
unfoldable pub check : LogEntry → SentryCore → List SentryCore → List SentryCore
unfolding enabled
check ent c ce = if enabled ent.level c then ce ++ c ∷ [] else ce

-- A map of Go, as the list of its entries.
abbrev pub Extra : Type 0
Extra = List (String × FieldValue)

unfoldable pub put : String → FieldValue → Extra → Extra
put key v [] = (key, v) ∷ []
put key v ((k, w) ∷ m) = if str_eq k key then (key, v) ∷ m else (k, w) ∷ put key v m

-- The error and the extra fields that `Write` has seen.
pub record Seen : Type 0 where
  pub captured : Option String
  pub extra : Extra

-- A pass of the loop of `Write` over a field: `none` where it returns.
abbrev pub skip_field : FieldValue → Seen → Option Seen
skip_field (bool true) seen = none
skip_field v seen = some seen

abbrev pub keep_field : String → FieldValue → Seen → Seen
keep_field key (err (some e)) seen = record seen { captured = some e }
keep_field key v seen = record seen { extra = put key v seen.extra }

unfoldable pub note_field : Field → Seen → Option Seen
unfolding put
note_field f seen =
    if str_eq f.key skip_sentry_key
    then skip_field f.value seen
    else some (keep_field f.key f.value seen)

unfoldable pub note_fields : List Field → Seen → Option Seen
unfolding note_field
note_fields [] seen = some seen
note_fields (f ∷ fs) seen = elim (note_field f seen) [
  | none ↦ none
  | some seen' ↦ note_fields fs seen'
]

pub data SentryLevel : Type 0 where
  level_error level_fatal : SentryLevel

unfoldable pub sentry_level : Level → SentryLevel
unfolding rank
sentry_level lvl = if leb (rank fatal) (rank lvl) then level_fatal else level_error

pub data Captured : Type 0 where
  exception message : String → Captured

-- An event with its level and its context log_fields.
pub record Event : Type 0 where
  pub level : SentryLevel
  pub log_fields : Option Extra
  pub captured : Captured

-- The calls of the library that send something, and Flush.
pub data SentryCall : Type 0 where
  event : Event → SentryCall
  recover : FieldValue → SentryCall
  flush : SentryCall

abbrev pub context_of : Extra → Option Extra
context_of [] = none
context_of (e ∷ m) = some (e ∷ m)

abbrev pub capture : LogEntry → Option String → Captured
capture ent none = message ent.message
capture ent (some e) = exception e

abbrev pub sent : LogEntry → Option Seen → List SentryCall
sent ent none = []
sent ent (some seen) =
    event (record {
      level = sentry_level ent.level;
      log_fields = context_of seen.extra;
      captured = capture ent seen.captured;
    })
    ∷ (if leb (rank fatal) (rank ent.level) then flush ∷ [] else [])

-- `Write`.
unfoldable pub write : LogEntry → List Field → SentryCore → List SentryCall
unfolding note_fields sentry_level rank
write ent fields c =
    sent ent (note_fields (c.fields ++ fields) (record { captured = none; extra = [] }))

-- A zap logger, by the calls of the Sentry library that an entry leads to.
pub record Logger : Type 0 where
  pub hand_on : LogEntry → List Field → List SentryCall

-- What was logged: the entries that a logger was given, and the calls of the Sentry library.
pub record Line : Type 0 where
  pub entry : LogEntry
  pub fields : List Field

pub record Sink : Type 0 where
  pub lines : List Line
  pub sentry : List SentryCall

unfoldable pub log_at : Logger → Level → String → List Field → Sink → Sink
log_at log level msg fields s =
    let ent : LogEntry = record { level = level; message = msg } in
    record s {
      lines = s.lines ++ (record { entry = ent; fields = fields } ∷ []);
      sentry = s.sentry ++ log.hand_on ent fields;
    }

-- sentry.ClientOptions, as far as they are set.
pub record ClientOptions : Type 0 where
  pub dsn : String
  pub environment : String
  pub release : String
  pub attach_stacktrace : Bool

-- `InitSentry`: the logger, and whether the function that it returns flushes. `init` is sentry.Init,
-- with the text of its error, and `new_tee` is WrapCore with zapcore.NewTee, for a core beside the cores
-- that a logger has.
module _ (getenv : String → String) (init : ClientOptions → Option String)
    (new_tee : Logger → SentryCore → Logger) where
  abbrev pub sentry_options : String → ClientOptions
  sentry_options env = record {
    dsn = getenv "SENTRY_DSN";
    environment = env;
    release = getenv "SENTRY_RELEASE";
    attach_stacktrace = true;
  }

  abbrev pub after_init : String → Logger → Option String → Sink → (Logger × Bool) × Sink
  after_init env log (some e) s = (
    (log, false),
    log_at log error "failed to init Sentry, continuing without it"
        (record { key = "error"; value = err (some e) } ∷ []) s,
  )
  after_init env log none s = (
    (new_tee log (record { min_level = error; fields = [] }), true),
    log_at log info "Sentry initialized" (text "environment" env ∷ []) s,
  )

  unfoldable pub init_sentry : String → Logger → Sink → (Logger × Bool) × Sink
  unfolding log_at
  init_sentry env log s =
      if str_eq (getenv "SENTRY_DSN") ""
      then ((log, false), log_at log info "Sentry disabled (SENTRY_DSN not set)" [] s)
      else after_init env log (init (sentry_options env)) s
