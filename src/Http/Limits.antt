-- ===== src/Http/Limits.antt =====
-- internal/http/ratelimit.go, client_ip.go, middleware_login_ratelimit.go and
-- middleware_user_ratelimit.go: how often a key may call. `L` is rate.Limiter; `permit now l` is
-- l.Allow() at that time, with the limiter after it.
pub mod PerKey
use onyxchat.Base.{
  ℕ, ◌-◌, String, str_eq, Bool, true, false, Option, none, some, List, [], ◌∷◌, ◌++◌, ltb,
  if◌then◌else◌,
}
use onyxchat.Text.{cut, trim_space, print_nat}
use onyxchat.Sql.{update, delete, select, exists_row, query_row}
use onyxchat.Http.{CurrentUser, Reply, error}

pub record LimiterEntry (L : Type 0) : Type 0 where
  pub key : String
  pub lim : L
  pub last : ℕ

-- `fresh` is what rate.NewLimiter(r, burst) makes.
pub record KeyedLimiter (L : Type 0) : Type 0 where
  pub by_key : List (LimiterEntry L)
  pub fresh : L
  pub ttl : ℕ

abbrev pub has_key : {L : Type 0} → String → LimiterEntry L → Bool
has_key key e = str_eq e.key key

-- now.Sub(e.last) > kl.ttl
abbrev pub expired : {L : Type 0} → ℕ → ℕ → LimiterEntry L → Bool
expired ttl now e = ltb ttl (now - e.last)

module _ {L : Type 0} (permit : ℕ → L → Bool × L) where
  abbrev pub new_keyed_limiter : L → ℕ → KeyedLimiter L
  new_keyed_limiter fresh ttl = record { by_key = []; fresh = fresh; ttl = ttl }

  abbrev pub with_entry : String → ℕ → L → List (LimiterEntry L) → List (LimiterEntry L)
  with_entry key now fresh es =
      if exists_row (has_key key) es
      then es
      else es ++ record { key = key; lim = fresh; last = now } ∷ []

  abbrev pub used : ℕ → LimiterEntry L → LimiterEntry L
  used now e = record e { lim = (permit now e.lim).1; last = now }

  -- The answer of the key's limiter.
  abbrev pub answer_for : ℕ → L → Option (LimiterEntry L) → Bool
  answer_for now fresh none = (permit now fresh).0
  answer_for now fresh (some e) = (permit now e.lim).0

  -- `Allow`.
  unfoldable pub keyed_allow : ℕ → String → KeyedLimiter L → Bool × KeyedLimiter L
  unfolding delete update exists_row query_row select
  keyed_allow now key kl =
      let live = delete (expired kl.ttl now) kl.by_key in
      (
        answer_for now kl.fresh (query_row (has_key key) live),
        record kl { by_key = update (has_key key) (used now) (with_entry key now kl.fresh live) },
      )

-- `ClientIP`, of the headers X-Forwarded-For and X-Real-IP and of RemoteAddr; `split_host` is the
-- host that net.SplitHostPort finds.
abbrev pub first_part : String → Option (String × String) → String
first_part s none = s
first_part s (some (before, after)) = before

abbrev pub nonempty_or : String → Option String → String
nonempty_or other none = other
nonempty_or other (some h) = if str_eq h "" then other else h

unfoldable pub client_ip : (String → Option String) → (forwarded real remote : String) → String
unfolding cut trim_space
client_ip split_host forwarded real remote =
    let ip = trim_space (first_part forwarded (cut 44 forwarded)) in
    let host = nonempty_or remote (split_host remote) in
    let direct = if str_eq real "" then host else trim_space real in
    if str_eq forwarded "" then direct else if str_eq ip "" then direct else ip
