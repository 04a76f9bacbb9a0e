-- ===== src/Http/Writer.antt =====
-- What a handler does to the http.ResponseWriter that it is given, and statusWriter of
-- internal/http/observability_middleware.go around the writer of net/http.
use Prim.Native.String.{◌++◌}
use onyxchat.Base.{
  ℕ, ◌+◌, ◌≤◌, ◌≡◌, String, Bool, false, Option, none, some, coalesce, if◌then◌else◌,
}
use onyxchat.Http.{Reply, error, json_error, json, status}
use onyxchat.Http.Sentry.{FieldValue}

-- The writer of net/http: its methods, and whether it is also an http.Hijacker, http.Flusher and
-- http.Pusher. Write returns the number of bytes; Hijack and Push whether they succeed.
pub record ResponseWriter : Type 1 where
  pub State : Type 0
  pub set_header : String → String → State → State
  pub write_header : ℕ → State → State
  pub write : String → State → ℕ × State
  pub hijacker : Bool
  pub hijack : State → Bool × State
  pub flusher : Bool
  pub flush : State → State
  pub pusher : Bool
  pub push : String → State → Bool × State

-- The status line that was sent: WriteHeader sends one unless one was sent, for a status of 200 or
-- more, and the first Write or Flush without one sends 200.
pub record IsLawful (R : ResponseWriter) : Type 0 where
  pub sent : R.State → Option ℕ
  pub set_header-sent : (k v : String) (w : R.State) → sent (R.set_header k v w) ≡ sent w
  pub write_header-sent :
      (code : ℕ) (w : R.State)
      → 200 ≤ code
      → sent (R.write_header code w) ≡ some (coalesce (sent w) code)
  pub write-sent : (b : String) (w : R.State) → sent (R.write b w).1 ≡ some (coalesce (sent w) 200)
  pub flush-sent : (w : R.State) → sent (R.flush w) ≡ some (coalesce (sent w) 200)
  pub push-sent : (target : String) (w : R.State) → sent (R.push target w).1 ≡ sent w

-- A handler as what it does to its writer, one call after another, until it returns, or panics with
-- a value, here the field that zap.Any makes of it. It sees what the calls return.
pub data Serve : Type 0 where
  returns : Serve
  panics : FieldValue → Serve
  set_header : String → String → Serve → Serve
  write_header : ℕ → Serve → Serve
  write : String → (ℕ → Serve) → Serve
  hijack : (Bool → Serve) → Serve
  flush : Serve → Serve
  push : String → (Bool → Serve) → Serve

-- `statusWriter`.
pub record StatusWriter (R : ResponseWriter) : Type 0 where
  pub response_writer : R.State
  pub status : ℕ
  pub bytes_written : ℕ

module _ (R : ResponseWriter) where
  -- `WriteHeader`, `Write`, `Hijack`, `Flush` and `Push` of statusWriter.
  unfoldable pub sw_write_header : ℕ → StatusWriter R → StatusWriter R
  sw_write_header code sw = record sw {
    status = code;
    response_writer = R.write_header code sw.response_writer;
  }

  unfoldable pub sw_write : String → StatusWriter R → ℕ × StatusWriter R
  sw_write b sw =
      let (n, w) = R.write b sw.response_writer in
      (n, record sw { response_writer = w; bytes_written = sw.bytes_written + n })

  unfoldable pub sw_hijack : StatusWriter R → Bool × StatusWriter R
  sw_hijack sw =
      let (ok, w) = R.hijack sw.response_writer in
      if R.hijacker then (ok, record sw { response_writer = w }) else (false, sw)

  unfoldable pub sw_flush : StatusWriter R → StatusWriter R
  sw_flush sw = if R.flusher then record sw { response_writer = R.flush sw.response_writer } else sw

  unfoldable pub sw_push : String → StatusWriter R → Bool × StatusWriter R
  sw_push target sw =
      let (ok, w) = R.push target sw.response_writer in
      if R.pusher then (ok, record sw { response_writer = w }) else (false, sw)

  -- A handler on a statusWriter: the value that it panics with, if it does.
  unfoldable pub serve : Serve → StatusWriter R → Option FieldValue × StatusWriter R
  unfolding sw_write_header sw_write sw_hijack sw_flush sw_push
  serve returns sw = (none, sw)
  serve (panics v) sw = (some v, sw)
  serve (set_header k v next) sw =
      serve next (record sw { response_writer = R.set_header k v sw.response_writer })
  serve (write_header code next) sw = serve next (sw_write_header code sw)
  serve (write b next) sw = let (n, sw') = sw_write b sw in serve (next n) sw'
  serve (hijack next) sw = let (ok, sw') = sw_hijack sw in serve (next ok) sw'
  serve (flush next) sw = serve next (sw_flush sw)
  serve (push target next) sw = let (ok, sw') = sw_push target sw in serve (next ok) sw'

-- `writeJSON` of an encoded body, and `writeJSONError`; `encode_error` is the JSON of an errorResponse.
unfoldable pub write_json : ℕ → String → Serve
write_json code body =
    set_header "Content-Type" "application/json" (write_header code (write body λ n. returns))

unfoldable pub write_json_error : (encode_error : String → String) → ℕ → String → Serve
unfolding write_json
write_json_error encode_error code msg = write_json code (encode_error msg)

-- How a handler writes its answer; http.Error sets two headers and writes the text with a line break.
unfoldable pub serve_reply {ℓ} :
    {A : Type ℓ} (encode_error : String → String) (encode : A → String) → Reply A → Serve
unfolding write_json_error write_json
serve_reply encode_error encode (error code msg) =
    set_header "Content-Type" "text/plain; charset=utf-8" (
      set_header "X-Content-Type-Options" "nosniff"
        (write_header code (write (msg ++ "\n") λ n. returns)))
serve_reply encode_error encode (json_error code msg) = write_json_error encode_error code msg
serve_reply encode_error encode (json code body) = write_json code (encode body)
serve_reply encode_error encode (status code) = write_header code returns
