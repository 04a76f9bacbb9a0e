-- ===== src/Http/Observability/Peer.antt =====
-- What AccessLogAndMetrics records of a request, against what the peer is answered.
use onyxchat.Base.{
  ℕ, ◌+◌, ◌≤◌, ◌<◌, ◌==◌, String, Bool, true, false, Option, none, some, List, [], ◌∷◌, ◌++◌, ◌≡◌,
  refl, sym, ◌∙◌, ◌⊎◌, inl, inr, Bool-cases, arith, leb, coalesce, if◌then◌else◌,
}
use mathlib.Core.List.{append-nil}
use onyxchat.Text.{print_nat}
use onyxchat.Http.{Reply, error, json_error, json, status}
use onyxchat.Http.Sentry.{Level, FieldValue, Field, Logger, Line, Sink, skip_sentry}
use onyxchat.Http.Writer.{
  ResponseWriter, IsLawful, Serve, returns, panics, set_header, write_header, write, hijack, flush,
  push, StatusWriter, sw_write_header, sw_write, sw_flush, sw_push, serve, write_json_error,
  serve_reply,
}
use onyxchat.Http.Observability.{
  Request, Telemetry, Outgoing, panic_fields, request_fields, log_request, observe, after_recover,
  status_writer, access_log_and_metrics, observed, route_template, is_health_check_route,
}

-- A handler that sends its status line once, before its body, keeps the connection, and does not
-- panic between its status line and the first byte of its body. `started` says whether a status line
-- may have been sent, and `bytes` how much was written.
pub Orderly : (started : Bool) (bytes : ℕ) → Serve → Type 0
Orderly started bytes returns = Unit
Orderly started bytes (panics v) = (started ≡ false) ⊎ (0 < bytes)
Orderly started bytes (set_header k v next) = Orderly started bytes next
Orderly started bytes (write_header code next) =
    (started ≡ false) × (200 ≤ code) × Orderly true bytes next
Orderly started bytes (write b next) = (n : ℕ) → Orderly true (bytes + n) (next n)
Orderly started bytes (hijack next) = ⊥
Orderly started bytes (flush next) = Orderly true bytes next
Orderly started bytes (push target next) = (ok : Bool) → Orderly started bytes (next ok)

-- The status of a reply.
abbrev pub reply_status {ℓ} : {A : Type ℓ} → Reply A → ℕ
reply_status (error code msg) = code
reply_status (json_error code msg) = code
reply_status (json code body) = code
reply_status (status code) = code

pub serve_reply-Orderly {ℓ} :
    {A : Type ℓ} (encode_error : String → String) (encode : A → String) (a : Reply A)
    → 200 ≤ reply_status a
    → Orderly false 0 (serve_reply encode_error encode a)
unfolding Orderly serve_reply
serve_reply-Orderly encode_error encode (error code msg) h = (refl, h, λ n. tt)
serve_reply-Orderly encode_error encode (json_error code msg) h = (refl, h, λ n. tt)
serve_reply-Orderly encode_error encode (json code body) h = (refl, h, λ n. tt)
serve_reply-Orderly encode_error encode (status code) h = (refl, h, tt)

-- The level of the entry of a request.
abbrev pub level_of : ℕ → Level
level_of code =
    if leb 500 code then Level.error else if leb 400 code then Level.warn else Level.info

abbrev pub line : Level → String → List Field → Line
line lvl msg fields = record { entry = record { level = lvl; message = msg }; fields = fields }

abbrev pub panic_lines : (String → Option String) → Request → Option FieldValue → List Line
panic_lines split_host r none = []
panic_lines split_host r (some v) =
    line Level.error "panic_recovered" (panic_fields split_host r v) ∷ []

lines-log_request :
    (log : Logger) (route : String) (code : ℕ) (fields : List Field) (s : Sink)
    → (marks : List Field) × ((log_request log route code fields s).lines
        ≡ s.lines ++ line (level_of code) "http_request" (fields ++ marks) ∷ [])
unfolding log_request
lines-log_request log route code fields s = elim (Bool-cases (leb 500 code)) [
  | inl failed ↦ (
    (if is_health_check_route route then skip_sentry ∷ [] else []),
    rw failed (ground (arith, append-nil fields)),
  )
  | inr fine ↦ elim (Bool-cases (leb 400 code)) [
    | inl refused ↦ ([], rw (fine, refused, append-nil fields) refl)
    | inr done ↦ ([], rw (fine, done, append-nil fields) refl)
  ]
]

module _ (R : ResponseWriter) (L : IsLawful R) where
  -- The status that the peer gets in the end: net/http sends 200 where nothing was sent.
  abbrev pub peer_status : StatusWriter R → ℕ
  peer_status sw = coalesce (L.sent sw.response_writer) 200

  -- The writer of an orderly handler on its way.
  record Tracks (started : Bool) (bytes : ℕ) (sw : StatusWriter R) : Type 0 where
    unsent : started ≡ false → L.sent sw.response_writer ≡ none
    same : peer_status sw ≡ sw.status
    counted : bytes ≡ sw.bytes_written

  -- What an orderly handler leaves: where it panicked, nothing was sent, or some of the body.
  record Leaves (rec : Option FieldValue) (sw : StatusWriter R) : Type 0 where
    same : peer_status sw ≡ sw.status
    early :
        (v : FieldValue)
        → rec ≡ some v
        → (L.sent sw.response_writer ≡ none) ⊎ (0 < sw.bytes_written)

  module _ {started : Bool} {bytes : ℕ} (sw : StatusWriter R) (t : Tracks started bytes sw) where
    Tracks-set_header :
        (k v : String)
        → Tracks started bytes (record sw { response_writer = R.set_header k v sw.response_writer })
    Tracks-set_header k v =
        let e = L.set_header-sent k v sw.response_writer in
        record { unsent = λ u. e ∙ t.unsent u; same = rw e t.same; counted = t.counted }

    Tracks-write_header :
        (code : ℕ) → started ≡ false → 200 ≤ code → Tracks true bytes (sw_write_header R code sw)
    unfolding sw_write_header
    Tracks-write_header code u h = record {
      unsent = λ e. cc;
      same = rw (L.write_header-sent code sw.response_writer h, t.unsent u) refl;
      counted = t.counted;
    }

    Tracks-write : (b : String) → Tracks true (bytes + (sw_write R b sw).0) (sw_write R b sw).1
    unfolding sw_write
    Tracks-write b = record {
      unsent = λ e. cc;
      same = rw (L.write-sent b sw.response_writer) t.same;
      counted = rw t.counted refl;
    }

    Tracks-flush : Tracks true bytes (sw_flush R sw)
    unfolding sw_flush
    Tracks-flush = elim (Bool-cases R.flusher) [
      | inl can ↦ rw can (record {
        unsent = λ e. cc;
        same = rw (L.flush-sent sw.response_writer) t.same;
        counted = t.counted;
      })
      | inr cannot ↦ rw cannot (record { unsent = λ e. cc; same = t.same; counted = t.counted })
    ]

    Tracks-push : (target : String) → Tracks started bytes (sw_push R target sw).1
    unfolding sw_push
    Tracks-push target = elim (Bool-cases R.pusher) [
      | inl can ↦
          let e = L.push-sent target sw.response_writer in
          rw can (record { unsent = λ u. e ∙ t.unsent u; same = rw e t.same; counted = t.counted })
      | inr cannot ↦ rw cannot t
    ]

    Leaves-panics : (v : FieldValue) → (started ≡ false) ⊎ (0 < bytes) → Leaves (some v) sw
    Leaves-panics v (inl u) = record { same = t.same; early = λ w e. inl (t.unsent u) }
    Leaves-panics v (inr h) = record {
      same = t.same;
      early = λ w e. inr (omega (arith, t.counted));
    }

  serve-Leaves :
      (s : Serve) (started : Bool) (bytes : ℕ) (sw : StatusWriter R)
      → Orderly started bytes s
      → Tracks started bytes sw
      → Leaves (serve R s sw).0 (serve R s sw).1
  unfolding serve Orderly
  serve-Leaves returns started bytes sw h t = record { same = t.same; early = λ v e. cc }
  serve-Leaves (panics v) started bytes sw h t = Leaves-panics sw t v h
  serve-Leaves (set_header k v next) started bytes sw h t =
      serve-Leaves next started bytes _ h (Tracks-set_header sw t k v)
  serve-Leaves (write_header code next) started bytes sw (u, ok, h) t =
      serve-Leaves next true bytes _ h (Tracks-write_header sw t code u ok)
  serve-Leaves (write b next) started bytes sw h t =
      serve-Leaves (next (sw_write R b sw).0) true _ _ (h (sw_write R b sw).0) (Tracks-write sw t b)
  serve-Leaves (hijack next) started bytes sw h t = absurd h
  serve-Leaves (flush next) started bytes sw h t =
      serve-Leaves next true bytes _ h (Tracks-flush sw t)
  serve-Leaves (push target next) started bytes sw h t =
      serve-Leaves (next (sw_push R target sw).0) started bytes _ (h (sw_push R target sw).0)
        (Tracks-push sw t target)

  module _ (split_host : String → Option String) (log : Logger)
      (encode_error : String → String) where
    sent_500 :
        (w : R.State)
        → L.sent w ≡ none
        → L.sent
            (R.write
              (encode_error "internal server error")
              (R.write_header 500 (R.set_header "Content-Type" "application/json" w))).1
          ≡ some 500
    sent_500 w unsent =
        let w' = R.set_header "Content-Type" "application/json" w in
        rw
          (
            L.write-sent (encode_error "internal server error") (R.write_header 500 w'),
            L.write_header-sent 500 w' (omega arith),
            L.set_header-sent "Content-Type" "application/json" w,
            unsent,
          )
          refl

    -- A handler that ended, and what stands before the request is recorded: the entry of a panic is
    -- logged, and a panic with nothing written is answered 500 where nothing was sent.
    record Recovers (r : Request) (ended : Option FieldValue × StatusWriter R) (t : Telemetry)
        (o : Outgoing R) : Type 0 where
      requests : o.telemetry.http_requests ≡ t.http_requests
      durations : o.telemetry.http_durations ≡ t.http_durations
      rejections : o.telemetry.http_rate_limit_rejections ≡ t.http_rate_limit_rejections
      lines : o.telemetry.sink.lines ≡ t.sink.lines ++ panic_lines split_host r ended.0
      same : peer_status o.writer ≡ o.writer.status
      bare : (v : FieldValue) → ended.0 ≡ some v → ended.1.bytes_written ≡ 0 → o.writer.status ≡ 500

    abbrev recovered : Request → Option FieldValue → StatusWriter R → Telemetry → Outgoing R
    recovered r rec sw t =
        after_recover split_host log R encode_error r rec (record { writer = sw; telemetry = t })

    status-recovered :
        (r : Request) (v : FieldValue) (sw : StatusWriter R) (t : Telemetry)
        → Leaves (some v) sw
        → (peer_status (recovered r (some v) sw t).writer
            ≡ (recovered r (some v) sw t).writer.status)
          × (sw.bytes_written ≡ 0 → (recovered r (some v) sw t).writer.status ≡ 500)
    unfolding after_recover write_json_error
    status-recovered r v sw t h = elim (Bool-cases (sw.bytes_written == 0)) [
      | inl none_written ↦ elim (h.early v refl) [
        | inl unsent ↦ rw none_written (rw (sent_500 sw.response_writer unsent) refl, λ z. refl)
        | inr some_written ↦ absurd (ground arith)
      ]
      | inr some_written ↦ rw some_written (h.same, λ z. absurd (ground arith))
    ]

    recovered-Recovers :
        (r : Request) (rec : Option FieldValue) (sw : StatusWriter R) (t : Telemetry)
        → Leaves rec sw
        → Recovers r (rec, sw) t (recovered r rec sw t)
    unfolding after_recover
    recovered-Recovers r none sw t h = record {
      requests = refl;
      durations = refl;
      rejections = refl;
      lines = sym (append-nil t.sink.lines);
      same = h.same;
      bare = λ v e. cc;
    }
    recovered-Recovers r (some v) sw t h =
        let (same, bare) = status-recovered r v sw t h in
        record {
          requests = refl;
          durations = refl;
          rejections = refl;
          lines = refl;
          same = same;
          bare = λ w e. bare;
        }

    -- What is recorded of a request that is answered by `o`.
    pub record Observes (r : Request) (elapsed : ℕ) (ended : Option FieldValue × StatusWriter R)
        (t : Telemetry) (o : Outgoing R) : Type 0 where
      pub counted :
          o.telemetry.http_requests
          ≡ t.http_requests
            ++ (r.method, route_template r.route, print_nat (peer_status o.writer)) ∷ []
      pub timed :
          o.telemetry.http_durations
          ≡ t.http_durations ++ (r.method, route_template r.route, elapsed) ∷ []
      pub limited :
          o.telemetry.http_rate_limit_rejections
          ≡ t.http_rate_limit_rejections
            ++ (if peer_status o.writer == 429 then "http" ∷ [] else [])
      pub logged :
          (marks : List Field) × (o.telemetry.sink.lines
            ≡ (t.sink.lines ++ panic_lines split_host r ended.0)
              ++ line (level_of (peer_status o.writer)) "http_request" (
                  request_fields split_host r elapsed (peer_status o.writer) o.writer.bytes_written
                  ++ marks)
                ∷ [])
      pub answered :
          (v : FieldValue)
          → ended.0 ≡ some v
          → ended.1.bytes_written ≡ 0
          → peer_status o.writer ≡ 500

    observed-Observes :
        (r : Request) (elapsed : ℕ) (ended : Option FieldValue × StatusWriter R) (t : Telemetry)
        → (o : Outgoing R) → Recovers r ended t o
        → Observes r elapsed ended t (observed split_host log R encode_error r elapsed o)
    unfolding observe
    observed-Observes r elapsed ended t o h =
        let route = route_template r.route in
        let fields = request_fields split_host r elapsed o.writer.status o.writer.bytes_written in
        let (marks, logs) = lines-log_request log route o.writer.status fields o.telemetry.sink in
        record {
          counted = rw (h.requests, h.same) refl;
          timed = rw h.durations refl;
          limited = ground (arith, h.rejections, h.same, append-nil t.http_rate_limit_rejections);
          logged = (marks, rw (h.same, ← h.lines) logs);
          answered = λ v e z. h.same ∙ h.bare v e z;
        }

    -- For an orderly handler on a writer that has sent nothing, the request is counted and timed once,
    -- and logged once at the level of its status, after an entry for the panic where the handler
    -- panicked. The status is the one that the peer gets: 500 where the handler panicked before it
    -- wrote any of the body, and 429 counts as a rejection.
    pub access_log_and_metrics-Observes :
        (next : Request → Serve) (elapsed : ℕ) (r : Request) (w : R.State) (t : Telemetry)
        → L.sent w ≡ none
        → Orderly false 0 (next r)
        → Observes r elapsed
            (serve R (next r) (status_writer R w))
            t
            (access_log_and_metrics split_host log R encode_error next elapsed r w t)
    unfolding access_log_and_metrics observe
    access_log_and_metrics-Observes next elapsed r w t unsent orderly =
        let start = status_writer R w in
        let (rec, sw) = serve R (next r) start in
        let tracks : Tracks false 0 start = record {
          unsent = λ e. unsent;
          same = rw unsent refl;
          counted = refl;
        } in
        let left = serve-Leaves (next r) false 0 start orderly tracks in
        observed-Observes r elapsed (rec, sw) t _ (recovered-Recovers r rec sw t left)
