-- ===== src/Notifier.antt =====
-- notification-service/internal/notifier: service.go, pushclient.go and delivery.go. The service is
-- told of each message that is created, and notifies a recipient who is not online. Times are in
-- milliseconds; a context is the time at which it is cancelled, `none` where it never is. Where a
-- context ends and a timer fires at the same time, the context is taken. A trace, logs and metrics are
-- not modelled.
pub mod Retry
pub mod Handling
use Prim.Native.String.{◌++◌}
use onyxchat.Base.{
  ℕ, zero, suc, ◌+◌, ◌-◌, ◌*◌, String, str_eq, Bool, true, false, Option, none, some, List, [], ◌∷◌,
  if◌then◌else◌, leb, ◌==◌, ℤ, is_positive,
}
use onyxchat.Text.{print_nat}
use onyxchat.Redis.{Redis, Answer, found, missing, failed}

-- `MessageCreatedEvent`, without its trace.
pub record MessageCreatedEvent : Type 0 where
  pub message_id : ℕ
  pub sender_id : ℕ
  pub recipient_id : ℕ
  pub client_message_id : String

abbrev pub Context : Type 0
Context = Option ℕ

abbrev pub max_attempts : ℕ
max_attempts = 3

abbrev pub initial_backoff : ℕ
initial_backoff = 1000

-- `select { case <-ctx.Done(): case <-time.After(d): }` at a time: whether the context ended, and when
-- the select is over.
abbrev pub select_done : Context → (d now : ℕ) → Bool × ℕ
select_done none d now = (false, now + d)
select_done (some c) d now =
    if leb c now then (true, now) else if leb c (now + d) then (true, c) else (false, now + d)

-- `deliver`, the stub of a backend: whether it fails, and when it returns.
unfoldable pub deliver : Context → ℕ → Bool × ℕ
deliver ctx now = select_done ctx 5 now

-- Without an error, with the context's, or after the last attempt.
pub data Delivery : Type 0 where
  delivered cancelled exhausted : Delivery

-- What `deliverWithRetry` returns, and the times of its calls of `deliver`.
pub record Attempts : Type 0 where
  pub result : Delivery
  pub calls : List ℕ

abbrev pub with_call : ℕ → Attempts → Attempts
with_call now a = record a { calls = now ∷ a.calls }

-- The loop, for any backend; the first number is maxAttempts - attempt, so the last attempt has none
-- left after it.
unfoldable pub retry_loop : (ℕ → Bool × ℕ) → Context → (left backoff now : ℕ) → Attempts
retry_loop backend ctx zero backoff now = record {
  result = if (backend now).0 then exhausted else delivered;
  calls = now ∷ [];
}
retry_loop backend ctx (suc left) backoff now =
    let rest =
      retry_loop backend ctx left (backoff * 2) (select_done ctx backoff (backend now).1).1 in
    with_call now (
      if (backend now).0
      then (if (select_done ctx backoff (backend now).1).0
          then record { result = cancelled; calls = [] }
          else rest)
      else record { result = delivered; calls = [] })

unfoldable pub deliver_with_retry : (ℕ → Bool × ℕ) → Context → ℕ → Attempts
unfolding retry_loop
deliver_with_retry backend ctx now = retry_loop backend ctx (max_attempts - 1) initial_backoff now

-- What http.Client.Do returns: the status, and `pushToken` where the body is decoded.
pub record HttpResponse : Type 0 where
  pub status_code : ℕ
  pub push_token : Option String

abbrev pub token_url : String → ℕ → String
token_url server_url uid = server_url ++ "/internal/users/" ++ print_nat uid ++ "/push-token"

-- Not found is no token.
abbrev pub token_in : Option HttpResponse → Option String
token_in none = none
token_in (some resp) =
    if resp.status_code == 404
    then some ""
    else if resp.status_code == 200
    then resp.push_token
    else none

-- `GetPushToken`: the token, or an error. `http_get` gets a URL with the header X-Service-Secret.
unfoldable pub get_push_token :
    (http_get : (url secret : String) → Option HttpResponse)
    → (server_url secret : String) → ℕ
    → Option String
unfolding print_nat
get_push_token http_get server_url secret uid =
    token_in (http_get (token_url server_url uid) secret)

-- The key of internal/http/presence.go.
abbrev pub online_key : ℕ → String
online_key uid = "presence:conns:" ++ print_nat uid

-- With an error, the answer is that the user is not online.
abbrev pub answered_online : Answer ℤ → Bool
answered_online (found n) = is_positive n
answered_online _ = false

unfoldable pub is_online : (R : Redis) → ℕ → R.State → Bool × R.State
unfolding print_nat
is_online R uid s = let (a, s') = R.get_int (online_key uid) s in (answered_online a, s')

-- What became of an event.
pub data Handled : Type 0 where
  recipient_online no_push_token : Handled
  attempted : (token : String) → Attempts → Handled

abbrev pub deliver_to : (now : ℕ) → Option String → Handled
deliver_to now none = no_push_token
deliver_to now (some token) =
    if str_eq token ""
    then no_push_token
    else attempted token (deliver_with_retry (deliver none) none now)

-- `handle`, whose context is never cancelled.
unfoldable pub handle :
    (R : Redis)
    → ((url secret : String) → Option HttpResponse)
    → (server_url secret : String) → (now : ℕ) → MessageCreatedEvent
    → R.State
    → Handled × R.State
unfolding is_online get_push_token deliver_with_retry deliver
handle R http_get server_url secret now ev s =
    let (online, s') = is_online R ev.recipient_id s in
    (
      if online
          then recipient_online
          else deliver_to now (get_push_token http_get server_url secret ev.recipient_id),
      s',
    )
