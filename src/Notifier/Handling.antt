-- ===== src/Notifier/Handling.antt =====
-- The notification service and the server together: what `handle` of service.go does, when the URL
-- that it asks for a push token is served by `InternalServiceAuth` and `InternalGetPushTokenHandler` of
-- internal/http/internal_handlers.go.
use onyxchat.Base.{
  ℕ, ◌<◌, ◌^◌, String, str_eq, true, false, ◌≡◌, ◌≢◌, refl, ap, ◌∙◌, inl, inr, Option, none, some,
  [], ◌∷◌, arith, if◌then◌else◌, Bool-cases, ltb, ◌==◌, pos, coalesce, is_positive, eq_iff,
}
use onyxchat.Text.{print_nat}
use onyxchat.Text.RoundTrip.{parse_int-print_nat}
use onyxchat.Redis.{Redis, IsLawful, failed, answer_of}
use onyxchat.Sql.{query_row}
use onyxchat.Store.Db.{UserRow}
use onyxchat.Http.{Reply, error, json_error, json, status, Server}
use onyxchat.Http.Auth.{internal_service_auth, internal_get_push_token_handler}
use onyxchat.Http.Presence.Counts.{Counts, IsCounted}
use onyxchat.Notifier.{
  MessageCreatedEvent, HttpResponse, delivered, token_in, token_url, get_push_token, online_key,
  is_online, answered_online, deliver_to, deliver_with_retry, deliver, Handled, recipient_online,
  no_push_token, attempted, handle,
}

-- How a reply of the server with a push token arrives: its status, and the token that its body holds.
abbrev pub respond : Reply String → HttpResponse
respond (json code token) = record { status_code = code; push_token = some token }
respond (error code text) = record { status_code = code; push_token = none }
respond (json_error code text) = record { status_code = code; push_token = none }
respond (status code) = record { status_code = code; push_token = none }

-- What the service should do with an event, by whether the recipient is connected and by its token.
abbrev pub should : (connections now : ℕ) → (token : String) → Handled
should connections now token =
    if ltb 0 connections
    then recipient_online
    else if str_eq token ""
    then no_push_token
    else attempted token (record { result = delivered; calls = now ∷ [] })

module _ (R : Redis) (lawful : IsLawful R) where
  -- The answer of Redis to the presence check is the count's.
  is_online-IsCounted :
      (f : Counts) (s : R.State) (uid : ℕ)
      → uid < 2 ^ 63
      → IsCounted R lawful f s
      → ((R.get_int (online_key uid) s).0 ≢ failed)
      → (is_online R uid s).0 ≡ ltb 0 (f uid)
  unfolding is_online
  is_online-IsCounted f s uid small h up = elim (lawful.get_int-answer (online_key uid) s) [
    | inl down ↦ absurd (up down)
    | inr a ↦
        rw a (answered_count (lawful.int_at (online_key uid) s) ∙ ap is_positive (h uid small))
  ]
    where
      answered_count :
          (x : Option _) → answered_online (answer_of x) ≡ is_positive (coalesce x (pos 0))
      answered_count none = refl
      answered_count (some z) = refl

deliver_to-should :
    (now : ℕ) (token : String) (x : Option String)
    → x ≡ some token
    → deliver_to now x ≡ should 0 now token
unfolding deliver_with_retry deliver
deliver_to-should now token x e = rw e refl

positive : (n : ℕ) → 0 < n → ltb 0 n ≡ true
positive n h = ground arith

module _ {L : Type 0} (secret server_url : String)
    (http_get : (url secret : String) → Option HttpResponse) where
  -- The server's reply to the service is the token that it has stored, or an empty text.
  served_reply :
      (uid : ℕ) (v : Server L) (r : UserRow)
      → 0 < uid
      → uid < 2 ^ 63
      → query_row (λ (u : UserRow). u.id == uid) v.session.db.users ≡ some r
      → v.session.fails v.session.calls ≡ false
      → (internal_service_auth secret secret (internal_get_push_token_handler (print_nat uid)) v).0
        ≡ json 200 (coalesce r.push_token "")
  unfolding internal_service_auth internal_get_push_token_handler
  served_reply uid v r from_1 small row fine =
      rw
        (
          (eq_iff secret secret).1 refl,
          parse_int-print_nat uid small,
          positive uid from_1,
          fine,
          row,
        )
        refl

  -- The service reads the token that the server has stored.
  served_token :
      (uid : ℕ) (v : Server L) (r : UserRow)
      → 0 < uid
      → uid < 2 ^ 63
      → http_get (token_url server_url uid) secret
        ≡ some (
            respond
              (internal_service_auth secret secret
                (internal_get_push_token_handler (print_nat uid))
                v).0)
      → query_row (λ (u : UserRow). u.id == uid) v.session.db.users ≡ some r
      → v.session.fails v.session.calls ≡ false
      → get_push_token http_get server_url secret uid ≡ some (coalesce r.push_token "")
  unfolding get_push_token
  served_token uid v r from_1 small served row fine = ap token_in (
      served
      ∙ ap (λ (x : Reply String). some (respond x)) (served_reply uid v r from_1 small row fine))

  module _ (R : Redis) (lawful : IsLawful R) where
    -- Where the service and the server share Redis and the secret, the counters agree with the open
    -- connections, and neither Redis nor the driver fails: a recipient with an open connection is not
    -- notified, one without is sent one notification to the push token that the server has stored for
    -- it, which succeeds at the first attempt, and one without a token is skipped.
    pub handle-should :
        (f : Counts) (now : ℕ) (ev : MessageCreatedEvent) (s : R.State) (v : Server L) (r : UserRow)
        → 0 < ev.recipient_id
        → ev.recipient_id < 2 ^ 63
        → IsCounted R lawful f s
        → ((R.get_int (online_key ev.recipient_id) s).0 ≢ failed)
        → http_get (token_url server_url ev.recipient_id) secret
          ≡ some (
              respond
                (internal_service_auth secret secret
                  (internal_get_push_token_handler (print_nat ev.recipient_id))
                  v).0)
        → query_row (λ (u : UserRow). u.id == ev.recipient_id) v.session.db.users ≡ some r
        → v.session.fails v.session.calls ≡ false
        → (handle R http_get server_url secret now ev s).0
          ≡ should (f ev.recipient_id) now (coalesce r.push_token "")
    unfolding handle
    handle-should f now ev s v r from_1 small h up served row fine =
        rw (is_online-IsCounted R lawful f s ev.recipient_id small h up)
          (elim (Bool-cases (ltb 0 (f ev.recipient_id))) [
            | inl here ↦ rw here refl
            | inr away ↦ rw away (
                deliver_to-should now _ _
                  (served_token ev.recipient_id v r from_1 small served row fine))
          ])
