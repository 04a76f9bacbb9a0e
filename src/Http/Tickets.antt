-- ===== src/Http/Tickets.antt =====
-- internal/http/ws_ticket.go and ws_auth_middleware.go: a ticket, or a bearer token, opens a
-- WebSocket. `random` is what rand.Read fills for a ticket, where it does not fail, and `encode` is
-- hex.EncodeToString; the other parameters are those of Http/Auth.
pub mod Admission
use Prim.Native.String.{◌++◌}
use onyxchat.Base.{
  ℕ, String, str_eq, Bool, true, false, Option, none, some, if◌then◌else◌, ℤ, pos, to_nat,
}
use onyxchat.Text.{cut, print_nat, parse_int, Parsed, good}
use onyxchat.Redis.{Redis, Answer, found, missing, failed}
use onyxchat.Store.Session.{Result, ok, err, Error, user_not_found}
use onyxchat.Store.Users.{User}
use onyxchat.Http.{CurrentUser, Reply, error, json}
use onyxchat.Http.Auth.{Token, parse}
use onyxchat.Http.Gate.{Gate, GateHandler, reply, as_user, ask_store, ask_redis, get_user_by_int}

abbrev pub ticket_key : String → String
ticket_key ticket = "ws:ticket:" ++ ticket

abbrev pub ticket_ttl : ℕ
ticket_ttl = 30

-- fmt.Sprintf("%d:%s", user.ID, user.Username)
unfoldable pub ticket_value : CurrentUser → String
unfolding print_nat
ticket_value u = print_nat u.id ++ (":" ++ u.username)

abbrev pub generate_ticket : {B : Type 0} → (B → String) → Option B → Option String
generate_ticket encode none = none
generate_ticket encode (some b) = some (encode b)

module _ (R : Redis) {L : Type 0} where
  module _ {B : Type 0} (encode : B → String) where
    abbrev pub ticket_stored : (ticket : String) → Answer (Unit {0}) → GateHandler R L String
    ticket_stored ticket (found _) = reply (json 200 ticket)
    ticket_stored ticket _ = reply (error 500 "failed to store ticket")

    abbrev pub store_ticket : CurrentUser → Option String → GateHandler R L String
    store_ticket u none = reply (error 500 "failed to generate ticket")
    store_ticket u (some ticket) =
        ask_redis (R.set_text (ticket_key ticket) (ticket_value u) ticket_ttl)
          (ticket_stored ticket)

    unfoldable pub ws_ticket_handler : Option B → Option CurrentUser → GateHandler R L String
    unfolding ticket_value
    ws_ticket_handler random user = as_user user λ u. store_ticket u (generate_ticket encode random)

-- The user of a request before its row is looked up.
abbrev pub Claimed : Type 0
Claimed = Option (ℤ × String)

abbrev pub with_id : String → Parsed → Claimed
with_id username (good n) = some (n, username)
with_id username _ = none

abbrev pub of_parts : Option (String × String) → Claimed
of_parts none = none
of_parts (some (uid, username)) = with_id username (parse_int uid)

abbrev pub of_answer : Answer String → Claimed
of_answer (found value) = of_parts (cut 58 value)
of_answer _ = none

abbrev of_claims : Option CurrentUser → Claimed
of_claims none = none
of_claims (some u) = some (pos u.id, u.username)

-- The ticket is taken from Redis whatever comes of it.
abbrev pub from_ticket : (R : Redis) → (ticket : String) → R.State → Claimed × R.State
from_ticket R ticket s =
    if str_eq ticket ""
    then (none, s)
    else (let (a, s') = R.get_del (ticket_key ticket) s in (of_answer a, s'))

module _ (parse_with_claims : (Bool → Option String) → String → Option Token)
    (equal_fold : String → String → Bool) (secret : String) where
  abbrev from_parts : Option (String × String) → Claimed
  from_parts none = none
  from_parts (some (scheme, token)) =
      if equal_fold scheme "Bearer"
      then of_claims (parse parse_with_claims equal_fold secret token)
      else none

  abbrev pub from_header : (header : String) → Claimed
  from_header header = if str_eq header "" then none else from_parts (cut 32 header)

  abbrev pub or_header : (header : String) → Claimed → Claimed
  or_header header (some u) = some u
  or_header header none = from_header header

module _ {R : Redis} {L A : Type 0} (next : CurrentUser → GateHandler R L A) where
  abbrev pub admitted : ℤ → String → Result User → GateHandler R L A
  admitted uid username (err user_not_found) = reply (error 401 "unauthorized")
  admitted uid username (err e) = reply (error 500 "internal server error")
  admitted uid username (ok _) = next (record { id = to_nat uid; username = username })

  abbrev pub admit : Claimed → GateHandler R L A
  admit none = reply (error 401 "unauthorized")
  admit (some (uid, username)) = ask_store (get_user_by_int uid) (admitted uid username)

  module _ (parse_with_claims : (Bool → Option String) → String → Option Token)
      (equal_fold : String → String → Bool) (secret : String) where
    -- `WSAuthMiddleware` around the handler `next`, for the query's ticket and the header
    -- Authorization.
    unfoldable pub ws_auth_middleware : (ticket header : String) → GateHandler R L A
    unfolding cut parse_int parse get_user_by_int
    ws_auth_middleware ticket header g =
        let (claimed, s) = from_ticket R ticket g.redis in
        admit (or_header parse_with_claims equal_fold secret header claimed)
          (record g { redis = s })
