-- ===== src/Tests/Sessions.antt =====
-- Sessions, tickets and limiters at work.
use Prim.Native.String.{◌++◌}
use onyxchat.Base.{
  ℕ, ◌-◌, String, str_eq, Bool, true, ◌≡◌, refl, Option, none, some, arith, ltb, pos,
}
use onyxchat.Text.{print_nat}
use onyxchat.Sql.{query_row}
use onyxchat.Store.Session.{count_call}
use onyxchat.Store.Db.{UserRow}
use onyxchat.Store.Users.{active_id, active_name}
use onyxchat.Http.{CurrentUser, json}
use onyxchat.Http.Auth.{Token, ChangePasswordRequest, change_password_handler}
use onyxchat.Http.Limits.{new_keyed_limiter}
use onyxchat.Http.Gate.{Gate, GateHandler, reply}
use onyxchat.Http.Sessions.{
  Claims, LoginRequest, SessionResponse, RegisterRequest, register_handler, login_handler,
  lookup_refresh_token, refresh_handler,
}
use onyxchat.Http.Sessions.Changed.{change_password-login}
use onyxchat.Http.Sessions.Login.{Logins, login-Logins}
use onyxchat.Http.Sessions.Registering.{RegistersUser, register_handler-RegistersUser}
use onyxchat.Http.Sessions.Renewal.{refresh-login}
use onyxchat.Http.Sessions.Rotation.{Refreshes, refresh-Refreshes}
use onyxchat.Http.Tickets.{ticket_key, ws_ticket_handler, ws_auth_middleware, from_ticket}
use onyxchat.Http.Tickets.Admission.{ws_auth-ws_ticket, from_ticket_once}
use onyxchat.Tests.{server, alice, user}
use onyxchat.Tests.Memory.{memory, memory-IsLawful, empty, no_failure, put}

-- A limiter that counts down.
abbrev permit : ℕ → ℕ → Bool × ℕ
permit now n = (ltb 0 n, n - 1)

abbrev sign : Claims → String → Option String
sign c key = some (key ++ c.subject)

abbrev encode : ℕ → String
encode n = "token" ++ print_nat n

-- Redis holds alice's id under the token old.
abbrev gate : Gate memory ℕ
gate = record {
  server = server;
  redis = record empty { ints = put "rt:old" (some (pos 1)) (λ key. none) };
  ip_limiter = new_keyed_limiter permit 10 600;
  id_limiter = new_keyed_limiter permit 4 600;
  user_limiter = new_keyed_limiter permit 20 600;
}

abbrev right : LoginRequest
right = record { username = " alice "; password = "hash" }

login-Logins_example :
    Logins memory memory-IsLawful sign "secret" encode
      (some 7)
      permit
      (λ s. s)
      str_eq
      right
      gate
      (login_handler memory sign "secret" encode (some 7) permit (λ s. s) str_eq (some right) gate)
login-Logins_example =
    login-Logins memory memory-IsLawful sign "secret" encode (some 7) permit (λ s. s) str_eq right
      gate

abbrev newcomer : RegisterRequest
newcomer = record { username = "dave"; password = "pw"; invite_code = "WELCOME" }

abbrev hash : String → Option String
hash password = some ("hash of " ++ password)

register_handler-RegistersUser_example :
    RegistersUser memory memory-IsLawful sign "secret" encode
      (some 7)
      hash
      newcomer
      gate
      (register_handler memory sign "secret" encode (some 7) hash (some newcomer) gate)
register_handler-RegistersUser_example =
    register_handler-RegistersUser memory memory-IsLawful sign "secret" encode (some 7) hash
      newcomer gate

abbrev logged_in : Gate memory ℕ
logged_in =
    (login_handler memory sign "secret" encode (some 7) permit (λ s. s) str_eq (some right) gate).1

abbrev first_session : SessionResponse
first_session = record { id = 1; username = "alice"; token = "secret1"; refresh_token = "token7" }

refresh-login_example :
    (refresh_handler memory sign "secret" encode (some 8) (some "token7") logged_in).0
    ≡ json 200 (record { token = "secret1"; refresh_token = "token8" })
unfolding login_handler query_row active_id lookup_refresh_token
refresh-login_example =
    refresh-login memory memory-IsLawful sign "secret" encode 8 permit (λ s. s) str_eq (some 7)
      right gate logged_in 200 first_session (user 1 "alice" "ka") "secret1" refl refl refl refl
      refl (no_failure _) refl refl

refresh-Refreshes_example :
    Refreshes memory memory-IsLawful sign "secret" encode
      (some 7)
      "old"
      gate
      (refresh_handler memory sign "secret" encode (some 7) (some "old") gate)
refresh-Refreshes_example =
    refresh-Refreshes memory memory-IsLawful sign "secret" encode (some 7) "old" gate

abbrev next : CurrentUser → GateHandler memory ℕ String
next u = reply (json 200 u.username)

abbrev no_token : (Bool → Option String) → String → Option Token
no_token key token = none

abbrev ticketed : Gate memory ℕ
ticketed = record gate {
  redis = record gate.redis { texts = put "ws:ticket:token7" (some "1:alice") (λ key. none) };
}

ws_auth-ws_ticket_example :
    ws_auth_middleware next no_token str_eq "secret" "token7" "" ticketed
    ≡ next alice (record ticketed {
      redis = (memory.get_del (ticket_key "token7") ticketed.redis).1;
      server = record ticketed.server { session = count_call ticketed.server.session };
    })
unfolding ws_ticket_handler query_row active_id
ws_auth-ws_ticket_example =
    ws_auth-ws_ticket memory memory-IsLawful encode (some 7) next no_token str_eq "secret" alice ""
      "token7" 200 gate ticketed (user 1 "alice" "ka") refl (omega arith) refl refl refl
      (λ down. cc)

from_ticket_once_example :
    (from_ticket memory "token7" (from_ticket memory "token7" ticketed.redis).1).0 ≡ none
from_ticket_once_example =
    from_ticket_once memory memory-IsLawful "token7" ticketed.redis (λ down. cc)

abbrev new_password : ChangePasswordRequest
new_password = record { current_password = "hash"; new_password = "long enough" }

-- The server on which alice has changed her password; the hash of a password is the password.
abbrev rehashed : Gate memory ℕ
rehashed = record gate {
  server = (change_password_handler str_eq (λ p. some p) (some alice) (some new_password) server).1;
}

alice_owns :
    (u : UserRow) → query_row (active_name "alice") server.session.db.users ≡ some u → u.id ≡ 1
unfolding query_row active_name
alice_owns u q = cc

change_password-login_example :
    (hash : String) × (◌≡◌ {A = Option String} (some "long enough") (some hash))
    × (str_eq hash "long enough" ≡ true)
    × (◌≡◌ {A = ℕ} 1 1)
unfolding change_password_handler login_handler
change_password-login_example =
    change_password-login memory memory-IsLawful sign "secret" encode (some 7) permit (λ s. s)
      str_eq (λ p. some p) alice new_password server
      (record { username = " alice "; password = "long enough" }) rehashed 204 200 first_session
      alice_owns refl refl refl refl
