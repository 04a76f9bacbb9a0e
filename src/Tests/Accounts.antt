-- ===== src/Tests/Accounts.antt =====
-- Accounts, contacts and the handlers at work.
use onyxchat.Base.{
  ℕ, none, String, Bool, Option, if◌then◌else◌, true, false, ◌≡◌, refl, some, ◌∷◌, arith, str_eq,
}
use onyxchat.Sql.{exists_row, query_row}
use onyxchat.Text.{print_nat}
use onyxchat.Store.Db.{UserRow}
use onyxchat.Store.Session.{Session, err, Error, invalid_invite_code}
use onyxchat.Store.Users.{User, register_with_invite, active_id, active_name}
use onyxchat.Store.Users.Codes.{start, after, creates, elsewhere, register_once}
use onyxchat.Store.Invites.{admin_create_invite}
use onyxchat.Store.Contacts.Laws.{listed}
use onyxchat.Store.Account.{GdprDeletionRecord, delete_account_gdpr, name_held, deleted_name}
use onyxchat.Store.Account.Erasure.{Erases, delete_account-Erases, delete_account-name_held}
use onyxchat.Store.Account.Aftermath.{IsErased, delete_account-IsErased}
use onyxchat.Http.{CurrentUser, Handler, status}
use onyxchat.Http.Keys.{GetKeyResponse, get_key_handler}
use onyxchat.Http.Contacts.{add_contact_handler, delete_account_handler}
use onyxchat.Http.Auth.{Token, auth_middleware}
use onyxchat.Http.Identity.{Authenticates, auth_middleware-Authenticates}
use onyxchat.Http.Access.{
  get_key-contact, AddsContact, add_contact_handler-AddsContact, DeletesAccount,
  delete_account_handler-DeletesAccount,
}
use onyxchat.Tests.{small_db, up, up_at, user, server, alice}

abbrev dave : User
dave = record { id = 4; username = "dave"; password_hash = "h"; public_key = "" }

abbrev after_registration : Session
after_registration = up_at 400 (register_with_invite "WELCOME" "dave" "h" up).1.db

-- The administrator has made another code since.
abbrev after_new_code : Session
after_new_code = (admin_create_invite "FRIENDS" "alice" none after_registration).1

register_once_example :
    (register_with_invite "WELCOME" "erin" "h" after_new_code).0 ≡ err invalid_invite_code
unfolding register_with_invite admin_create_invite
register_once_example =
    register_once "WELCOME" "dave" "erin" "h" "h" up after_new_code dave refl
      (after {u = after_new_code}
        (after {u = after_registration} start (elsewhere refl (omega arith)))
        (creates "FRIENDS" "alice" none refl))
      refl refl

delete_account-Erases_example : Erases 90 1 up (delete_account_gdpr 90 1 up)
delete_account-Erases_example = delete_account-Erases 90 1 up

abbrev erasure : GdprDeletionRecord
erasure = record {
  user_id = 1;
  messages_purged = 2;
  public_key_cleared = true;
  invites_expired = 1;
}

delete_account-IsErased_example :
    (u : UserRow) × (query_row (active_id 1) small_db.users ≡ some u)
    × IsErased 1 u.username 100 small_db (delete_account_gdpr 90 1 up).1.db
unfolding delete_account_gdpr deleted_name print_nat
delete_account-IsErased_example = delete_account-IsErased 90 1 up erasure refl

-- Somebody registered the name that the erasure of alice needs.
abbrev squatted : Session
squatted = up_at 100 (record small_db { users = user 7 "deleted_1" "k" ∷ small_db.users })

delete_account-name_held_example :
    (e : Error) × ((delete_account_gdpr 90 1 squatted).0 ≡ err e)
    × ((delete_account_gdpr 90 1 squatted).1.db ≡ squatted.db)
unfolding exists_row name_held deleted_name print_nat
delete_account-name_held_example = delete_account-name_held 90 1 squatted refl

abbrev key_of_bob : GetKeyResponse
key_of_bob = record { username = "bob"; public_key = "kb" }

get_key-contact_example :
    (u : UserRow) × (query_row (active_name "bob") small_db.users ≡ some u)
    × (listed 1 u.id small_db ≡ true)
    × (u.public_key ≡ some "kb")
    × (key_of_bob.username ≡ "bob")
    × (str_eq "kb" "" ≡ false)
unfolding get_key_handler
get_key-contact_example = get_key-contact alice "bob" server 200 key_of_bob refl

add_contact_handler-AddsContact_example :
    AddsContact alice " carol " server
      (add_contact_handler str_eq (some alice) (some " carol ") server)
add_contact_handler-AddsContact_example =
    add_contact_handler-AddsContact str_eq alice " carol " server

delete_account_handler-DeletesAccount_example :
    DeletesAccount
      (λ h p. str_eq p "secret")
      alice
      "secret"
      server
      (delete_account_handler (λ h p. str_eq p "secret") 90 (some alice) (some "secret") server)
delete_account_handler-DeletesAccount_example =
    delete_account_handler-DeletesAccount (λ h p. str_eq p "secret") 90 alice "secret" server

-- A library that reads the token "alice" as alice's.
abbrev reads_alice : (Bool → Option String) → String → Option Token
reads_alice key token =
    if str_eq token "alice" then some (record { claims = some alice; valid = true }) else none

abbrev next : Option CurrentUser → Handler ℕ ℕ
next cu v = (status 200, v)

auth_middleware-Authenticates_example :
    Authenticates reads_alice str_eq "secret" next "Bearer alice" server
      (auth_middleware reads_alice str_eq "secret" next "GET" "Bearer alice" server)
auth_middleware-Authenticates_example =
    auth_middleware-Authenticates reads_alice str_eq "secret" next "Bearer alice" server "GET" refl
