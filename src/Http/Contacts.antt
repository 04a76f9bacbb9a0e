-- ===== src/Http/Contacts.antt =====
-- internal/http/account_contact_handlers.go: contact lists, and the deletion of the account.
-- `equal_fold` is strings.EqualFold and `password_matches` is whether bcrypt.CompareHashAndPassword
-- returns no error; `clock` is what time.Now().UTC() returns in the deletion.
use onyxchat.Base.{
  ℕ, String, str_eq, Bool, false, Option, none, some, List, map, if◌then◌else◌, coalesce,
}
use onyxchat.Text.{trim_space}
use onyxchat.Hub.{disconnect_user}
use onyxchat.Store.Session.{
  Result, ok, err, user_not_found, contact_exists, contact_not_found, already_deleted,
}
use onyxchat.Store.Users.{User, get_user_by_username}
use onyxchat.Store.Contacts.{Contact, list_contacts, add_contact, remove_contact}
use onyxchat.Store.Account.{GdprDeletionRecord, delete_account_gdpr}
use onyxchat.Http.{CurrentUser, error, json_error, json, status, Handler, answer, with_user, call}

module _ {L : Type 0} where
  module _ (password_matches : (hash password : String) → Bool) (clock : ℕ) where
    abbrev pub after_erasure : CurrentUser → Result GdprDeletionRecord → Handler L (Unit {0})
    after_erasure cu (err already_deleted) v = answer (error 410 "account already deleted") v
    after_erasure cu (err e) v = answer (json_error 500 "failed to delete account") v
    after_erasure cu (ok r) v = (status 204, record v { hub = disconnect_user cu.id v.hub })

    abbrev pub confirm : CurrentUser → String → Result User → Handler L (Unit {0})
    confirm cu password (err e) v = answer (error 404 "user not found") v
    confirm cu password (ok user) v =
        if password_matches user.password_hash password
        then call (delete_account_gdpr clock cu.id) (after_erasure cu) v
        else answer (error 401 "invalid password") v

    -- The body is `password`.
    unfoldable pub delete_account_handler :
        Option CurrentUser → Option String → Handler L (Unit {0})
    unfolding trim_space get_user_by_username delete_account_gdpr disconnect_user
    delete_account_handler user body = with_user user λ cu v.
        let password = coalesce body "" in
        if str_eq (trim_space password) ""
        then answer (error 400 "password confirmation required") v
        else call (get_user_by_username cu.username) (confirm cu password) v

  abbrev listed_contacts : Result (List Contact) → Handler L (List Contact)
  listed_contacts (err e) v = answer (json_error 500 "failed to list contacts") v
  listed_contacts (ok cs) v =
      answer (json 200 (map (λ c. record { id = c.id; username = c.username; online = false }) cs))
        v

  unfoldable pub list_contacts_handler :
      (String → String → Bool) → Option CurrentUser → Handler L (List Contact)
  unfolding list_contacts
  list_contacts_handler before user =
      with_user user λ cu. call (list_contacts before cu.id) listed_contacts

  abbrev pub after_add : Result (Unit {0}) → Handler L (Unit {0})
  after_add (err user_not_found) v = answer (error 404 "user not found") v
  after_add (err contact_exists) v = answer (error 409 "already in contacts") v
  after_add (err e) v = answer (json_error 500 "failed to add contact") v
  after_add (ok _) v = answer (status 201) v

  abbrev pub add_named : (String → String → Bool) → CurrentUser → String → Handler L (Unit {0})
  add_named equal_fold cu name v =
      if str_eq name ""
      then answer (error 400 "username is required") v
      else if equal_fold name cu.username
      then answer (error 400 "cannot add yourself") v
      else call (add_contact cu.id name) after_add v

  abbrev pub add_body :
      (String → String → Bool) → Option String → CurrentUser → Handler L (Unit {0})
  add_body equal_fold none cu = answer (error 400 "invalid JSON")
  add_body equal_fold (some name) cu = add_named equal_fold cu (trim_space name)

  -- The body is `username`.
  unfoldable pub add_contact_handler :
      (String → String → Bool) → Option CurrentUser → Option String → Handler L (Unit {0})
  unfolding trim_space add_contact
  add_contact_handler equal_fold user body = with_user user (add_body equal_fold body)

  abbrev after_remove : Result (Unit {0}) → Handler L (Unit {0})
  after_remove (err contact_not_found) v = answer (error 404 "contact not found") v
  after_remove (err e) v = answer (json_error 500 "failed to remove contact") v
  after_remove (ok _) v = answer (status 204) v

  unfoldable pub remove_contact_handler :
      Option CurrentUser → (target : String) → Handler L (Unit {0})
  unfolding remove_contact
  remove_contact_handler user target = with_user user λ cu v.
      if str_eq target ""
      then answer (error 400 "username is required") v
      else call (remove_contact cu.id target) after_remove v
