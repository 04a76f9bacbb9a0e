-- ===== src/Http/Keys.antt =====
-- internal/http/key_handlers.go: public keys. `decodes` and `decodes_raw` are whether
-- base64.StdEncoding and base64.RawStdEncoding decode a text without an error.
use onyxchat.Base.{
  ℕ, String, len, str_eq, Bool, not, ◌&&◌, ◌||◌, Option, none, some, List, [], ◌∷◌, ltb,
  if◌then◌else◌,
}
use onyxchat.Hub.{Hub, send_key_changed_to_user}
use onyxchat.Store.Session.{Result, ok, err}
use onyxchat.Store.Users.{User, get_by_username, set_public_key}
use onyxchat.Store.Contacts.{is_contact, get_contact_follower_ids}
use onyxchat.Http.{CurrentUser, error, json, status, Handler, answer, with_user, call}

pub record GetKeyResponse : Type 0 where
  pub username : String
  pub public_key : String

module _ {L : Type 0} where
  -- The loop over the ids of the followers.
  unfoldable pub notify_followers : List ℕ → String → Hub L → Hub L
  unfolding send_key_changed_to_user
  notify_followers [] name h = h
  notify_followers (f ∷ fs) name h = notify_followers fs name (send_key_changed_to_user f name h)

  abbrev pub after_followers : CurrentUser → Result (List ℕ) → Handler L (Unit {0})
  after_followers cu (err e) v = answer (status 204) v
  after_followers cu (ok ids) v =
      (status 204, record v { hub = notify_followers ids cu.username v.hub })

  -- The goroutine that notifies the followers runs to its end before the answer is looked at.
  abbrev pub after_set : CurrentUser → Result (Unit {0}) → Handler L (Unit {0})
  after_set cu (err e) v = answer (error 500 "failed to save key") v
  after_set cu (ok _) v = call (get_contact_follower_ids cu.id) (after_followers cu) v

  module _ (decodes decodes_raw : String → Bool) where
    abbrev pub upload : Option String → CurrentUser → Handler L (Unit {0})
    upload none cu v = answer (error 400 "invalid json") v
    upload (some key) cu v =
        if str_eq key ""
        then answer (error 400 "publicKey required") v
        else if ltb (len key) 80 || ltb 256 (len key)
        then answer (error 400 "publicKey length invalid") v
        else if not (decodes key) && not (decodes_raw key)
        then answer (error 400 "publicKey must be base64-encoded") v
        else call (set_public_key cu.id key) (after_set cu) v

    -- The body is `publicKey`.
    unfoldable pub upload_key_handler : Option CurrentUser → Option String → Handler L (Unit {0})
    unfolding set_public_key get_contact_follower_ids notify_followers
    upload_key_handler user body = with_user user (upload body)

  abbrev pub key_of_contact : String → User → Result Bool → Handler L GetKeyResponse
  key_of_contact name target (err e) v = answer (error 500 "internal error") v
  key_of_contact name target (ok contact) v =
      if not contact || str_eq target.public_key ""
      then answer (error 404 "key not found") v
      else answer (json 200 (record { username = name; public_key = target.public_key })) v

  abbrev pub key_of : CurrentUser → String → Result User → Handler L GetKeyResponse
  key_of cu name (err e) v = answer (error 404 "key not found") v
  key_of cu name (ok target) v = call (is_contact cu.id target.id) (key_of_contact name target) v

  unfoldable pub get_key_handler : Option CurrentUser → String → Handler L GetKeyResponse
  unfolding get_by_username is_contact
  get_key_handler user name = with_user user λ cu v.
      if str_eq name ""
      then answer (error 400 "username required") v
      else call (get_by_username name) (key_of cu name) v
