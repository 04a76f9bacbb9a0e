-- ===== src/Http/Auth.antt =====
-- Who a request comes from: internal/http/jwt.go, middleware.go, password_handlers.go and
-- internal_handlers.go. `parse_with_claims` is jwt.ParseWithClaims, given the function that hands
-- out the key by whether the signing method is an HMAC; `equal_fold` is strings.EqualFold;
-- `password_matches` is whether bcrypt.CompareHashAndPassword returns no error, and `hash_password`
-- is bcrypt.GenerateFromPassword.
use onyxchat.Base.{
  ℕ, String, len, str_eq, Bool, ◌||◌, Option, none, some, ltb, if◌then◌else◌, coalesce,
}
use onyxchat.Text.{cut, parse_int, parsed_good}
use onyxchat.Base.{is_positive}
use onyxchat.Store.Session.{Result, ok, err}
use onyxchat.Store.Users.{
  User, get_user_by_username, get_user_by_id, update_password, get_push_token, set_push_token,
}
use onyxchat.Http.{CurrentUser, error, json_error, json, status, Handler, answer, with_user, call}
use onyxchat.Http.Messages.{when}

-- What jwt.ParseWithClaims returns.
pub record Token : Type 0 where
  pub claims : Option CurrentUser
  pub valid : Bool

-- The function that `Parse` hands to the library: the secret, for an HMAC only.
abbrev pub key_func : String → Bool → Option String
key_func secret hmac = if hmac then some secret else none

module _ (parse_with_claims : (Bool → Option String) → String → Option Token)
    (equal_fold : String → String → Bool) (secret : String) where
  abbrev valid_claims : Option Token → Option CurrentUser
  valid_claims none = none
  valid_claims (some t) = if t.valid then t.claims else none

  -- `JWTManager.Parse`.
  unfoldable pub parse : String → Option CurrentUser
  parse token = valid_claims (parse_with_claims (key_func secret) token)

  module _ {L A : Type 0} (next : Option CurrentUser → Handler L A) where
    abbrev pub after_lookup : CurrentUser → Result User → Handler L A
    after_lookup claims (err e) v = answer (json_error 401 "account not found or deleted") v
    after_lookup claims (ok u) v = next (some claims) v

    abbrev pub with_claims : Option CurrentUser → Handler L A
    with_claims none v = answer (json_error 401 "invalid or expired token") v
    with_claims (some claims) v = call (get_user_by_id claims.id) (after_lookup claims) v

    -- The header's parts before and after its first space.
    abbrev pub with_parts : Option (String × String) → Handler L A
    with_parts none v = answer (json_error 401 "invalid authorization header") v
    with_parts (some (scheme, token)) v =
        if equal_fold scheme "Bearer"
        then with_claims (parse token) v
        else answer (json_error 401 "invalid authorization header") v

    -- `AuthMiddleware` around the handler `next`, for a method and the header Authorization.
    unfoldable pub auth_middleware : (method header : String) → Handler L A
    unfolding parse get_user_by_id cut
    auth_middleware method header v =
        if str_eq method "OPTIONS"
        then next none v
        else if str_eq header ""
        then answer (json_error 401 "missing authorization header") v
        else with_parts (cut 32 header) v

pub record ChangePasswordRequest : Type 0 where
  pub current_password : String
  pub new_password : String

module _ {L : Type 0} where
  -- `InternalServiceAuth`.
  unfoldable pub internal_service_auth :
      {A : Type 0} → (secret header : String) → Handler L A → Handler L A
  internal_service_auth secret header next v =
      if str_eq header secret then next v else answer (error 403 "forbidden") v

  abbrev after_token : Result String → Handler L String
  after_token (err e) v = answer (error 404 "not found") v
  after_token (ok token) v = answer (json 200 token) v

  abbrev token_of : Option ℕ → Handler L String
  token_of none v = answer (error 400 "invalid user id") v
  token_of (some uid) v = call (get_push_token uid) after_token v

  unfoldable pub internal_get_push_token_handler : (id_str : String) → Handler L String
  unfolding parse_int get_push_token
  internal_get_push_token_handler id_str =
      token_of (when is_positive (parsed_good (parse_int id_str)))

  abbrev pub after_save : (text : String) → Result (Unit {0}) → Handler L (Unit {0})
  after_save text (err e) v = answer (error 500 text) v
  after_save text (ok _) v = answer (status 204) v

  -- The body is `token`.
  unfoldable pub register_push_token_handler :
      Option CurrentUser → Option String → Handler L (Unit {0})
  unfolding set_push_token
  register_push_token_handler user body = with_user user λ cu v.
      let token = coalesce body "" in
      if str_eq token ""
      then answer (error 400 "token required") v
      else if ltb 512 (len token)
      then answer (error 400 "token too long") v
      else call (set_push_token cu.id token) (after_save "failed to save token") v

  module _ (password_matches : (hash password : String) → Bool)
      (hash_password : String → Option String) where
    abbrev pub save_hash : CurrentUser → Option String → Handler L (Unit {0})
    save_hash cu none v = answer (error 500 "failed to hash password") v
    save_hash cu (some hash) v =
        call (update_password cu.id hash) (after_save "failed to update password") v

    abbrev pub verify_current :
        CurrentUser → ChangePasswordRequest → Result User → Handler L (Unit {0})
    verify_current cu req (err e) v = answer (error 404 "user not found") v
    verify_current cu req (ok existing) v =
        if password_matches existing.password_hash req.current_password
        then save_hash cu (hash_password req.new_password) v
        else answer (error 401 "current password is incorrect") v

    abbrev pub change_password : CurrentUser → Option ChangePasswordRequest → Handler L (Unit {0})
    change_password cu none v = answer (error 400 "invalid JSON") v
    change_password cu (some req) v =
        if str_eq req.current_password "" || str_eq req.new_password ""
        then answer (error 400 "current_password and new_password required") v
        else if ltb (len req.new_password) 8
        then answer (error 400 "new password must be at least 8 characters") v
        else call (get_user_by_username cu.username) (verify_current cu req) v

    unfoldable pub change_password_handler :
        Option CurrentUser → Option ChangePasswordRequest → Handler L (Unit {0})
    unfolding get_user_by_username update_password
    change_password_handler user req = with_user user λ cu. change_password cu req
