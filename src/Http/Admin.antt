-- ===== src/Http/Admin.antt =====
-- internal/http/admin_handlers.go: invite codes for the administrator. `to_upper` is
-- strings.ToUpper, `add_days now n` is time.AddDate(0, 0, n) on the present time, and `draw i` is the
-- i-th number that crypto/rand's Int returns. A time's text in RFC 3339 is the time.
use Prim.Native.String.{◌++◌}
use onyxchat.Base.{
  ℕ, zero, suc, String, str_eq, Option, none, some, List, if◌then◌else◌, ℤ, is_positive, to_nat,
}
use onyxchat.Text.{trim_space}
use onyxchat.Store.Db.{InviteRow}
use onyxchat.Store.Session.{Result, ok, err, invite_exists, invite_not_found}
use onyxchat.Store.Invites.{admin_list_invites, admin_create_invite, admin_reset_invite}
use onyxchat.Http.{CurrentUser, error, json_error, json, Handler, answer, call}

abbrev pub invite_charset : String
invite_charset = "ABCDEFGHJKLMNPQRSTUVWXYZ23456789"

-- The character at a place of a text, alone.
unfoldable pub char_at : ℕ → String → String
char_at i String.[] = ""
char_at zero (String.◌∷◌ c s) = String.◌∷◌ c ""
char_at (suc i) (String.◌∷◌ c s) = char_at i s

unfoldable pub random_code : (ℕ → ℕ) → String → String
unfolding char_at
random_code draw prefix =
    let b = λ (i : ℕ). char_at (draw i) invite_charset in
    prefix ++ "-" ++ b 0 ++ b 1 ++ b 2 ++ "-" ++ b 3 ++ b 4 ++ b 5

pub record CreateInviteRequest : Type 0 where
  pub code : String
  pub expires_days : ℤ

module _ (to_upper : String → String) (draw : ℕ → ℕ) where
  abbrev pub code_or_random : CurrentUser → String → String
  code_or_random caller code =
      if str_eq code "" then random_code draw (to_upper caller.username) else code

abbrev pub expiry : (ℕ → ℕ → ℕ) → ℕ → ℤ → Option ℕ
expiry add_days now days = if is_positive days then some (add_days now (to_nat days)) else none

module _ {L : Type 0} where
  -- `AdminOnly` around a handler that may count on a user.
  unfoldable pub admin_only :
      {A : Type 0} → String → Option CurrentUser → (CurrentUser → Handler L A) → Handler L A
  admin_only allowed none next v = answer (error 403 "forbidden") v
  admin_only allowed (some user) next v =
      if str_eq user.username allowed then next user v else answer (error 403 "forbidden") v

  abbrev listed_invites : Result (List InviteRow) → Handler L (List InviteRow)
  listed_invites (err e) v = answer (json_error 500 "failed to list invite codes") v
  listed_invites (ok codes) v = answer (json 200 codes) v

  unfoldable pub admin_list_invites_handler : Handler L (List InviteRow)
  unfolding admin_list_invites
  admin_list_invites_handler = call admin_list_invites listed_invites

  abbrev pub created_invite : Result InviteRow → Handler L InviteRow
  created_invite (err invite_exists) v = answer (error 409 "invite code already exists") v
  created_invite (err e) v = answer (json_error 500 "failed to create invite code") v
  created_invite (ok created) v = answer (json 201 created) v

  module _ (to_upper : String → String) (draw : ℕ → ℕ) (add_days : ℕ → ℕ → ℕ) where
    unfoldable pub admin_create_invite_handler :
        CurrentUser → Option CreateInviteRequest → Handler L InviteRow
    unfolding random_code trim_space admin_create_invite
    admin_create_invite_handler caller none v = answer (error 400 "invalid JSON") v
    admin_create_invite_handler caller (some req) v =
        call
          (admin_create_invite (code_or_random to_upper draw caller (trim_space req.code))
            caller.username (expiry add_days v.session.now req.expires_days))
          created_invite v

  abbrev was_reset : String → Result (Unit {0}) → Handler L String
  was_reset code (err invite_not_found) v = answer (error 404 "invite code not found") v
  was_reset code (err e) v = answer (json_error 500 "failed to reset invite code") v
  was_reset code (ok _) v = answer (json 200 code) v

  unfoldable pub admin_reset_invite_handler : String → Handler L String
  unfolding admin_reset_invite
  admin_reset_invite_handler code v =
      if str_eq code ""
      then answer (error 400 "code is required") v
      else call (admin_reset_invite code) (was_reset code) v
