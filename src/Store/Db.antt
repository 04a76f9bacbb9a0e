-- ===== src/Store/Db.antt =====
-- The tables of server/onyxchat-server/internal/store/schema and migrations, as lists of rows in
-- the order of insertion. A column that may be NULL is an `Option`, a timestamp is a number. The
-- sequences behind BIGSERIAL are the `next_` fields; the gaps that a refused insertion leaves in a
-- sequence are not modelled.
use onyxchat.Base.{ℕ, String, Bool, Option, List, []}

pub record UserRow : Type 0 where
  pub id : ℕ
  pub username : String
  pub password_hash : String
  pub public_key : Option String
  pub push_token : Option String
  pub display_name : Option String
  pub deleted_at : Option ℕ

pub record MessageRow : Type 0 where
  pub id : ℕ
  pub sender_id : ℕ
  pub recipient_id : ℕ
  pub body : String
  pub iv : Option String
  pub encrypted : Bool
  pub client_message_id : Option String
  pub created_at : ℕ
  pub read_at : Option ℕ
  pub deleted_at : Option ℕ

pub record InviteRow : Type 0 where
  pub id : ℕ
  pub code : String
  pub created_by : String
  pub used_by : Option String
  pub used_at : Option ℕ
  pub expires_at : Option ℕ
  pub created_at : ℕ

pub record ContactRow : Type 0 where
  pub user_id : ℕ
  pub contact_id : ℕ

pub record GdprRow : Type 0 where
  pub user_id : ℕ
  pub anonymized_at : ℕ
  pub messages_purged : ℕ
  pub public_key_cleared : Bool
  pub invites_expired : ℕ
  pub notes : String

pub record Db : Type 0 where
  pub users : List UserRow
  pub messages : List MessageRow
  pub invites : List InviteRow
  pub contacts : List ContactRow
  pub gdpr_log : List GdprRow
  pub next_user : ℕ
  pub next_message : ℕ
  pub next_invite : ℕ

abbrev pub empty_db : Db
empty_db = record {
  users = [];
  messages = [];
  invites = [];
  contacts = [];
  gdpr_log = [];
  next_user = 1;
  next_message = 1;
  next_invite = 1;
}
