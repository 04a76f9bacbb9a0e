-- ===== src/Tests.antt =====
-- A small store, server and hub, on which the results are put to work.
mod Messages
mod Accounts
mod Hubs
mod Memory
mod Live
mod Connections
mod Sessions
mod Running
use onyxchat.Base.{
  ℕ, ◌*◌, String, Bool, true, false, Option, some, none, List, [], ◌∷◌, arith, refl,
}
use onyxchat.Store.Db.{Db, UserRow, MessageRow, InviteRow, ContactRow}
use onyxchat.Store.Session.{Session}
use onyxchat.Sql.{exists_row}
use onyxchat.Store.Messages.{same_key}
use onyxchat.Store.Messages.Validity.{IsValid}
use onyxchat.Hub.{Hub, add_client, new_hub}
use onyxchat.Hub.Client.{WsClient}
use onyxchat.Hub.Delivery.{new_client}
use onyxchat.Http.{CurrentUser, Server}

abbrev pub user : ℕ → String → String → UserRow
user uid name key = record {
  id = uid;
  username = name;
  password_hash = "hash";
  public_key = some key;
  push_token = some "token";
  display_name = none;
  deleted_at = none;
}

abbrev pub msg : ℕ → ℕ → ℕ → String → MessageRow
msg mid sender recipient client = record {
  id = mid;
  sender_id = sender;
  recipient_id = recipient;
  body = "text";
  iv = some "";
  encrypted = false;
  client_message_id = some client;
  created_at = 10 * mid;
  read_at = none;
  deleted_at = none;
}

abbrev pub invite : InviteRow
invite = record {
  id = 1;
  code = "WELCOME";
  created_by = "alice";
  used_by = none;
  used_at = none;
  expires_at = some 500;
  created_at = 1;
}

abbrev pub small_db : Db
small_db = record {
  users = user 1 "alice" "ka" ∷ user 2 "bob" "kb" ∷ user 3 "carol" "kc" ∷ [];
  messages = msg 1 1 2 "c1" ∷ msg 2 2 1 "c1" ∷ msg 4 1 2 "c2" ∷ [];
  invites = invite ∷ [];
  contacts = record { user_id = 1; contact_id = 2 } ∷ record { user_id = 2; contact_id = 1 } ∷ [];
  gdpr_log = [];
  next_user = 4;
  next_message = 5;
  next_invite = 2;
}

-- The driver never fails.
abbrev pub up_at : ℕ → Db → Session
up_at now db = record { db = db; now = now; fails = λ _. false; calls = 0 }

abbrev pub up : Session
up = up_at 100 small_db

pub small_db-IsValid : IsValid small_db
unfolding exists_row same_key
small_db-IsValid = record {
  ascending = (omega arith, (omega arith, (omega arith, tt)));
  below = (omega arith, (omega arith, (omega arith, tt)));
  positive = omega arith;
  distinct = (refl, (refl, (refl, tt)));
}

abbrev pub alice_client : WsClient
alice_client = new_client 11 1 "alice"

abbrev pub bob_client : WsClient
bob_client = new_client 22 2 "bob"

abbrev pub entries : Hub ℕ
entries = record {
  clients = alice_client ∷ bob_client ∷ [];
  by_user =
      record { user_id = 1; members = 11 ∷ [] } ∷ record { user_id = 2; members = 22 ∷ [] } ∷ [];
  limiters = [];
}

abbrev pub server : Server ℕ
server = record { session = up; hub = entries; published = [] }

abbrev pub alice : CurrentUser
alice = record { id = 1; username = "alice" }
