-- ===== src/Hub.antt =====
-- internal/http/ws.go: the hub, which knows the WebSocket clients of this server, and the queue of
-- each client. A client is named by a number in place of its address. Each operation holds the hub's
-- lock or works on a copy of the targets, and is one step here; the order in which Go walks a map is
-- the order of the list. What `json.Marshal` writes of an event is the event.
pub mod Client
pub mod Delivery
pub mod Membership
use onyxchat.Hub.Client.{Event, WsClient, close_with, enqueue_drop_slow}
use onyxchat.Base.{
  ℕ, String, Bool, true, false, not, ◌&&◌, ◌||◌, Option, none, some, List, [], ◌∷◌, ◌++◌, ◌==◌,
  if◌then◌else◌,
}
use onyxchat.Sql.{select, update, delete, exists_row, query_row}
use onyxchat.Store.Messages.{Message}

-- One user's entry of `clientsByUser`: the set of its clients.
pub record Entry : Type 0 where
  pub user_id : ℕ
  pub members : List ℕ

-- `L` is the type of `rate.Limiter`.
pub record Hub (L : Type 0) : Type 0 where
  pub clients : List WsClient
  pub by_user : List Entry
  pub limiters : List (ℕ × L)

abbrev pub mem_nat : ℕ → List ℕ → Bool
mem_nat k = exists_row λ j. j == k

abbrev pub of_user : ℕ → Entry → Bool
of_user uid e = e.user_id == uid

-- A missing entry is a nil set.
unfoldable pub members_of : ℕ → List Entry → List ℕ
unfolding query_row
members_of uid entries = elim (query_row (of_user uid) entries) [ none ↦ [] | some e ↦ e.members ]

abbrev insert_member : ℕ → Entry → Entry
insert_member k e = record e {
  members = if mem_nat k e.members then e.members else e.members ++ k ∷ [];
}

unfoldable pub without : ℕ → List ℕ → List ℕ
unfolding delete select
without k = delete λ j. j == k

unfoldable pub all_members : List Entry → List ℕ
all_members [] = []
all_members (e ∷ es) = e.members ++ all_members es

module _ {L : Type 0} where
  abbrev pub new_hub : Hub L
  new_hub = record { clients = []; by_user = []; limiters = [] }

  -- Returns the limiter of the user, made by `fresh` at the first call.
  unfoldable pub limiter_for : L → ℕ → Hub L → L × Hub L
  unfolding query_row
  limiter_for fresh uid h = elim (query_row (λ l. l.0 == uid) h.limiters) [
    | none ↦ (fresh, record h { limiters = h.limiters ++ (uid, fresh) ∷ [] })
    | some l ↦ (l.1, h)
  ]

  unfoldable pub add_client : WsClient → Hub L → Hub L
  unfolding exists_row update
  add_client c h = record h {
    clients = h.clients ++ c ∷ [];
    by_user =
        if exists_row (of_user c.user_id) h.by_user
        then update (of_user c.user_id) (insert_member c.cid) h.by_user
        else h.by_user ++ record { user_id = c.user_id; members = c.cid ∷ [] } ∷ [];
  }

  -- What `removeClient` does once the client is out of its set.
  unfoldable pub after_removal : ℕ → List ℕ → Hub L → Hub L
  unfolding update delete select
  after_removal uid [] h = record h {
    by_user = delete (of_user uid) h.by_user;
    limiters = delete (λ l. l.0 == uid) h.limiters;
  }
  after_removal uid (k ∷ ks) h = record h {
    by_user = update (of_user uid) (λ e. record e { members = k ∷ ks }) h.by_user;
  }

  -- The entry of a user whose last client goes is dropped, and its limiter with it.
  unfoldable pub remove_client : WsClient → Hub L → Hub L
  unfolding exists_row members_of without after_removal
  remove_client c h =
      if exists_row (of_user c.user_id) h.by_user
      then after_removal c.user_id (without c.cid (members_of c.user_id h.by_user)) h
      else h

  -- Does something to each of the targets in turn.
  unfoldable pub for_each : List ℕ → (WsClient → WsClient) → Hub L → Hub L
  unfolding update exists_row
  for_each targets f h = record h { clients = update (λ c. mem_nat c.cid targets) f h.clients }

  unfoldable pub broadcast_json : Event → Hub L → Hub L
  unfolding for_each all_members enqueue_drop_slow
  broadcast_json ev h = for_each (all_members h.by_user) (enqueue_drop_slow ev) h

  unfoldable pub send_to_user : ℕ → Event → Hub L → Hub L
  unfolding for_each members_of enqueue_drop_slow
  send_to_user uid ev h = for_each (members_of uid h.by_user) (enqueue_drop_slow ev) h

  -- 1001 is CloseGoingAway, 1008 ClosePolicyViolation.
  unfoldable pub close_all : String → Hub L → Hub L
  unfolding for_each all_members close_with
  close_all reason h = for_each (all_members h.by_user) (close_with 1001 reason) h

  unfoldable pub disconnect_user : ℕ → Hub L → Hub L
  unfolding for_each members_of close_with
  disconnect_user uid h = for_each (members_of uid h.by_user) (close_with 1008 "account deleted") h

  unfoldable pub send_message_to_user : ℕ → Message → Hub L → Hub L
  unfolding send_to_user
  send_message_to_user uid m = send_to_user uid (Event.message m)

  unfoldable pub send_typing_to_user : String → ℕ → String → Bool → Hub L → Hub L
  unfolding send_to_user
  send_typing_to_user from to to_name is_typing =
      send_to_user to (Event.typing from to_name is_typing)

  unfoldable pub send_message_deleted_to_user : ℕ → ℕ → Hub L → Hub L
  unfolding send_to_user
  send_message_deleted_to_user uid mid = send_to_user uid (Event.message_deleted mid)

  unfoldable pub send_key_changed_to_user : ℕ → String → Hub L → Hub L
  unfolding send_to_user
  send_key_changed_to_user uid changed = send_to_user uid (Event.key_changed changed)

  unfoldable pub send_read_receipt_to_user : ℕ → ℕ → List ℕ → Hub L → Hub L
  unfolding send_to_user
  send_read_receipt_to_user sender by ids = send_to_user sender (Event.message_read by ids)

  -- Both parties of a message, once each.
  unfoldable pub send_message_deleted_to_users : ℕ → ℕ → ℕ → Hub L → Hub L
  unfolding send_to_user
  send_message_deleted_to_users sender recipient mid h =
      let h' = send_to_user sender (Event.message_deleted mid) h in
      if recipient == sender then h' else send_to_user recipient (Event.message_deleted mid) h'
