-- ===== src/Http/Presence.antt =====
-- internal/http/presence.go: who is connected to any of the servers, counted in Redis, and the events
-- on the channel `presence.events`. Publishing is taken to succeed; the order in which Go walks the
-- map that HGetAll returns is the order of the list.
pub mod Counts
pub mod Snapshot
use Prim.Native.String.{◌++◌}
use onyxchat.Base.{
  ℕ, ◌*◌, String, Bool, true, false, Option, none, some, List, [], ◌∷◌, if◌then◌else◌, ℤ, pos,
  negsuc, is_positive, ◌==◌,
}
use mathlib.Core.List.{◌++◌ as append}
use onyxchat.Text.{print_nat, parse_int, Parsed, good, syntax_error, range_error}
use onyxchat.Redis.{Redis, Answer, found, missing, failed}
use onyxchat.Hub.{mem_nat, Hub, send_to_user}
use onyxchat.Hub.Client.{Event}
use onyxchat.Store.Session.{Result, ok, err}
use onyxchat.Store.Contacts.{get_contact_follower_ids}
use onyxchat.Http.{Server}

-- `Status` is "online" or "offline".
pub record PresenceEvent : Type 0 where
  pub user_id : ℕ
  pub username : String
  pub online : Bool
  pub is_snapshot : Bool

-- Redis, and what was published on the channel, oldest first.
pub record PresenceStore (R : Redis) : Type 0 where
  pub redis : R.State
  pub events : List PresenceEvent

abbrev pub names_key : String
names_key = "presence:names"

-- `presenceConnsKey` before the id, and `presenceConnsTTL` in seconds.
abbrev pub conns_key : ℕ → String
conns_key uid = "presence:conns:" ++ print_nat uid

abbrev pub conns_ttl : ℕ
conns_ttl = 2 * 60

-- n == 1
abbrev pub is_one : ℤ → Bool
is_one (pos n) = n == 1
is_one (negsuc n) = false

abbrev pub going : ℕ → String → Bool → PresenceEvent
going uid name online = record {
  user_id = uid;
  username = name;
  online = online;
  is_snapshot = false;
}

module _ {R : Redis} where
  abbrev pub publish : PresenceEvent → PresenceStore R → PresenceStore R
  publish ev p = record p { events = append p.events (ev ∷ []) }

  -- Whether the user came online, if Redis says; the answers to Expire and HSet are only logged.
  abbrev pub connected : ℕ → String → Answer ℤ → PresenceStore R → Option Bool × PresenceStore R
  connected uid name (found n) p =
      let timed = record p { redis = (R.expire (conns_key uid) conns_ttl p.redis).1 } in
      if is_one n
      then (
        some true,
        publish (going uid name true)
            (record timed { redis = (R.hset names_key (print_nat uid) name timed.redis).1 }),
      )
      else (some false, timed)
  connected uid name _ p = (none, p)

  unfoldable pub connect : ℕ → String → PresenceStore R → Option Bool × PresenceStore R
  unfolding print_nat
  connect uid name p =
      let (n, s) = R.incr (conns_key uid) p.redis in connected uid name n (record p { redis = s })

  -- Whether the user went offline, if Redis says; the answers to Del and HDel are only logged.
  abbrev pub disconnected : ℕ → String → Answer ℤ → PresenceStore R → Option Bool × PresenceStore R
  disconnected uid name (found n) p = if is_positive n then (some false, p) else (
    some true,
    publish (going uid name false) (record p {
      redis = (R.hdel names_key (print_nat uid) (R.del (conns_key uid) p.redis).1).1;
    }),
  )
  disconnected uid name _ p = (none, p)

  unfoldable pub disconnect : ℕ → String → PresenceStore R → Option Bool × PresenceStore R
  unfolding print_nat
  disconnect uid name p =
      let (n, s) = R.decr (conns_key uid) p.redis in
      disconnected uid name n (record p { redis = s })

  unfoldable pub refresh : ℕ → PresenceStore R → Answer (Unit {0}) × PresenceStore R
  unfolding print_nat
  refresh uid p =
      let (a, s) = R.expire (conns_key uid) conns_ttl p.redis in (a, record p { redis = s })

abbrev pub allowed_id : List ℕ → Parsed → Option ℕ
allowed_id contacts (good (pos n)) = if mem_nat n contacts then some n else none
allowed_id contacts _ = none

abbrev pub snapshot_entry : Option ℕ → String → List PresenceEvent → List PresenceEvent
snapshot_entry none name rest = rest
snapshot_entry (some n) name rest =
    record { user_id = n; username = name; online = true; is_snapshot = true } ∷ rest

-- One event for each entry of the hash whose id is read and is a contact's.
unfoldable pub snapshot_of : List ℕ → List (String × String) → List PresenceEvent
unfolding parse_int
snapshot_of contacts [] = []
snapshot_of contacts ((id_text, name) ∷ rest) =
    snapshot_entry (allowed_id contacts (parse_int id_text)) name (snapshot_of contacts rest)

abbrev pub snapshot_answer : List ℕ → Answer (List (String × String)) → Option (List PresenceEvent)
snapshot_answer contacts (found entries) = some (snapshot_of contacts entries)
snapshot_answer contacts _ = none

-- The snapshot, or an error.
unfoldable pub get_snapshot :
    {R : Redis} → List ℕ → PresenceStore R → Option (List PresenceEvent) × PresenceStore R
unfolding snapshot_of
get_snapshot [] p = (some [], p)
get_snapshot {R} (c ∷ cs) p =
    let (a, s) = R.hgetall names_key p.redis in (snapshot_answer (c ∷ cs) a, record p { redis = s })

abbrev pub presence_event : PresenceEvent → Event
presence_event ev = Event.presence ev.user_id ev.username ev.online ev.is_snapshot

module _ {L : Type 0} where
  unfoldable pub send_to_all : List ℕ → Event → Hub L → Hub L
  unfolding send_to_user
  send_to_all [] ev h = h
  send_to_all (uid ∷ uids) ev h = send_to_all uids ev (send_to_user uid ev h)

  abbrev pub to_followers : PresenceEvent → Result (List ℕ) → Server L → Server L
  to_followers ev (err e) v = v
  to_followers ev (ok followers) v = record v {
    hub = send_to_all followers (presence_event ev) v.hub;
  }

  -- What the subscriber does with one payload of the channel; it is decoded, `none` where that fails.
  unfoldable pub presence_subscriber : Option PresenceEvent → Server L → Server L
  unfolding get_contact_follower_ids send_to_all
  presence_subscriber none v = v
  presence_subscriber (some ev) v =
      let (followers, s) = get_contact_follower_ids ev.user_id v.session in
      to_followers ev followers (record v { session = s })
