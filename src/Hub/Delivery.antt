-- ===== src/Hub/Delivery.antt =====
-- Who gets what the hub of internal/http/ws.go sends, and what any history of calls keeps.
use mathlib.Core.Option
use onyxchat.Base.{
  length, ℕ, String, Bool, false, ◌≡◌, refl, ap, ◌∙◌, inl, inr, Option, none, List, [], ◌∷◌, ◌++◌,
  arith, ◌==◌, if◌then◌else◌, Bool-cases, ==_iff,
}
use onyxchat.Sql.{update, exists_row, query_row}
use onyxchat.Sql.Laws.{query_row-update, query_row-cases}
use onyxchat.Hub.Client.{
  WsClient, Event, IsSound, enqueue_drop_slow, close_with, enqueue-IsSound, close_with-IsSound,
}
use onyxchat.Hub.{
  Hub, of_user, mem_nat, members_of, add_client, remove_client, after_removal, for_each,
  send_to_user, broadcast_json, close_all, disconnect_user, new_hub,
}
use onyxchat.Hub.Membership.{registered}

pub enqueue-cid : (ev : Event) (c : WsClient) → (enqueue_drop_slow ev c).cid ≡ c.cid
unfolding enqueue_drop_slow
enqueue-cid ev c = ground arith

pub close_with-cid :
    (code : ℕ) (reason : String) (c : WsClient) → (close_with code reason c).cid ≡ c.cid
unfolding close_with
close_with-cid code reason c = ground arith

module _ {L : Type 0} where
  -- The client with this number.
  abbrev pub client : ℕ → Hub L → Option WsClient
  client k h = query_row (λ c. c.cid == k) h.clients

  -- Each target is served once, and nobody else.
  pub for_each-client :
      (targets : List ℕ) (f : WsClient → WsClient) (k : ℕ) (h : Hub L)
      → ((c : WsClient) → (f c).cid ≡ c.cid)
      → client k (for_each targets f h)
        ≡ Option.map (λ c. if mem_nat k targets then f c else c) (client k h)
  unfolding for_each
  for_each-client targets f k h keeps =
      query_row-update (λ c. mem_nat c.cid targets) (λ c. c.cid == k) f h.clients
        (λ c. rw (keeps c))
      ∙ elim (query_row-cases (λ c. c.cid == k) h.clients) [
        | inl (_, q) ↦ rw q refl
        | inr (c, _, q, e) ↦ rw (q, (==_iff c.cid k).0 e) refl
      ]

  -- An event for a user is put once into the queue of each client that the user has registered, and
  -- into no other, and the register stays as it is.
  pub send_to_user-client :
      (uid : ℕ) (ev : Event) (k : ℕ) (h : Hub L)
      → (client k (send_to_user uid ev h)
          ≡ Option.map (λ c. if registered uid k h then enqueue_drop_slow ev c else c) (client k h))
        × ((send_to_user uid ev h).by_user ≡ h.by_user)
  unfolding send_to_user
  send_to_user-client uid ev k h = (
    for_each-client (members_of uid h.by_user) (enqueue_drop_slow ev) k h (enqueue-cid ev),
    unfold for_each in refl,
  )

  -- Disconnecting a user closes each client that the user has registered, and changes no other.
  pub disconnect_user-client :
      (uid k : ℕ) (h : Hub L)
      → client k (disconnect_user uid h)
        ≡ Option.map
            (λ c. if registered uid k h then close_with 1008 "account deleted" c else c)
            (client k h)
  unfolding disconnect_user
  disconnect_user-client uid k h =
      for_each-client (members_of uid h.by_user) (close_with 1008 "account deleted") k h
        (close_with-cid 1008 "account deleted")

-- A client as `WebSocketHandler` makes it.
abbrev pub new_client : ℕ → ℕ → String → WsClient
new_client cid uid username = record {
  cid = cid;
  user_id = uid;
  username = username;
  send = [];
  send_closed = false;
  closed = false;
  farewell = none;
  panicked = false;
}

-- The calls that the goroutines make, one at a time; `takes` is a receive of the client's writer.
pub data Call : Type 0 where
  adds : ℕ → ℕ → String → Call
  removes : WsClient → Call
  sends : ℕ → Event → Call
  broadcasts : Event → Call
  closes_all : String → Call
  disconnects : ℕ → Call
  takes : ℕ → Call

abbrev pub take_one : WsClient → WsClient
take_one c = elim c.send [ [] ↦ c | ev ∷ rest ↦ record c { send = rest } ]

abbrev pub AllSound : List WsClient → Type 0
AllSound [] = Unit {0}
AllSound (c ∷ cs) = IsSound c × AllSound cs

update-AllSound :
    (p : WsClient → Bool) (f : WsClient → WsClient) (cs : List WsClient)
    → ((c : WsClient) → IsSound c → IsSound (f c))
    → AllSound cs
    → AllSound (update p f cs)
unfolding update
update-AllSound p f [] keeps a = tt
update-AllSound p f (c ∷ cs) keeps a = elim (Bool-cases (p c)) [
  | inl e ↦ rw e (keeps c a.0, update-AllSound p f cs keeps a.1)
  | inr e ↦ rw e (a.0, update-AllSound p f cs keeps a.1)
]

append-AllSound :
    (cs : List WsClient) (c : WsClient) → AllSound cs → IsSound c → AllSound (cs ++ c ∷ [])
append-AllSound [] c a v = (v, tt)
append-AllSound (x ∷ cs) c a v = (a.0, append-AllSound cs c a.1 v)

take_one-IsSound : (c : WsClient) → IsSound c → IsSound (take_one c)
take_one-IsSound c v = go c.send refl
  where
    go :
        (q : List Event)
        → c.send ≡ q
        → IsSound (elim q [ [] ↦ c | ev ∷ rest ↦ record c { send = rest } ])
    go [] e = v
    go (ev ∷ rest) e = record {
      bounded = omega (arith, v.bounded, ap length e);
      agree = v.agree;
      running = v.running;
    }

module _ {L : Type 0} where
  pub step : Call → Hub L → Hub L
  step (adds cid uid username) h = add_client (new_client cid uid username) h
  step (removes c) h = remove_client c h
  step (sends uid ev) h = send_to_user uid ev h
  step (broadcasts ev) h = broadcast_json ev h
  step (closes_all reason) h = close_all reason h
  step (disconnects uid) h = disconnect_user uid h
  step (takes k) h = for_each (k ∷ []) take_one h

  pub history : List Call → Hub L → Hub L
  history [] h = h
  history (c ∷ cs) h = history cs (step c h)

  removal_clients :
      (uid : ℕ) (ks : List ℕ) (h : Hub L) → (after_removal uid ks h).clients ≡ h.clients
  unfolding after_removal
  removal_clients uid [] h = refl
  removal_clients uid (k ∷ ks) h = refl

  step-AllSound : (c : Call) (h : Hub L) → AllSound h.clients → AllSound (step c h).clients
  unfolding step add_client remove_client for_each send_to_user broadcast_json close_all
      disconnect_user
  step-AllSound (adds cid uid username) h a =
      append-AllSound h.clients (new_client cid uid username) a
        (record { bounded = omega arith; agree = refl; running = refl })
  step-AllSound (removes c) h a = elim (Bool-cases (exists_row (of_user c.user_id) h.by_user)) [
    | inl known ↦ rw (known, removal_clients) a
    | inr unknown ↦ rw unknown a
  ]
  step-AllSound (sends uid ev) h a =
      update-AllSound _ (enqueue_drop_slow ev) h.clients (enqueue-IsSound ev) a
  step-AllSound (broadcasts ev) h a =
      update-AllSound _ (enqueue_drop_slow ev) h.clients (enqueue-IsSound ev) a
  step-AllSound (closes_all reason) h a =
      update-AllSound _ (close_with 1001 reason) h.clients (close_with-IsSound 1001 reason) a
  step-AllSound (disconnects uid) h a =
      update-AllSound _ (close_with 1008 "account deleted") h.clients
        (close_with-IsSound 1008 "account deleted") a
  step-AllSound (takes k) h a = update-AllSound _ take_one h.clients take_one-IsSound a

  history-AllSound :
      (cs : List Call) (h : Hub L) → AllSound h.clients → AllSound (history cs h).clients
  unfolding history
  history-AllSound [] h a = a
  history-AllSound (c ∷ cs) h a = history-AllSound cs (step c h) (step-AllSound c h a)

-- From an empty hub, whatever calls follow one another, each as one step, no queue passes its bound,
-- a channel is closed exactly with its client, and no send panics.
pub history-IsSound :
    (L : Type 0) (cs : List Call) → AllSound (history cs (new_hub {L = L})).clients
history-IsSound L cs = history-AllSound cs new_hub tt
