-- ===== src/Http/Socket/Opening.antt =====
-- `WebSocketHandler` of internal/http/ws.go: what a connection that is opened finds in its queue, before
-- its writer starts.
use mathlib.Core.List.{map}
use onyxchat.Base.{
  ℕ, ◌≤◌, ◌<◌, String, Bool, true, false, ◌≡◌, refl, ap, ◌∙◌, Option, none, some, List, [], ◌∷◌,
  ◌++◌, arith, ◌==◌, pos, length, inl, inr,
}
use onyxchat.Sql.{exists_row}
use onyxchat.Sql.Laws.{query_row-append_new, query_row-cases}
use onyxchat.Redis.{Redis}
use onyxchat.Store.Session.{Session, Result, ok}
use onyxchat.Store.Contacts.{Contact, list_contacts}
use onyxchat.Store.Messages.{Message, get_unread_for_user}
use onyxchat.Hub.{Hub, add_client, for_each, send_to_user, send_message_to_user}
use onyxchat.Hub.Client.{
  WsClient, Event, IsSound, enqueue_drop_slow, enqueue_all, enqueue_all-fits, enqueue_all-overflows,
  send_queue_size,
}
use onyxchat.Hub.Membership.{mem_self, registered, registered-add_client}
use onyxchat.Hub.Delivery.{client, for_each-client, send_to_user-client, enqueue-cid, new_client}
use onyxchat.Http.Presence.{PresenceEvent, presence_event, connect, get_snapshot}
use onyxchat.Http.Socket.{contact_ids, enqueue_snapshot, send_missed, Live, open_connection}

module _ {L : Type 0} (c : WsClient) where
  -- The queue of c's client in the hub, and that it is registered.
  pub record Queued (h : Hub L) (x : WsClient) : Type 0 where
    pub there : client c.cid h ≡ some x
    pub member : registered c.user_id c.cid h ≡ true

  sent_to_one :
      (ev : Event) (h : Hub L) (x : WsClient)
      → Queued h x
      → Queued (for_each (c.cid ∷ []) (enqueue_drop_slow ev) h) (enqueue_drop_slow ev x)
  sent_to_one ev h x q = record {
    there =
        for_each-client (c.cid ∷ []) (enqueue_drop_slow ev) c.cid h (enqueue-cid ev)
        ∙ rw (q.there, mem_self c.cid) refl;
    member = unfold for_each in q.member;
  }

  sent_to_user :
      (ev : Event) (h : Hub L) (x : WsClient)
      → Queued h x
      → Queued (send_to_user c.user_id ev h) (enqueue_drop_slow ev x)
  sent_to_user ev h x q =
      let (sent, same) = send_to_user-client c.user_id ev c.cid h in
      record { there = sent ∙ rw (q.there, q.member) refl; member = rw same q.member }

  snapshot-Queued :
      (evs : List PresenceEvent) (h : Hub L) (x : WsClient)
      → Queued h x
      → Queued (enqueue_snapshot c (some evs) h) (enqueue_all (map presence_event evs) x)
  unfolding enqueue_all
  snapshot-Queued [] h x q = q
  snapshot-Queued (ev ∷ evs) h x q = snapshot-Queued evs _ _ (sent_to_one (presence_event ev) h x q)

  missed-Queued :
      (ms : List Message) (h : Hub L) (x : WsClient)
      → Queued h x
      → Queued (send_missed c.user_id (ok ms) h) (enqueue_all (map Event.message ms) x)
  unfolding enqueue_all send_message_to_user
  missed-Queued [] h x q = q
  missed-Queued (m ∷ ms) h x q = missed-Queued ms _ _ (sent_to_user (Event.message m) h x q)

  added-Queued : (h : Hub L) → client c.cid h ≡ none → Queued (add_client c h) c
  unfolding add_client
  added-Queued h fresh = record {
    there =
        query_row-append_new (λ (x : WsClient). x.cid == c.cid) h.clients c absent (ground arith);
    member = (registered-add_client c h).0 c.user_id c.cid ∙ ground arith;
  }
    where
      absent : exists_row (λ (x : WsClient). x.cid == c.cid) h.clients ≡ false
      absent = elim (query_row-cases (λ (x : WsClient). x.cid == c.cid) h.clients) [
        | inl (none_there, _) ↦ none_there
        | inr (x, _, q, _) ↦ ground (arith, q, fresh)
      ]

-- Events sent one after the other, in two parts.
enqueue_all-append :
    (xs ys : List Event) (c : WsClient)
    → enqueue_all (xs ++ ys) c ≡ enqueue_all ys (enqueue_all xs c)
unfolding enqueue_all
enqueue_all-append [] ys c = refl
enqueue_all-append (x ∷ xs) ys c = enqueue_all-append xs ys (enqueue_drop_slow x c)

module _ {R : Redis} {L : Type 0} (before : String → String → Bool) (cid uid : ℕ) (name : String)
    (since : ℕ) (s : Live R L) where
  abbrev accepted : WsClient
  accepted = new_client cid uid name

  -- The calls that the handler makes before the queue is filled.
  abbrev listed : Result (List Contact) × Session
  listed = list_contacts before uid s.server.session

  abbrev pub snapshot_given : Option (List PresenceEvent)
  snapshot_given = (get_snapshot (contact_ids listed.0) (connect uid name s.presence).1).0

  abbrev pub missed_given : Result (List Message)
  missed_given = (get_unread_for_user uid since listed.1).0

  abbrev pub queue_given : List PresenceEvent → List Message → List Event
  queue_given evs ms = map presence_event evs ++ map Event.message ms

  open_connection-Queued :
      (evs : List PresenceEvent) (ms : List Message)
      → client cid s.server.hub ≡ none
      → snapshot_given ≡ some evs
      → missed_given ≡ ok ms
      → Queued accepted
          (open_connection before accepted (pos since) s).server.hub
          (enqueue_all (queue_given evs ms) accepted)
  unfolding open_connection
  open_connection-Queued evs ms fresh shown missed =
      rw
        (shown, missed, enqueue_all-append (map presence_event evs) (map Event.message ms) accepted)
        (missed-Queued accepted ms _ _
          (snapshot-Queued accepted evs _ _ (added-Queued accepted s.server.hub fresh)))

  accepted-IsSound : IsSound accepted
  accepted-IsSound = record { bounded = omega arith; agree = refl; running = refl }

  -- Before its writer starts, a connection that is opened with an id that is not negative finds in its
  -- queue the snapshot of the contacts who are online and then the messages to its user since that id,
  -- in order and nothing else, when its number is new, both reads succeed and all of them fit.
  pub open_connection-fits :
      (evs : List PresenceEvent) (ms : List Message)
      → client cid s.server.hub ≡ none
      → snapshot_given ≡ some evs
      → missed_given ≡ ok ms
      → length (queue_given evs ms) ≤ send_queue_size
      → client cid (open_connection before accepted (pos since) s).server.hub
        ≡ some (record accepted { send = queue_given evs ms })
  open_connection-fits evs ms fresh shown missed room =
      (open_connection-Queued evs ms fresh shown missed).there
      ∙ ap some (enqueue_all-fits (queue_given evs ms) accepted accepted-IsSound refl (omega arith))

  -- When its number is new, both reads succeed and the snapshot and the messages since that id are more
  -- than the queue holds, the connection is closed as a slow consumer with a full queue before its
  -- writer starts.
  pub open_connection-overflows :
      (evs : List PresenceEvent) (ms : List Message)
      → client cid s.server.hub ≡ none
      → snapshot_given ≡ some evs
      → missed_given ≡ ok ms
      → send_queue_size < length (queue_given evs ms)
      → (x : WsClient) × (client cid (open_connection before accepted (pos since) s).server.hub
          ≡ some x)
        × (x.closed ≡ true)
        × (x.farewell ≡ some (1008, "slow consumer"))
        × (length x.send ≡ send_queue_size)
  open_connection-overflows evs ms fresh shown missed more =
      let (closed, farewell, full) =
        enqueue_all-overflows (queue_given evs ms) accepted accepted-IsSound refl (omega arith) in
      (_, (open_connection-Queued evs ms fresh shown missed).there, closed, farewell, full)
