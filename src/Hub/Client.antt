-- ===== src/Hub/Client.antt =====
-- `wsClient` and `enqueueDropSlow` of internal/http/ws.go: a client's bounded queue and its end.
use mathlib.Core.List.{append-nil, append_assoc}
use onyxchat.Base.{
  sym, ◌∙◌, ltb_iff, ℕ, ◌+◌, ◌≤◌, ◌<◌, String, Bool, true, false, ◌≡◌, refl, ap, Option, some, List,
  [], ◌∷◌, ◌++◌, arith, length, length-append, ltb, if◌then◌else◌, Bool-cases, inl, inr,
}
use onyxchat.Store.Messages.{Message}

pub data Event : Type 0 where
  message : Message → Event
  typing : String → String → Bool → Event
  message_deleted : ℕ → Event
  key_changed : String → Event
  message_read : ℕ → List ℕ → Event
  presence : ℕ → String → Bool → Bool → Event

abbrev pub send_queue_size : ℕ
send_queue_size = 64

-- `send` is the channel's buffer, oldest first, and `send_closed` whether the channel is closed;
-- `farewell` is the code and the reason that the peer is sent. A send on a closed channel panics.
pub record WsClient : Type 0 where
  pub cid : ℕ
  pub user_id : ℕ
  pub username : String
  pub send : List Event
  pub send_closed : Bool
  pub closed : Bool
  pub farewell : Option (ℕ × String)
  pub panicked : Bool

-- The first call wins: `closed` is swapped once.
unfoldable pub close_with : ℕ → String → WsClient → WsClient
close_with code reason c =
    if c.closed
    then c
    else record c { closed = true; send_closed = true; farewell = some (code, reason) }

-- 1000 is CloseNormalClosure.
unfoldable pub close : WsClient → WsClient
unfolding close_with
close = close_with 1000 ""

-- `select { case c.send <- msg: default: … }`
unfoldable pub select_send : Event → WsClient → WsClient
unfolding close_with
select_send ev c =
    if c.send_closed
    then record c { panicked = true }
    else if ltb (length c.send) send_queue_size
    then record c { send = c.send ++ ev ∷ [] }
    else close_with 1008 "slow consumer" c

-- The test of `closed`, then the send.
unfoldable pub enqueue_drop_slow : Event → WsClient → WsClient
unfolding select_send
enqueue_drop_slow ev c = if c.closed then c else select_send ev c

-- The queue is within its bound, and a channel is closed only with its client.
pub record IsSound (c : WsClient) : Type 0 where
  pub bounded : length c.send ≤ send_queue_size
  pub agree : c.send_closed ≡ c.closed
  pub running : c.panicked ≡ false

pub close_with-IsSound :
    (code : ℕ) (reason : String) (c : WsClient) → IsSound c → IsSound (close_with code reason c)
unfolding close_with
close_with-IsSound code reason c v = ground arith

pub enqueue-IsSound : (ev : Event) (c : WsClient) → IsSound c → IsSound (enqueue_drop_slow ev c)
unfolding enqueue_drop_slow
enqueue-IsSound ev c v = ground (arith, length-append c.send (ev ∷ []))

-- A client that is closed stays as it is, whatever is sent to it and with whatever code and reason
-- it is closed again.
pub closed_stays :
    (ev : Event) (code : ℕ) (reason : String) (c : WsClient)
    → c.closed ≡ true
    → (enqueue_drop_slow ev c ≡ c) × (close_with code reason c ≡ c)
unfolding enqueue_drop_slow close_with
closed_stays ev code reason c h = (rw h, rw h)

-- Events that are sent one after the other while nothing takes them off the queue.
unfoldable pub enqueue_all : List Event → WsClient → WsClient
enqueue_all [] c = c
enqueue_all (ev ∷ evs) c = enqueue_all evs (enqueue_drop_slow ev c)

enqueue_all-closed : (evs : List Event) (c : WsClient) → c.closed ≡ true → enqueue_all evs c ≡ c
unfolding enqueue_all
enqueue_all-closed [] c h = refl
enqueue_all-closed (ev ∷ evs) c h = rw (closed_stays ev 1000 "" c h).0 (enqueue_all-closed evs c h)

pub enqueue_room :
    (ev : Event) (c : WsClient)
    → IsSound c
    → c.closed ≡ false
    → length c.send < send_queue_size
    → enqueue_drop_slow ev c ≡ record c { send = c.send ++ ev ∷ [] }
unfolding enqueue_drop_slow
enqueue_room ev c v o h = ground arith

pub enqueue_full :
    (ev : Event) (c : WsClient)
    → IsSound c
    → c.closed ≡ false
    → send_queue_size ≤ length c.send
    → enqueue_drop_slow ev c
      ≡ record c { closed = true; send_closed = true; farewell = some (1008, "slow consumer") }
unfolding enqueue_drop_slow
enqueue_full ev c v o h = ground arith

pub room-IsSound :
    (ev : Event) (c : WsClient)
    → IsSound c
    → length c.send < send_queue_size
    → IsSound (record c { send = c.send ++ ev ∷ [] })
room-IsSound ev c v h = record {
  bounded = omega (arith, length-append c.send (ev ∷ []));
  agree = v.agree;
  running = v.running;
}

-- Events that are sent one after the other to a sound, open client with room for all of them stand
-- in its queue in order behind what was there, and nothing else of the client changes.
pub enqueue_all-fits :
    (evs : List Event) (c : WsClient)
    → IsSound c
    → c.closed ≡ false
    → length c.send + length evs ≤ send_queue_size
    → enqueue_all evs c ≡ record c { send = c.send ++ evs }
unfolding enqueue_all
enqueue_all-fits [] c v o h = ap (λ q. record c { send = q }) (sym (append-nil c.send))
enqueue_all-fits (ev ∷ evs) c v o h = rw (enqueue_room ev c v o (omega arith)) (
    enqueue_all-fits evs (record c { send = c.send ++ ev ∷ [] }) (room-IsSound ev c v (omega arith))
      o (omega (arith, length-append c.send (ev ∷ [])))
    ∙ ap (λ q. record c { send = q }) (append_assoc c.send (ev ∷ []) evs))

-- A sound, open client that is sent more events than it has room for, while nothing takes any off
-- its queue, is closed as a slow consumer with a full queue.
pub enqueue_all-overflows :
    (evs : List Event) (c : WsClient)
    → IsSound c
    → c.closed ≡ false
    → send_queue_size < length c.send + length evs
    → ((enqueue_all evs c).closed ≡ true)
      × ((enqueue_all evs c).farewell ≡ some (1008, "slow consumer"))
      × (length (enqueue_all evs c).send ≡ send_queue_size)
unfolding enqueue_all
enqueue_all-overflows [] c v o h = absurd (omega (arith, v.bounded))
enqueue_all-overflows (ev ∷ evs) c v o h = elim (Bool-cases (ltb (length c.send) send_queue_size)) [
  | inl room ↦
      let fits = (ltb_iff _ _).0 room in
      rw (enqueue_room ev c v o fits, enqueue_all)
        (enqueue_all-overflows evs (record c { send = c.send ++ ev ∷ [] })
          (room-IsSound ev c v fits) o (omega (arith, length-append c.send (ev ∷ []))))
  | inr full ↦
      rw (enqueue_full ev c v o (ground arith), enqueue_all)
        (rw
          (enqueue_all-closed evs
            (record c {
              closed = true;
              send_closed = true;
              farewell = some (1008, "slow consumer");
            })
            refl)
          (refl, refl, ground (arith, v.bounded)))
]

-- For a sound, open client the test of `closed` and the send, run together, do not panic; where
-- another goroutine closes the client between the two, with whatever code and reason, the send
-- panics.
pub enqueue_race :
    (ev : Event) (code : ℕ) (reason : String) (c : WsClient)
    → IsSound c
    → c.closed ≡ false
    → ((enqueue_drop_slow ev c).panicked ≡ false)
      × ((select_send ev (close_with code reason c)).panicked ≡ true)
unfolding select_send
enqueue_race ev code reason c v o = ((enqueue-IsSound ev c v).running, ground arith)
