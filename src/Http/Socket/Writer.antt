-- ===== src/Http/Socket/Writer.antt =====
-- `writePump` of internal/http/ws.go: what the peer of a connection is sent.
pub mod Order
use mathlib.Core.List.{append-nil, append_assoc}
use onyxchat.Base.{
  ℕ, String, Bool, true, false, ◌≡◌, refl, ap, sym, ◌∙◌, inl, inr, List, [], ◌∷◌, ◌++◌, arith, ltb,
  length, if◌then◌else◌, Bool-cases,
}
use onyxchat.Redis.{Redis}
use onyxchat.Hub.Client.{
  WsClient, Event, IsSound, close, close_with, enqueue_drop_slow, send_queue_size, enqueue-IsSound,
  close_with-IsSound, closed_stays,
}
use onyxchat.Http.Presence.{PresenceStore, refresh}

-- What happens next: another goroutine queues an event or closes the client; a case of the select,
-- with whether the connection took the event and the pings; and the end of the context, with how the
-- writes of the last flush go, the connection failing after them.
pub data Turn : Type 0 where
  queues : Event → Turn
  closes : ℕ → String → Turn
  takes : (written pinged : Bool) → Turn
  ticks : (pinged : Bool) → Turn
  context_ends : (writes : List Bool) → Turn

-- The client, what its peer was sent, oldest first, and the presence store.
pub record Writer (R : Redis) : Type 0 where
  pub client : WsClient
  pub sent : List Event
  pub presence : PresenceStore R

module _ {R : Redis} where
  -- An event is off the queue, and was sent or not.
  abbrev pub taken : Event → List Event → Bool → Writer R → Writer R
  taken ev rest written w = record w {
    client = record w.client { send = rest };
    sent = if written then w.sent ++ ev ∷ [] else w.sent;
  }

  -- The inner loop at the end of the context: it stops at a failed write and at an empty queue.
  unfoldable pub flush : (queue : List Event) → (writes : List Bool) → Writer R → Writer R
  flush [] writes w = w
  flush (ev ∷ rest) [] w = taken ev rest false w
  flush (ev ∷ rest) (written ∷ writes) w =
      let next = flush rest writes (taken ev rest written w) in
      if written then next else taken ev rest false w

  -- One event of the queue, where there is one, and the loop after it: it ends at a closed channel, a
  -- failed write or a failed ping, and waits at an empty queue.
  abbrev pub take_turn :
      (queue : List Event) → (written pinged : Bool) → (Writer R → Writer R) → Writer R → Writer R
  take_turn [] written pinged continue w = if w.client.send_closed then w else continue w
  take_turn (ev ∷ rest) written pinged continue w =
      if written
      then (if pinged then continue (taken ev rest true w) else taken ev rest true w)
      else taken ev rest false w

  unfoldable pub write_loop : List Turn → Writer R → Writer R
  unfolding flush refresh enqueue_drop_slow close_with
  write_loop [] w = w
  write_loop (queues ev ∷ ts) w =
      write_loop ts (record w { client = enqueue_drop_slow ev w.client })
  write_loop (closes code reason ∷ ts) w =
      write_loop ts (record w { client = close_with code reason w.client })
  write_loop (takes written pinged ∷ ts) w =
      take_turn w.client.send written pinged (λ v. write_loop ts v) w
  write_loop (ticks pinged ∷ ts) w =
      let next = write_loop ts (record w { presence = (refresh w.client.user_id w.presence).1 }) in
      if pinged then next else w
  write_loop (context_ends writes ∷ ts) w = flush w.client.send writes w

  unfoldable pub write_pump : List Turn → Writer R → Writer R
  unfolding write_loop close
  write_pump ts w = let v = write_loop ts w in record v { client = close v.client }
