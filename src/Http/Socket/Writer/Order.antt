-- ===== src/Http/Socket/Writer/Order.antt =====
-- What `writePump` of internal/http/ws.go sends is what was queued, in order.
use mathlib.Core.Path.{subst}
use mathlib.Core.List.{append-nil, append_assoc}
use onyxchat.Base.{
  zero, suc, ◌≤◌, take, ℕ, String, Bool, true, false, ◌≡◌, refl, ap, sym, ◌∙◌, inl, inr, List, [],
  ◌∷◌, ◌++◌, arith, ltb, ltb_iff, length, if◌then◌else◌, Bool-cases,
}
use onyxchat.Redis.{Redis}
use onyxchat.Hub.Client.{
  WsClient, Event, IsSound, close_with, enqueue_drop_slow, send_queue_size, enqueue_room,
  enqueue_full, room-IsSound, closed_stays,
}
use onyxchat.Http.Socket.Writer.{
  Turn, queues, closes, takes, ticks, context_ends, Writer, taken, flush, take_turn, write_loop,
  write_pump,
}

-- What was queued meanwhile, whether there was room or not.
abbrev pub queued : List Turn → List Event
queued [] = []
queued (queues ev ∷ ts) = ev ∷ queued ts
queued (t ∷ ts) = queued ts

-- The first list starts the second.
abbrev pub Starts : (xs ys : List Event) → Type 0
Starts xs ys = (rest : List Event) × (xs ++ rest ≡ ys)

rest-IsSound :
    (c : WsClient) (ev : Event) (rest : List Event)
    → IsSound c
    → c.send ≡ ev ∷ rest
    → IsSound (record c { send = rest })
rest-IsSound c ev rest v e = record {
  bounded = omega (arith, v.bounded, ap length e);
  agree = v.agree;
  running = v.running;
}

close_with-closed :
    (code : ℕ) (reason : String) (c : WsClient) → (close_with code reason c).closed ≡ true
unfolding close_with
close_with-closed code reason c = ground arith

close_with-send :
    (code : ℕ) (reason : String) (c : WsClient) → (close_with code reason c).send ≡ c.send
unfolding close_with
close_with-send code reason c = elim (Bool-cases c.closed) [ inl e ↦ rw e refl | inr e ↦ rw e refl ]

-- Turns in which every write and ping succeeds.
abbrev pub takes_all : ℕ → List Turn
takes_all zero = []
takes_all (suc n) = takes true true ∷ takes_all n

module _ {R : Redis} where
  -- What is sent of a queue in one turn, with what may follow it.
  take-Starts :
      (queue more : List Event) (written pinged : Bool) (continue : Writer R → Writer R)
      (w : Writer R)
      → (queue ≡ [] → Starts (continue w).sent (w.sent ++ more))
      → ((ev : Event) (rest : List Event)
          → queue ≡ ev ∷ rest
          → Starts (continue (taken ev rest true w)).sent ((w.sent ++ ev ∷ []) ++ (rest ++ more)))
      → Starts (take_turn queue written pinged continue w).sent (w.sent ++ (queue ++ more))
  take-Starts [] more written pinged continue w waits goes_on =
      elim w.client.send_closed
        as (λ b. Starts (if b then w else continue w).sent (w.sent ++ more)) [
          | true ↦ (more, refl)
          | false ↦ waits refl
        ]
  take-Starts (ev ∷ rest) more false pinged continue w waits goes_on = (ev ∷ rest ++ more, refl)
  take-Starts (ev ∷ rest) more true false continue w waits goes_on =
      (rest ++ more, append_assoc w.sent (ev ∷ []) (rest ++ more))
  take-Starts (ev ∷ rest) more true true continue w waits goes_on =
      let (lost, e) = goes_on ev rest refl in
      (lost, e ∙ append_assoc w.sent (ev ∷ []) (rest ++ more))

  flush-Starts :
      (queue more : List Event) (writes : List Bool) (w : Writer R)
      → Starts (flush queue writes w).sent (w.sent ++ (queue ++ more))
  unfolding flush
  flush-Starts [] more writes w = (more, refl)
  flush-Starts (ev ∷ rest) more [] w = (ev ∷ rest ++ more, refl)
  flush-Starts (ev ∷ rest) more (false ∷ writes) w = (ev ∷ rest ++ more, refl)
  flush-Starts (ev ∷ rest) more (true ∷ writes) w =
      let (lost, e) = flush-Starts rest more writes (taken ev rest true w) in
      (lost, e ∙ append_assoc w.sent (ev ∷ []) (rest ++ more))

  -- Once the client is closed, nothing that is queued is sent.
  closed-Starts :
      (ts : List Turn) (more : List Event) (w : Writer R)
      → w.client.closed ≡ true
      → Starts (write_loop ts w).sent (w.sent ++ (w.client.send ++ more))
  unfolding write_loop
  closed-Starts [] more w closed = (w.client.send ++ more, refl)
  closed-Starts (queues ev ∷ ts) more w closed =
      subst
        (λ x.
          Starts (write_loop ts (record w { client = x })).sent (w.sent ++ (w.client.send ++ more)))
        (sym (closed_stays ev 1000 "" w.client closed).0) (closed-Starts ts more w closed)
  closed-Starts (closes code reason ∷ ts) more w closed =
      subst
        (λ x.
          Starts (write_loop ts (record w { client = x })).sent (w.sent ++ (w.client.send ++ more)))
        (sym (closed_stays (Event.message_deleted 0) code reason w.client closed).1)
        (closed-Starts ts more w closed)
  closed-Starts (takes written pinged ∷ ts) more w closed =
      take-Starts w.client.send more written pinged (λ v. write_loop ts v) w
        (λ e.
          subst (λ q. Starts (write_loop ts w).sent (w.sent ++ (q ++ more))) e
            (closed-Starts ts more w closed))
        (λ ev rest e. closed-Starts ts more (taken ev rest true w) closed)
  closed-Starts (ticks true ∷ ts) more w closed = closed-Starts ts more _ closed
  closed-Starts (ticks false ∷ ts) more w closed = (w.client.send ++ more, refl)
  closed-Starts (context_ends writes ∷ ts) more w closed = flush-Starts w.client.send more writes w

  closes-Starts :
      (ts : List Turn) (more : List Event) (code : ℕ) (reason : String) (w : Writer R)
      → Starts
          (write_loop ts (record w { client = close_with code reason w.client })).sent
          (w.sent ++ (w.client.send ++ more))
  closes-Starts ts more code reason w =
      subst
        (λ q.
          Starts (write_loop ts (record w { client = close_with code reason w.client })).sent
            (w.sent ++ (q ++ more)))
        (close_with-send code reason w.client)
        (closed-Starts ts more (record w { client = close_with code reason w.client })
          (close_with-closed code reason w.client))

  queues-Starts :
      (ts : List Turn) (ev : Event) (w : Writer R)
      → IsSound w.client
      → ((v : Writer R)
          → IsSound v.client
          → Starts (write_loop ts v).sent (v.sent ++ (v.client.send ++ queued ts)))
      → Starts
          (write_loop ts (record w { client = enqueue_drop_slow ev w.client })).sent
          (w.sent ++ (w.client.send ++ ev ∷ queued ts))
  queues-Starts ts ev w v later = elim (Bool-cases w.client.closed) [
    | inl closed ↦
        subst
          (λ x.
            Starts (write_loop ts (record w { client = x })).sent
              (w.sent ++ (w.client.send ++ ev ∷ queued ts)))
          (sym (closed_stays ev 1000 "" w.client closed).0)
          (closed-Starts ts (ev ∷ queued ts) w closed)
    | inr alive ↦ elim (Bool-cases (ltb (length w.client.send) send_queue_size)) [
      | inl room ↦
          subst
            (λ x.
              Starts (write_loop ts (record w { client = x })).sent
                (w.sent ++ (w.client.send ++ ev ∷ queued ts)))
            (sym (enqueue_room ev w.client v alive ((ltb_iff _ _).0 room)))
            (subst
              (λ q.
                Starts
                  (write_loop ts (record w {
                    client = record w.client { send = w.client.send ++ ev ∷ [] };
                  })).sent
                  (w.sent ++ q))
              (append_assoc w.client.send (ev ∷ []) (queued ts))
              (later _ (room-IsSound ev w.client v ((ltb_iff _ _).0 room))))
      | inr full ↦
          subst
            (λ x.
              Starts (write_loop ts (record w { client = x })).sent
                (w.sent ++ (w.client.send ++ ev ∷ queued ts)))
            (sym (enqueue_full ev w.client v alive (ground arith)))
            (closed-Starts ts (ev ∷ queued ts) _ refl)
    ]
  ]

  all-Starts :
      (ts : List Turn) (w : Writer R)
      → IsSound w.client
      → Starts (write_pump ts w).sent (w.sent ++ (w.client.send ++ queued ts))
  unfolding write_pump write_loop
  all-Starts [] w v = (w.client.send ++ [], refl)
  all-Starts (queues ev ∷ ts) w v = queues-Starts ts ev w v (all-Starts ts)
  all-Starts (closes code reason ∷ ts) w v = closes-Starts ts (queued ts) code reason w
  all-Starts (takes written pinged ∷ ts) w v =
      take-Starts w.client.send (queued ts) written pinged (λ x. write_loop ts x) w
        (λ e.
          subst (λ q. Starts (write_loop ts w).sent (w.sent ++ (q ++ queued ts))) e
            (all-Starts ts w v))
        (λ ev rest e. all-Starts ts (taken ev rest true w) (rest-IsSound w.client ev rest v e))
  all-Starts (ticks true ∷ ts) w v = all-Starts ts _ v
  all-Starts (ticks false ∷ ts) w v = (w.client.send ++ queued ts, refl)
  all-Starts (context_ends writes ∷ ts) w v = flush-Starts w.client.send (queued ts) writes w

  takes_all-sent :
      (n : ℕ) (queue : List Event) (w : Writer R)
      → w.client.send ≡ queue
      → n ≤ length queue
      → (write_loop (takes_all n) w).sent ≡ w.sent ++ take n queue
  unfolding write_loop
  takes_all-sent zero queue w e h = sym (append-nil w.sent)
  takes_all-sent (suc n) [] w e h = absurd (omega (arith, h))
  takes_all-sent (suc n) (ev ∷ rest) w e h =
      subst
        (λ q.
          (take_turn q true true (λ v. write_loop (takes_all n) v) w).sent
          ≡ w.sent ++ (ev ∷ take n rest))
        (sym e)
        (takes_all-sent n rest (taken ev rest true w) refl (omega (arith, h))
          ∙ append_assoc w.sent (ev ∷ []) (take n rest))

  -- A sound client's peer is sent what stood in its queue and then what was queued meanwhile: in order,
  -- each event once and none left out up to some point, and nothing after it. In as many turns as its
  -- queue has events or fewer, each a receive whose write and ping succeed, it is sent as many of them.
  pub write_pump-Starts :
      (w : Writer R)
      → IsSound w.client
      → ((ts : List Turn) → Starts (write_pump ts w).sent (w.sent ++ (w.client.send ++ queued ts)))
        × ((n : ℕ)
            → n ≤ length w.client.send
            → (write_pump (takes_all n) w).sent ≡ w.sent ++ take n w.client.send)
  unfolding write_pump
  write_pump-Starts w v = (λ ts. all-Starts ts w v, λ n h. takes_all-sent n w.client.send w refl h)
