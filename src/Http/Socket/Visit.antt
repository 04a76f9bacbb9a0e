-- ===== src/Http/Socket/Visit.antt =====
-- A connection of internal/http/ws.go from its opening to its end, with the counters of presence.go.
use onyxchat.Base.{
  ℕ, suc, ◌-◌, String, Bool, true, false, ◌≡◌, ap, sym, ◌∙◌, Option, some, List, [], ◌∷◌, arith, ℤ,
  pos, coalesce,
}
use onyxchat.Redis.{Redis, IsLawful}
use onyxchat.Store.Contacts.{list_contacts}
use onyxchat.Hub.Client.{WsClient}
use onyxchat.Hub.Membership.{registered}
use onyxchat.Hub.Delivery.{client}
use onyxchat.Http.Presence.{PresenceStore, names_key, conns_key, connect, get_snapshot}
use onyxchat.Http.Presence.Counts.{
  Counts, connects, disconnects, count, set_count, IsCounted, IsAnswered, call-IsStep,
}
use onyxchat.Http.Socket.{Round, Live, contact_ids, open_connection, read_pump}
use onyxchat.Http.Socket.Pump.{read_pump_ends}

count_back :
    (f : Counts) (uid j : ℕ)
    → set_count uid (set_count uid (suc (f uid)) f uid - 1) (set_count uid (suc (f uid)) f) j ≡ f j
count_back f uid j = ground (arith, same)
  where
    same : j ≡ uid → f uid ≡ f j
    same e = ap f (sym e)

module _ (R : Redis) (lawful : IsLawful R) where
  snapshot-IsCounted :
      (f : Counts) (contacts : List ℕ) (p : PresenceStore R)
      → IsCounted R lawful f p.redis
      → IsCounted R lawful f (get_snapshot contacts p).1.redis
  unfolding get_snapshot
  snapshot-IsCounted f [] p h j small = h j small
  snapshot-IsCounted f (c ∷ cs) p h j small =
      ap (λ (v : Option ℤ). coalesce v (pos 0)) (lawful.hgetall-int names_key (conns_key j) p.redis)
      ∙ h j small

  module _ {L : Type 0} (before : String → String → Bool) (fresh : L) (c : WsClient) (since : ℤ)
      (rounds : List Round) (s : Live R L) where
    abbrev pub opened : Live R L
    opened = open_connection before c since s

    abbrev pub visited : Live R L
    visited = read_pump fresh c rounds opened

    opened-IsCounted :
        (f : Counts)
        → IsCounted R lawful f s.presence.redis
        → IsAnswered R lawful (connects c.user_id c.username) s.presence.redis
        → IsCounted R lawful (count (connects c.user_id c.username) f) opened.presence.redis
    unfolding open_connection
    opened-IsCounted f h a =
        snapshot-IsCounted _ (contact_ids (list_contacts before c.user_id s.server.session).0)
          (connect c.user_id c.username s.presence).1
          (call-IsStep R lawful (connects c.user_id c.username) f s.presence h a).0

    -- A connection that was opened and whose reading ended, whatever arrived on it, leaves nothing
    -- behind: its client is out of the hub's register and closed, and the counters in Redis agree with
    -- the same count of open connections as before, for a user whose id fits an int64, when Redis answers
    -- the increment at the opening and the decrement and deletion at the end.
    pub visited-IsCounted :
        (f : Counts)
        → IsCounted R lawful f s.presence.redis
        → IsAnswered R lawful (connects c.user_id c.username) s.presence.redis
        → IsAnswered R lawful (disconnects c.user_id c.username) opened.presence.redis
        → (registered c.user_id c.cid visited.server.hub ≡ false)
          × ((w : WsClient) → client c.cid visited.server.hub ≡ some w → w.closed ≡ true)
          × IsCounted R lawful f visited.presence.redis
    visited-IsCounted f h a b =
        let (gone, closed, told) = read_pump_ends c fresh rounds opened in
        let (counts, _) =
          call-IsStep R lawful (disconnects c.user_id c.username)
            (count (connects c.user_id c.username) f) opened.presence (opened-IsCounted f h a) b in
        (
          gone,
          closed,
          λ j small.
              ap (λ (p : PresenceStore R). coalesce (lawful.int_at (conns_key j) p.redis) (pos 0))
                told
              ∙ counts j small
              ∙ ap pos (count_back f c.user_id j),
        )
