-- ===== src/Http/Socket/Pump.antt =====
-- `readPump` of internal/http/ws.go: whom a typing message reaches, and what is left of the connection
-- at the end.
use mathlib.Core.Option
use onyxchat.Base.{
  ℕ, String, Bool, true, false, ◌≡◌, ◌≢◌, refl, ap, sym, ◌∙◌, inl, inr, Option, none, some, List,
  [], ◌∷◌, arith, Bool-cases,
}
use onyxchat.Sql.{exists_row}
use onyxchat.Redis.{Redis}
use onyxchat.Store.Session.{Session, Result, ok, err}
use onyxchat.Store.Users.{User, get_user_by_username}
use onyxchat.Store.Users.Lookup.{get_user_by_username-IsRead}
use onyxchat.Store.Contacts.{same_pair, is_contact}
use onyxchat.Hub.{Hub, limiter_for, remove_client, for_each, send_typing_to_user}
use onyxchat.Hub.Client.{WsClient, Event, close, close_with}
use onyxchat.Hub.Membership.{mem_other, mem_self, registered, registered-remove_client}
use onyxchat.Hub.Delivery.{client, for_each-client, send_to_user-client, close_with-cid}
use onyxchat.Http.{Server}
use onyxchat.Http.Presence.{disconnect}
use onyxchat.Http.Socket.{
  Incoming, typing, read_error, ignored, Round, is_read_error, after_is_contact, after_lookup,
  forward_typing, on_client, receive, read_loop, Live, read_pump,
}

Option-map_same {ℓ} : {A : Type ℓ} (x : Option A) → Option.map (λ a. a) x ≡ x
Option-map_same none = refl
Option-map_same (some a) = refl

is_contact-true :
    (uid peer : ℕ) (s : Session)
    → (is_contact uid peer s).0 ≡ ok true
    → exists_row (same_pair uid peer) s.db.contacts ≡ true
unfolding is_contact
is_contact-true uid peer s h = ground arith

is_contact-db : (uid peer : ℕ) (s : Session) → (is_contact uid peer s).1.db ≡ s.db
unfolding is_contact
is_contact-db uid peer s = ground arith

close-closed : (o : Option WsClient) (w : WsClient) → Option.map close o ≡ some w → w.closed ≡ true
unfolding close
close-closed none w e = ground (arith, e)
close-closed (some c) w e = ground (arith, e)

module _ {L : Type 0} (c : WsClient) where
  -- The client `k` belongs to nobody on the contact list of c's user.
  abbrev pub Stranger : ℕ → Server L → Type 0
  Stranger k v =
      (uid : ℕ)
      → registered uid k v.hub ≡ true
      → exists_row (same_pair c.user_id uid) v.session.db.contacts ≡ false

  -- What a round leaves: the register, the tables, and the client `k`.
  pub record Leaves (k : ℕ) (v w : Server L) : Type 0 where
    pub db : w.session.db ≡ v.session.db
    pub by_user : w.hub.by_user ≡ v.hub.by_user
    pub client : client k w.hub ≡ client k v.hub

  sent-Leaves :
      (k : ℕ) (to : User) (is_typing : Bool) (v : Server L)
      → registered to.id k v.hub ≡ false
      → Leaves k v
          (record v { hub = send_typing_to_user c.username to.id to.username is_typing v.hub })
  unfolding send_typing_to_user
  sent-Leaves k to is_typing v apart =
      let (sent, same) =
        send_to_user-client to.id (Event.typing c.username to.username is_typing) k v.hub in
      record {
        db = refl;
        by_user = same;
        client = sent ∙ rw apart (Option-map_same (client k v.hub));
      }

  same_Leaves :
      (k : ℕ) (v w : Server L) → w.session.db ≡ v.session.db → w.hub ≡ v.hub → Leaves k v w
  same_Leaves k v w d h = record {
    db = d;
    by_user = ap (λ (x : Hub L). x.by_user) h;
    client = ap (client k) h;
  }

  Leaves-trans : (k : ℕ) (u v w : Server L) → Leaves k u v → Leaves k v w → Leaves k u w
  Leaves-trans k u v w p q = record {
    db = q.db ∙ p.db;
    by_user = q.by_user ∙ p.by_user;
    client = q.client ∙ p.client;
  }

  Leaves-Stranger : (k : ℕ) (v w : Server L) → Leaves k v w → Stranger k v → Stranger k w
  Leaves-Stranger k v w p stranger uid mine = rw p.db (stranger uid (rw p.by_user at mine))

  answered-Leaves :
      (k : ℕ) (to : User) (is_typing : Bool) (v : Server L) (s : Session) (x : Result Bool)
      → s.db ≡ v.session.db
      → (x ≡ ok true → registered to.id k v.hub ≡ false)
      → Leaves k v (after_is_contact c to is_typing x (record v { session = s }))
  answered-Leaves k to is_typing v s (err e) d apart = same_Leaves k v _ d refl
  answered-Leaves k to is_typing v s (ok false) d apart = same_Leaves k v _ d refl
  answered-Leaves k to is_typing v s (ok true) d apart =
      Leaves-trans k v (record v { session = s }) _ (same_Leaves k v _ d refl)
        (sent-Leaves k to is_typing (record v { session = s }) (apart refl))

  lookup-Leaves :
      (k : ℕ) (is_typing : Bool) (v : Server L) (x : Result User)
      → Stranger k v
      → Leaves k v (after_lookup c is_typing x v)
  lookup-Leaves k is_typing v (err e) stranger = same_Leaves k v v refl refl
  lookup-Leaves k is_typing v (ok to) stranger =
      answered-Leaves k to is_typing v _ _ (is_contact-db c.user_id to.id v.session) λ known.
        not_mine (registered to.id k v.hub) refl (is_contact-true c.user_id to.id v.session known)
    where
      not_mine :
          (b : Bool)
          → registered to.id k v.hub ≡ b
          → exists_row (same_pair c.user_id to.id) v.session.db.contacts ≡ true
          → b ≡ false
      not_mine false e t = refl
      not_mine true e t = sym t ∙ stranger to.id e

  receive-Leaves : (k : ℕ) (m : Incoming) (v : Server L) → Stranger k v → Leaves k v (receive c m v)
  unfolding forward_typing
  receive-Leaves k read_error v stranger = same_Leaves k v v refl refl
  receive-Leaves k ignored v stranger = same_Leaves k v v refl refl
  receive-Leaves k (typing to is_typing) v stranger =
      let s = (get_user_by_username to v.session).1 in
      let read =
        same_Leaves k v (record v { session = s }) (get_user_by_username-IsRead to v.session).db
          refl in
      Leaves-trans k v (record v { session = s }) _ read
        (lookup-Leaves k is_typing (record v { session = s }) _
          (Leaves-Stranger k v _ read stranger))

  closed-Leaves :
      (k code : ℕ) (reason : String) (v : Server L)
      → k ≢ c.cid
      → Leaves k v (on_client c (close_with code reason) v)
  closed-Leaves k code reason v other = record {
    db = refl;
    by_user = unfold for_each in refl;
    client =
        for_each-client (c.cid ∷ []) (close_with code reason) k v.hub (close_with-cid code reason)
        ∙ rw (mem_other k c.cid other) (Option-map_same (client k v.hub));
  }

  -- Whatever arrives on a connection, what readPump's loop does about it reaches no client of a user
  -- who is not on the sender's contact list: each client other than its own, all of whose users are
  -- not, has the same queue and state afterwards. The register of the clients and the tables stay as
  -- they are.
  pub read_loop-Leaves :
      (k : ℕ) (rounds : List Round) (v : Server L)
      → k ≢ c.cid
      → Stranger k v
      → Leaves k v (read_loop c rounds v)
  unfolding read_loop
  read_loop-Leaves k [] v other stranger = same_Leaves k v v refl refl
  read_loop-Leaves k (r ∷ rs) v other stranger = elim (Bool-cases r.done) [
    | inl done ↦ rw done (same_Leaves k v v refl refl)
    | inr on ↦ elim (Bool-cases r.allowed) [
      | inr limited ↦ rw (on, limited) (closed-Leaves k 1008 "rate limit" v other)
      | inl allowed ↦ elim (Bool-cases (is_read_error r.incoming)) [
        | inl broken ↦ rw (on, allowed, broken) (same_Leaves k v v refl refl)
        | inr fine ↦
            rw (on, allowed, fine)
              (let step = receive-Leaves k r.incoming v stranger in
                Leaves-trans k v _ _ step
                  (read_loop-Leaves k rs _ other (Leaves-Stranger k v _ step stranger)))
      ]
    ]
  ]

  -- However the reading ends, the client is then out of the hub's register and closed, and the
  -- presence store was told once.
  pub read_pump_ends :
      {R : Redis} (fresh : L) (rounds : List Round) (s : Live R L)
      → (registered c.user_id c.cid (read_pump fresh c rounds s).server.hub ≡ false)
        × ((w : WsClient)
            → client c.cid (read_pump fresh c rounds s).server.hub ≡ some w
            → w.closed ≡ true)
        × ((read_pump fresh c rounds s).presence ≡ (disconnect c.user_id c.username s.presence).1)
  unfolding read_pump for_each close
  read_pump_ends fresh rounds s =
      let v =
        read_loop c rounds
          (record s.server { hub = (limiter_for fresh c.user_id s.server.hub).1 }) in
      (
        out_of_register (remove_client c v.hub)
            (registered-remove_client c v.hub c.user_id c.cid ∙ ground arith),
        λ w e. closed_after (remove_client c v.hub) w e,
        refl,
      )
    where
      out_of_register :
          (h : Hub L)
          → registered c.user_id c.cid h ≡ false
          → registered c.user_id c.cid (for_each (c.cid ∷ []) close h) ≡ false
      out_of_register h e = e

      close-cid : (x : WsClient) → (close x).cid ≡ x.cid
      close-cid x = close_with-cid 1000 "" x

      closed_after :
          (h : Hub L) (w : WsClient)
          → client c.cid (for_each (c.cid ∷ []) close h) ≡ some w
          → w.closed ≡ true
      closed_after h w e = close-closed (client c.cid h) w (
          sym (for_each-client (c.cid ∷ []) close c.cid h close-cid ∙ rw (mem_self c.cid) refl) ∙ e)
