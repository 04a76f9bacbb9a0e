-- ===== src/Http/Tickets/Admission.antt =====
-- What internal/http/ws_ticket.go and ws_auth_middleware.go promise of a ticket: it admits the user
-- that it was made for, and admits once.
use onyxchat.Base.{
  ℕ, ◌<◌, ◌^◌, String, str_eq, Bool, false, ◌≡◌, ◌≢◌, refl, ap, ◌∙◌, inl, inr, Option, none, some,
  Bool-cases, pos,
}
use onyxchat.Text.{cut}
use onyxchat.Text.RoundTrip.{parse_int-print_nat}
use onyxchat.Text.Prints.{cut-print_nat}
use onyxchat.Redis.{Redis, IsLawful, Answer, found, missing, failed}
use onyxchat.Sql.{query_row}
use onyxchat.Store.Db.{UserRow}
use onyxchat.Store.Session.{count_call}
use onyxchat.Store.Users.{active_id}
use onyxchat.Http.{CurrentUser, Reply, json, Server}
use onyxchat.Http.Auth.{Token}
use onyxchat.Http.Gate.{Gate, GateHandler}
use onyxchat.Http.Tickets.{
  ticket_key, ticket_value, ws_ticket_handler, ticket_stored, ws_auth_middleware, of_parts,
  from_ticket,
}

-- What is read back from a ticket's value is the user.
of_parts-ticket_value :
    (u : CurrentUser)
    → u.id < 2 ^ 63
    → of_parts (cut 58 (ticket_value u)) ≡ some (pos u.id, u.username)
unfolding ticket_value
of_parts-ticket_value u small = rw (cut-print_nat, parse_int-print_nat u.id small) refl

module _ (R : Redis) (lawful : IsLawful R) where
  -- What a request for a ticket did: the ticket holds the user, or none was given.
  abbrev pub Tickets : {L : Type 0} → CurrentUser → Gate R L → Reply String × Gate R L → Type 0
  Tickets u g (json code ticket, h) =
      (lawful.text_at (ticket_key ticket) h.redis ≡ some (ticket_value u)) × (h.server ≡ g.server)
  Tickets u g (other, h) = h.server ≡ g.server

  module _ {L B : Type 0} (encode : B → String) (u : CurrentUser) (g : Gate R L) where
    stored-Tickets :
        (ticket : String) (a : Answer (Unit {0}))
        → (R.set_text (ticket_key ticket) (ticket_value u) 30 g.redis).0 ≡ a
        → Tickets u g (
            ticket_stored R encode ticket a
              (record g { redis = (R.set_text (ticket_key ticket) (ticket_value u) 30 g.redis).1 }))
    stored-Tickets ticket (found tt) h =
        (lawful.set_text-text (ticket_key ticket) (ticket_value u) 30 g.redis h, refl)
    stored-Tickets ticket missing h = refl
    stored-Tickets ticket failed h = refl

    pub ws_ticket-Tickets :
        (random : Option B) → Tickets u g (ws_ticket_handler R encode random (some u) g)
    unfolding ws_ticket_handler
    ws_ticket-Tickets none = refl
    ws_ticket-Tickets (some b) = stored-Tickets (encode b) _ refl

  module _ {L A : Type 0} (next : CurrentUser → GateHandler R L A)
      (parse_with_claims : (Bool → Option String) → String → Option Token)
      (equal_fold : String → String → Bool) (secret : String) (u : CurrentUser)
      (ticket header : String) (g : Gate R L) where
    taken :
        lawful.text_at (ticket_key ticket) g.redis ≡ some (ticket_value u)
        → ((R.get_del (ticket_key ticket) g.redis).0 ≡ failed → ⊥)
        → (R.get_del (ticket_key ticket) g.redis).0 ≡ found (ticket_value u)
    taken held up = elim (lawful.get_del-answer (ticket_key ticket) g.redis) [
      | inl down ↦ absurd (up down)
      | inr (a, _) ↦ a ∙ rw held refl
    ]

    pub ws_auth-ticket :
        (r : UserRow)
        → u.id < 2 ^ 63
        → str_eq ticket "" ≡ false
        → lawful.text_at (ticket_key ticket) g.redis ≡ some (ticket_value u)
        → ((R.get_del (ticket_key ticket) g.redis).0 ≡ failed → ⊥)
        → query_row (active_id u.id) g.server.session.db.users ≡ some r
        → g.server.session.fails g.server.session.calls ≡ false
        → ws_auth_middleware next parse_with_claims equal_fold secret ticket header g
          ≡ next u (record g {
            redis = (R.get_del (ticket_key ticket) g.redis).1;
            server = record g.server { session = count_call g.server.session };
          })
    unfolding ws_auth_middleware
    ws_auth-ticket r small there held up row fine =
        rw (there, taken held up, of_parts-ticket_value u small, fine, row) refl

  -- A ticket that a request for one was answered admits the user of that request: WebSocket
  -- authentication right after it goes on to the handler as that user, whatever the header, when the
  -- id fits an int64, the ticket is not empty, the account is not deleted and neither Redis nor the
  -- driver fails.
  pub ws_auth-ws_ticket :
      {L A B : Type 0} (encode : B → String) (random : Option B)
      (next : CurrentUser → GateHandler R L A)
      (parse_with_claims : (Bool → Option String) → String → Option Token)
      (equal_fold : String → String → Bool) (secret : String) (u : CurrentUser)
      (header ticket : String) (code : ℕ) (g h : Gate R L) (r : UserRow)
      → ws_ticket_handler R encode random (some u) g ≡ (json code ticket, h)
      → u.id < 2 ^ 63
      → str_eq ticket "" ≡ false
      → query_row (active_id u.id) g.server.session.db.users ≡ some r
      → g.server.session.fails g.server.session.calls ≡ false
      → ((R.get_del (ticket_key ticket) h.redis).0 ≢ failed)
      → ws_auth_middleware next parse_with_claims equal_fold secret ticket header h
        ≡ next u (record h {
          redis = (R.get_del (ticket_key ticket) h.redis).1;
          server = record h.server { session = count_call h.server.session };
        })
  ws_auth-ws_ticket encode random next parse_with_claims equal_fold secret u header ticket code g h
        r answered small there row fine up =
      let (held, same) = rw answered at (ws_ticket-Tickets encode u g random) in
      ws_auth-ticket next parse_with_claims equal_fold secret u ticket header h r small there held
        up (ap (λ (v : Server _). query_row (active_id u.id) v.session.db.users) same ∙ row)
        (ap (λ (v : Server _). v.session.fails v.session.calls) same ∙ fine)

  -- A ticket is used up by the first request that Redis answers, whether it is admitted or not: right
  -- after it the ticket names nobody.
  pub from_ticket_once :
      (ticket : String) (s : R.State)
      → ((R.get_del (ticket_key ticket) s).0 ≢ failed)
      → (from_ticket R ticket (from_ticket R ticket s).1).0 ≡ none
  from_ticket_once ticket s up = elim (Bool-cases (str_eq ticket "")) [
    | inl blank ↦ rw blank refl
    | inr there ↦ elim (lawful.get_del-answer (ticket_key ticket) s) [
      | inl down ↦ absurd (up down)
      | inr (_, gone) ↦
          elim (lawful.get_del-answer (ticket_key ticket) (R.get_del (ticket_key ticket) s).1) [
            | inl down ↦ rw (there, down) refl
            | inr (a, _) ↦ rw (there, a, gone) refl
          ]
    ]
  ]
