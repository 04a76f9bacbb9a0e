-- ===== src/Http/Sending.antt =====
-- What the handlers of internal/http/message_handlers.go promise of a message that is sent: what is
-- confirmed is stored and announced, and nothing else.
use onyxchat.Base.{
  ℕ, ◌≤◌, String, len, str_eq, Bool, true, false, not, ◌&&◌, ◌||◌, ◌≡◌, ◌≢◌, ◌↔◌, ◌⊎◌, inl, inr,
  refl, ◌∙◌, Option, none, some, List, [], ◌∷◌, ◌++◌, arith, length, ltb, if◌then◌else◌, eq_iff,
  ==_iff, Bool-cases,
}
use onyxchat.Store.Db.{MessageRow}
use onyxchat.Store.Session.{Session, Result, Error, ok, err}
use onyxchat.Store.Users.{get_by_username, User}
use onyxchat.Store.Messages.{Message, scan_msg, create_or_get_existing}
use onyxchat.Store.Messages.Idempotence.{stored, create-stored}
use onyxchat.Http.{CurrentUser, Reply, error, json_error, json, status, message_created, Server}
use onyxchat.Http.Messages.{
  SendMessageRequest, bytes_12, validate, send_message_handler, page_limit, after_create,
  send_to_recipient,
}

-- A test that would have given a text gave none.
guard :
    (c : Bool) (msg rest : String)
    → str_eq msg "" ≡ false
    → (if c then msg else rest) ≡ ""
    → (c ≡ false) × (rest ≡ "")
guard true msg rest h e = absurd (apart h)
  where
    apart : str_eq msg "" ≡ false → ⊥
    apart f = ground (arith, f, eq_iff msg "", e)
guard false msg rest h e = (refl, e)

then_guard :
    {P : Type 0} (c : Bool) (msg rest : String)
    → str_eq msg "" ≡ false
    → P × ((if c then msg else rest) ≡ "")
    → (P × (c ≡ false)) × (rest ≡ "")
then_guard c msg rest h (p, e) = let (q, e') = guard c msg rest h e in ((p, q), e')

module _ {B : Type 0} (decode_base64 : String → Option (List B)) where
  -- The texts are there and within their bounds, and an encrypted body has a nonce of 12 bytes.
  pub record Acceptable (r : SendMessageRequest) : Type 0 where
    pub has_recipient : r.recipient_username ≢ ""
    pub has_body : r.body ≢ ""
    pub has_client_id : r.client_message_id ≢ ""
    pub recipient_bound : len r.recipient_username ≤ 32
    pub body_bound : len r.body ≤ 8192
    pub client_id_bound : len r.client_message_id ≤ 128
    pub nonce :
        (r.encrypted ≡ false)
        ⊎ ((bs : List B) × (decode_base64 r.iv ≡ some bs) × (length bs ≡ 12) × (r.iv ≢ ""))

  nonce_12 :
      (r : SendMessageRequest) (x : Option (List B))
      → decode_base64 r.iv ≡ x
      → bytes_12 x ≡ true
      → r.iv ≢ ""
      → (bs : List B) × (decode_base64 r.iv ≡ some bs) × (length bs ≡ 12) × (r.iv ≢ "")
  nonce_12 r none q h there = cc
  nonce_12 r (some bs) q h there = (bs, q, (==_iff (length bs) 12).0 h, there)

  abbrev missing : SendMessageRequest → Bool
  missing r = str_eq r.recipient_username "" || str_eq r.body "" || str_eq r.client_message_id ""

  acceptable :
      (r : SendMessageRequest)
      → ((((((missing r ≡ false) × (ltb 32 (len r.recipient_username) ≡ false))
                × (ltb 8192 (len r.body) ≡ false))
              × (ltb 128 (len r.client_message_id) ≡ false))
            × ((r.encrypted && str_eq r.iv "") ≡ false))
          × ((r.encrypted && not (bytes_12 (decode_base64 r.iv))) ≡ false))
        × (◌≡◌ {A = String} "" "")
      → Acceptable r
  acceptable r ((((((a, b), c), d), e), f), _) = record {
    has_recipient = ground (arith, a, eq_iff r.recipient_username "");
    has_body = ground (arith, a, eq_iff r.body "");
    has_client_id = ground (arith, a, eq_iff r.client_message_id "");
    recipient_bound = ground (arith, b);
    body_bound = ground (arith, c);
    client_id_bound = ground (arith, d);
    nonce = elim (Bool-cases r.encrypted) [
      | inl on ↦ inr (
          nonce_12 r (decode_base64 r.iv) refl (ground (arith, on, f))
            (ground (arith, on, e, eq_iff r.iv "")))
      | inr off ↦ inl off
    ];
  }

  validate_holds : (r : SendMessageRequest) → validate decode_base64 r ≡ "" → Acceptable r
  unfolding validate
  validate_holds r h = acceptable r (
      then_guard _ _ _ refl (
        then_guard _ _ _ refl (
          then_guard _ _ _ refl
            (then_guard _ _ _ refl (then_guard _ _ _ refl (guard _ _ _ refl h))))))

  validate_accepts : (r : SendMessageRequest) → Acceptable r → validate decode_base64 r ≡ ""
  unfolding validate
  validate_accepts r a = ground (
    arith,
    a.has_recipient,
    a.has_body,
    a.has_client_id,
    a.recipient_bound,
    a.body_bound,
    a.client_id_bound,
    eq_iff r.recipient_username "",
    eq_iff r.body "",
    eq_iff r.client_message_id "",
    eq_iff r.iv "",
    a.nonce,
  )

  -- A request is valid exactly when recipient, body and client id are not empty and within 32, 8192
  -- and 128 bytes, and, if it is encrypted, its iv is not empty and decodes to 12 bytes.
  pub validate-Acceptable :
      (r : SendMessageRequest) → (validate decode_base64 r ≡ "") ↔ Acceptable r
  validate-Acceptable r = (validate_holds r, validate_accepts r)

-- Whatever the text of the limit, a page has at least one message and at most 100.
pub page_limit-bounds : (limit : String) → (1 ≤ page_limit limit) × (page_limit limit ≤ 100)
unfolding page_limit
page_limit-bounds limit = ground arith

-- What a request to send did, by its answer and by whether the answer could be written.
abbrev pub Sends :
    {L : Type 0}
    → (written : Bool) → CurrentUser
    → SendMessageRequest
    → Server L
    → Reply Message × Server L
    → Type 0
Sends written cu req v (json code m, w) =
    (r : MessageRow) × (stored cu.id req.client_message_id w.session ≡ some r)
    × (m ≡ scan_msg r)
    × (w.published ≡ (
        if written
        then v.published
          ++ message_created m.id m.sender_id m.recipient_id req.client_message_id ∷ []
        else v.published))
Sends written cu req v (error code text, w) =
    (w.published ≡ v.published) × (w.session.db ≡ v.session.db)
Sends written cu req v (json_error code text, w) =
    (w.published ≡ v.published) × (w.session.db ≡ v.session.db)
Sends written cu req v (status code, w) =
    (w.published ≡ v.published) × (w.session.db ≡ v.session.db)

create_failed :
    (sender recipient : ℕ) (body iv : String) (encrypted : Bool) (client : String) (s : Session)
    (e : Error)
    → (create_or_get_existing sender recipient body iv encrypted client s).0 ≡ err e
    → (create_or_get_existing sender recipient body iv encrypted client s).1.db ≡ s.db
unfolding create_or_get_existing
create_failed sender recipient body iv encrypted client s e h = ground arith

pub lookup_db : (name : String) (s : Session) → (get_by_username name s).1.db ≡ s.db
unfolding get_by_username
lookup_db name s = ground arith

module _ {B : Type 0} (decode_base64 : String → Option (List B)) {L : Type 0} (written : Bool)
    (cu : CurrentUser) (req : SendMessageRequest) (v : Server L) where
  create-Sends :
      (s : Session) (recipient : ℕ) (x : Result (Message × Bool))
      → s.db ≡ v.session.db
      → (create_or_get_existing cu.id recipient req.body req.iv req.encrypted req.client_message_id
          s).0
        ≡ x
      → Sends written cu req v (
          after_create written req x (record v {
            session =
                (create_or_get_existing cu.id recipient req.body req.iv req.encrypted
                  req.client_message_id s).1;
          }))
  create-Sends s recipient (err e) same h = (
    refl,
    create_failed cu.id recipient req.body req.iv req.encrypted req.client_message_id s e h ∙ same,
  )
  create-Sends s recipient (ok (m, b)) same h =
      let (r, held, eq) =
        create-stored cu.id recipient req.body req.iv req.encrypted req.client_message_id s m b h in
      elim (Bool-cases written) [
        | inl e ↦ rw e (r, held, eq, refl)
        | inr e ↦ rw e (r, held, eq, refl)
      ]

  recipient-Sends :
      (x : Result User) (s : Session)
      → s.db ≡ v.session.db
      → Sends written cu req v (send_to_recipient written cu req x (record v { session = s }))
  recipient-Sends (err e) s same = (refl, same)
  recipient-Sends (ok u) s same = create-Sends s u.id _ same refl

  -- For a POST with a user and a body that decodes: a message that the handler confirms is the one
  -- that the store then holds under the sender and the client's id, and one event that announces it is
  -- to be published, or none where the answer could not be written; whatever else is answered, nothing
  -- is published and the tables stay as they are.
  pub send_message-Sends :
      Sends written cu req v
        (send_message_handler decode_base64 written "POST" (some cu) (some req) v)
  unfolding send_message_handler
  send_message-Sends = elim (Bool-cases (str_eq (validate decode_base64 req) "")) [
    | inl valid ↦ rw valid (
        recipient-Sends (get_by_username req.recipient_username v.session).0 _
          (lookup_db req.recipient_username v.session))
    | inr invalid ↦ rw invalid (refl, refl)
  ]
