-- ===== src/Http/Sessions/Registering.antt =====
-- What `RegisterHandler` of internal/http/auth_handlers.go did, by its answer.
use onyxchat.Base.{
  String, str_eq, true, false, ◌||◌, ◌≡◌, refl, ap, sym, ◌∙◌, ◌⊎◌, inl, inr, Option, none, some,
  arith, Bool-cases,
}
use onyxchat.Text.{trim_space}
use onyxchat.Redis.{Redis, IsLawful}
use onyxchat.Sql.{exists_row}
use onyxchat.Store.Db.{Db}
use onyxchat.Store.Session.{Session, Result, ok, err, invalid_invite_code, username_taken}
use onyxchat.Store.Users.{User, register_with_invite, usable, has_username}
use onyxchat.Store.Users.Registration as Registration
use onyxchat.Store.Users.Registration.{Registers, register-Registers}
use onyxchat.Http.{Reply, error, json_error, json, status, Server}
use onyxchat.Http.Gate.{Gate}
use onyxchat.Http.Sessions.{
  Claims, SessionResponse, RegisterRequest, register_handler, register_hashed, registered,
}
use onyxchat.Http.Sessions.Login.{Issues, Issued, token-Issued}

-- The tables after the registration that a request asks for.
abbrev pub after_registration : RegisterRequest → (hash : String) → Session → Db
after_registration req hash s =
    Registration.registered s.now req.invite_code (trim_space req.username) hash s.db

register-now :
    (code name hash : String) (s : Session) → (register_with_invite code name hash s).1.now ≡ s.now
unfolding register_with_invite
register-now code name hash s = ground arith

module _ (R : Redis) (lawful : IsLawful R) (sign : Claims → String → Option String)
    (secret : String) where
  module _ {L B : Type 0} (encode : B → String) (random : Option B)
      (hash_password : String → Option String) where
    abbrev pub RegistersUser :
        RegisterRequest → Gate R L → Reply SessionResponse × Gate R L → Type 0
    RegistersUser req g (json code resp, h) =
        (hash : String) × (hash_password req.password ≡ some hash)
        × (exists_row (usable g.server.session.now req.invite_code) g.server.session.db.invites
            ≡ true)
        × (exists_row (has_username (trim_space req.username)) g.server.session.db.users ≡ false)
        × (h.server.session.db ≡ after_registration req hash g.server.session)
        × Issues R lawful sign secret
            (record {
              id = g.server.session.db.next_user;
              username = trim_space req.username;
              password_hash = hash;
              public_key = "";
            })
            g.server.session.now resp h.redis
    RegistersUser req g (other, h) =
        (h.server.session.db ≡ g.server.session.db)
        ⊎ ((hash : String) × (hash_password req.password ≡ some hash)
            × (h.server.session.db ≡ after_registration req hash g.server.session))

    -- A session issued to the user that the store registered answers the request.
    Issued-RegistersUser :
        (req : RegisterRequest) (hash : String) (g k : Gate R L) (user : User)
        → hash_password req.password ≡ some hash
        → k.server.session.now ≡ g.server.session.now
        → Registers req.invite_code
            (trim_space req.username)
            hash
            g.server.session
            (ok user, k.server.session)
        → (out : Reply SessionResponse × Gate R L) → Issued R lawful sign secret user k out
        → RegistersUser req g out
    Issued-RegistersUser req hash g k user hashed now (usable_code, free, db, same)
          (json code resp, h) (i, kept) =
        (
          hash,
          hashed,
          usable_code,
          free,
          ap (λ (v : Server L). v.session.db) kept ∙ db,
          rw (sym same, sym now) i,
        )
    Issued-RegistersUser req hash g k user hashed now (usable_code, free, db, same)
          (error code t, h) kept =
        inr (hash, hashed, ap (λ (v : Server L). v.session.db) kept ∙ db)
    Issued-RegistersUser req hash g k user hashed now (usable_code, free, db, same)
          (json_error code t, h) kept =
        inr (hash, hashed, ap (λ (v : Server L). v.session.db) kept ∙ db)
    Issued-RegistersUser req hash g k user hashed now (usable_code, free, db, same) (status code, h)
          kept =
        inr (hash, hashed, ap (λ (v : Server L). v.session.db) kept ∙ db)

    stored-RegistersUser :
        (req : RegisterRequest) (hash : String) (g k : Gate R L) (x : Result User)
        → hash_password req.password ≡ some hash
        → k.server.session.now ≡ g.server.session.now
        → Registers req.invite_code
            (trim_space req.username)
            hash
            g.server.session
            (x, k.server.session)
        → RegistersUser req g (registered R sign secret encode random hash_password x k)
    stored-RegistersUser req hash g k (err invalid_invite_code) hashed now kept = inl kept
    stored-RegistersUser req hash g k (err username_taken) hashed now kept = inl kept
    stored-RegistersUser req hash g k (err e) hashed now kept = inl kept
    stored-RegistersUser req hash g k (ok user) hashed now r =
        Issued-RegistersUser req hash g k user hashed now r _
          (token-Issued R lawful sign secret encode random user k _ refl)

    hashed-RegistersUser :
        (req : RegisterRequest) (g : Gate R L) (x : Option String)
        → hash_password req.password ≡ x
        → RegistersUser req g (
            register_hashed R sign secret encode random hash_password req.invite_code
              (trim_space req.username)
              x
              g)
    hashed-RegistersUser req g none hashed = inl refl
    hashed-RegistersUser req g (some hash) hashed =
        stored-RegistersUser req hash g _ _ hashed
          (register-now req.invite_code (trim_space req.username) hash g.server.session)
          (register-Registers req.invite_code (trim_space req.username) hash g.server.session)

    -- A session is handed out only where the code was usable and the trimmed name free: the code is then
    -- burnt, the user is added with the hash of the password, and the session is that user's, whose id
    -- Redis holds under its refresh token. Any other answer leaves the tables, or comes after the same
    -- registration when no session could be issued.
    pub register_handler-RegistersUser :
        (req : RegisterRequest) (g : Gate R L)
        → RegistersUser req g
            (register_handler R sign secret encode random hash_password (some req) g)
    unfolding register_handler
    register_handler-RegistersUser req g =
        elim (Bool-cases (str_eq (trim_space req.username) "" || str_eq req.password "")) [
          | inl blank ↦ rw blank (inl refl)
          | inr given ↦ elim (Bool-cases (str_eq req.invite_code "")) [
            | inl without_code ↦ rw (given, without_code) (inl refl)
            | inr with_code ↦ rw (given, with_code) (hashed-RegistersUser req g _ refl)
          ]
        ]
