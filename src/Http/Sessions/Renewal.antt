-- ===== src/Http/Sessions/Renewal.antt =====
-- A session of internal/http/auth_handlers.go from its login to its first refresh.
use onyxchat.Base.{
  ℕ, String, str_eq, Bool, false, ◌≡◌, ◌≢◌, refl, ap, sym, ◌∙◌, inl, inr, Option, some, pos,
}
use onyxchat.Redis.{Redis, IsLawful, found, failed, answer_of}
use onyxchat.Sql.{query_row}
use onyxchat.Store.Db.{UserRow}
use onyxchat.Store.Users.{active_id, scan_user}
use onyxchat.Http.{json}
use onyxchat.Http.Gate.{Gate, get_user_by_int}
use onyxchat.Http.Sessions.{
  Claims, LoginRequest, SessionResponse, generate, refresh_key, lookup_refresh_token,
  delete_refresh_token, store_refresh_token, login_handler, refresh_handler,
}
use onyxchat.Http.Sessions.Login.{login-Logins}

module _ (R : Redis) where
  -- What Redis holds after the lookup and the deletion of a token.
  abbrev pub looked_up : String → R.State → R.State
  looked_up old s = (delete_refresh_token R old (lookup_refresh_token R old s).1).1

module _ (R : Redis) (lawful : IsLawful R) where
  held_token :
      (old : String) (s : R.State) (n : ℕ)
      → lawful.int_at (refresh_key old) s ≡ some (pos n)
      → ((lookup_refresh_token R old s).0 ≢ failed)
      → (lookup_refresh_token R old s).0 ≡ found (pos n)
  unfolding lookup_refresh_token
  held_token old s n held up = elim (lawful.get_int-answer (refresh_key old) s) [
    | inl down ↦ absurd (up down)
    | inr a ↦ a ∙ ap answer_of held
  ]

module _ (R : Redis) (lawful : IsLawful R) (sign : Claims → String → Option String)
    (secret : String) {L B : Type 0} (encode : B → String) (b : B) where
  refresh_succeeds :
      (old token : String) (g : Gate R L) (u : UserRow)
      → str_eq old "" ≡ false
      → (lookup_refresh_token R old g.redis).0 ≡ found (pos u.id)
      → g.server.session.fails g.server.session.calls ≡ false
      → query_row (active_id u.id) g.server.session.db.users ≡ some u
      → (store_refresh_token R (encode b) u.id (looked_up R old g.redis)).0 ≡ found tt
      → generate sign secret g.server.session.now (scan_user u) ≡ some token
      → (refresh_handler R sign secret encode (some b) (some old) g).0
        ≡ json 200 (record { token = token; refresh_token = encode b })
  unfolding refresh_handler get_user_by_int
  refresh_succeeds old token g u there held fine row stored signed =
      rw (there, held, fine, row, stored, signed) refl

  -- The refresh token that a login answered works: a refresh with it right after is answered 200, with
  -- the new access and refresh token, when it is not empty, the account that the login named is not
  -- deleted, and the driver, Redis and the signing do not fail.
  pub refresh-login :
      (permit : ℕ → L → Bool × L) (to_lower : String → String)
      (password_matches : String → String → Bool) (random : Option B) (req : LoginRequest)
      (g h : Gate R L) (code : ℕ) (resp : SessionResponse) (u : UserRow) (token : String)
      → login_handler R sign secret encode random permit to_lower password_matches (some req) g
        ≡ (json code resp, h)
      → str_eq resp.refresh_token "" ≡ false
      → u.id ≡ resp.id
      → query_row (active_id u.id) h.server.session.db.users ≡ some u
      → h.server.session.fails h.server.session.calls ≡ false
      → ((lookup_refresh_token R resp.refresh_token h.redis).0 ≢ failed)
      → (store_refresh_token R (encode b) u.id (looked_up R resp.refresh_token h.redis)).0
        ≡ found tt
      → generate sign secret h.server.session.now (scan_user u) ≡ some token
      → (refresh_handler R sign secret encode (some b) (some resp.refresh_token) h).0
        ≡ json 200 (record { token = token; refresh_token = encode b })
  refresh-login permit to_lower password_matches random req g h code resp u token answered there
        named row fine up stored signed =
      let (v, _, _, issued, _) =
        rw answered at (
          login-Logins R lawful sign secret encode random permit to_lower password_matches req g) in
      refresh_succeeds resp.refresh_token token h u there
        (held_token R lawful resp.refresh_token h.redis u.id
          (issued.refresh ∙ ap (λ n. some (pos n)) (sym issued.id ∙ sym named)) up)
        fine row stored signed
