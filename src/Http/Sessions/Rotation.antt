-- ===== src/Http/Sessions/Rotation.antt =====
-- What `RefreshHandler` and `LogoutHandler` of internal/http/auth_handlers.go make of a refresh token.
use onyxchat.Base.{
  ℕ, String, str_eq, true, false, ◌≡◌, refl, ap, sym, ◌∙◌, inl, inr, Option, none, some, arith,
  Bool-cases, pos, negsuc, ℤ, eq_iff,
}
use onyxchat.Redis.{Redis, IsLawful, Answer, found, missing, failed, answer_of}
use onyxchat.Sql.{query_row}
use onyxchat.Store.Db.{UserRow}
use onyxchat.Store.Session.{Result, ok, err}
use onyxchat.Store.Users.{User, active_id, scan_user}
use onyxchat.Store.Users.Lookup.{IsRead, get_user_by_id-IsRead, get_user_by_id-found}
use onyxchat.Http.{Reply, error, json_error, json, status, Server}
use onyxchat.Http.Gate.{Gate, get_user_by_int}
use onyxchat.Http.Sessions.{
  Claims, RefreshResponse, generate, refresh_key, refresh_token_ttl, new_refresh_token,
  store_refresh_token, lookup_refresh_token, delete_refresh_token, refreshed, after_store,
  store_new, rotate, with_owner, refresh_handler, logout_handler,
}

module _ (R : Redis) (lawful : IsLawful R) where
  -- Once Redis has deleted a token, it holds nothing under it.
  deleted-none :
      (token : String) (s : R.State)
      → (R.del (refresh_key token) s).0 ≡ found tt
      → lawful.int_at (refresh_key token) (R.del (refresh_key token) s).1 ≡ none
  deleted-none token s deleted =
      lawful.del-int (refresh_key token) (refresh_key token) s deleted
      ∙ rw ((eq_iff (refresh_key token) (refresh_key token)).1 refl) refl

module _ (R : Redis) (lawful : IsLawful R) (sign : Claims → String → Option String)
    (secret : String) where
  -- What a rotation hands out to a user: an access token, and a refresh token under which Redis holds
  -- the user's id, while the old one is gone, if it was deleted and is not the new one again.
  pub record Rotates (user : User) (now : ℕ) (old : String) (s : R.State) (resp : RefreshResponse)
      (t : R.State) : Type 0 where
    pub access : generate sign secret now user ≡ some resp.token
    pub refresh : lawful.int_at (refresh_key resp.refresh_token) t ≡ some (pos user.id)
    pub gone :
        (R.del (refresh_key old) s).0 ≡ found tt
        → str_eq (refresh_key old) (refresh_key resp.refresh_token) ≡ false
        → lawful.int_at (refresh_key old) t ≡ none

  module _ {L B : Type 0} (encode : B → String) (random : Option B) where
    -- A token under which Redis holds nothing is refused.
    pub refresh_refused :
        (token : String) (g : Gate R L)
        → lawful.int_at (refresh_key token) g.redis ≡ none
        → (text : String) × ((refresh_handler R sign secret encode random (some token) g).0
            ≡ json_error 401 text)
          × ((refresh_handler R sign secret encode random (some token) g).1.server ≡ g.server)
    unfolding refresh_handler lookup_refresh_token
    refresh_refused token g gone = elim (Bool-cases (str_eq token "")) [
      | inl blank ↦ ("refresh_token required", rw blank refl, rw blank refl)
      | inr there ↦ elim (lawful.get_int-answer (refresh_key token) g.redis) [
        | inl down ↦
            ("invalid or expired refresh token", rw (there, down) refl, rw (there, down) refl)
        | inr a ↦
            ("invalid or expired refresh token", rw (there, a, gone) refl, rw (there, a, gone) refl)
      ]
    ]

    logout-redis :
        (token : String) (g : Gate R L)
        → str_eq token "" ≡ false
        → (logout_handler R (some token) g).1.redis ≡ (R.del (refresh_key token) g.redis).1
    unfolding logout_handler delete_refresh_token
    logout-redis token g there = rw there refl

    refresh_blank :
        (token : String) (g : Gate R L)
        → str_eq token "" ≡ true
        → (refresh_handler R sign secret encode random (some token) g).0
          ≡ json_error 401 "refresh_token required"
    unfolding refresh_handler
    refresh_blank token g blank = rw blank refl

    -- Logging out ends the session for good, when Redis deletes the token: a refresh with it right
    -- after is answered 401.
    pub refresh-logout :
        (token : String) (g : Gate R L)
        → (R.del (refresh_key token) g.redis).0 ≡ found tt
        → (text : String) × ((refresh_handler R sign secret encode random
              (some token)
              (logout_handler R (some token) g).1).0
            ≡ json_error 401 text)
    refresh-logout token g deleted = elim (Bool-cases (str_eq token "")) [
      | inl blank ↦ ("refresh_token required", refresh_blank token _ blank)
      | inr there ↦
          let (text, answered, _) = refresh_refused token (logout_handler R (some token) g).1 (
            ap (lawful.int_at (refresh_key token)) (logout-redis token g there)
            ∙ deleted-none R lawful token g.redis deleted) in
          (text, answered)
    ]

    abbrev Rotated : User → String → Gate R L → Reply RefreshResponse × Gate R L → Type 0
    Rotated user old g (json code resp, h) =
        Rotates user g.server.session.now old g.redis resp h.redis × (h.server ≡ g.server)
    Rotated user old g (other, h) = h.server ≡ g.server

    refreshed-Rotated :
        (user : User) (old refresh : String) (g : Gate R L) (s : R.State) (token : Option String)
        → generate sign secret g.server.session.now user ≡ token
        → lawful.int_at (refresh_key refresh) s ≡ some (pos user.id)
        → ((R.del (refresh_key old) g.redis).0 ≡ found tt
            → str_eq (refresh_key old) (refresh_key refresh) ≡ false
            → lawful.int_at (refresh_key old) s ≡ none)
        → Rotated user old g
            (refreshed R sign secret encode random refresh token (record g { redis = s }))
    refreshed-Rotated user old refresh g s none t held gone = refl
    refreshed-Rotated user old refresh g s (some token) t held gone =
        (record { access = t; refresh = held; gone = gone }, refl)

    stored-Rotated :
        (user : User) (old refresh : String) (g : Gate R L) (a : Answer (Unit {0}))
        → let s = (R.del (refresh_key old) g.redis).1 in
          let stored = store_refresh_token R refresh user.id s in
          stored.0 ≡ a
          → Rotated user old g (
              after_store R sign secret encode random user refresh a
                (record g { redis = stored.1 }))
    unfolding store_refresh_token
    stored-Rotated user old refresh g (found tt) h =
        let s = (R.del (refresh_key old) g.redis).1 in
        refreshed-Rotated user old refresh g _ _ refl
          (lawful.set_int-int (refresh_key refresh) (refresh_key refresh) user.id refresh_token_ttl
              s h
            ∙ rw ((eq_iff (refresh_key refresh) (refresh_key refresh)).1 refl) refl)
          λ deleted other.
            lawful.set_int-int (refresh_key refresh) (refresh_key old) user.id refresh_token_ttl s h
            ∙ rw other (deleted-none R lawful old g.redis deleted)
    stored-Rotated user old refresh g missing h = refl
    stored-Rotated user old refresh g failed h = refl

    store_new-Rotated :
        (user : User) (old : String) (g : Gate R L) (refresh : Option String)
        → Rotated user old g (
            store_new R sign secret encode random user refresh
              (record g { redis = (R.del (refresh_key old) g.redis).1 }))
    store_new-Rotated user old g none = refl
    store_new-Rotated user old g (some refresh) = stored-Rotated user old refresh g _ refl

    -- What a refresh did, by its answer.
    abbrev pub Refreshes : String → Gate R L → Reply RefreshResponse × Gate R L → Type 0
    Refreshes old g (json code resp, h) =
        (uid : ℕ) × (u : UserRow) × (lawful.int_at (refresh_key old) g.redis ≡ some (pos uid))
        × (query_row (active_id uid) g.server.session.db.users ≡ some u)
        × Rotates (scan_user u) g.server.session.now old (lookup_refresh_token R old g.redis).1 resp
            h.redis
        × (h.server.session.db ≡ g.server.session.db)
    Refreshes old g (other, h) = h.server.session.db ≡ g.server.session.db

    -- A rotation for an active user, after reads, answers a refresh.
    Rotated-Refreshes :
        (old : String) (g k : Gate R L) (uid : ℕ) (u : UserRow) (user : User)
        → IsRead g.server.session k.server.session
        → k.redis ≡ (lookup_refresh_token R old g.redis).1
        → lawful.int_at (refresh_key old) g.redis ≡ some (pos uid)
        → query_row (active_id uid) g.server.session.db.users ≡ some u
        → user ≡ scan_user u
        → (out : Reply RefreshResponse × Gate R L) → Rotated user old k out
        → Refreshes old g out
    Rotated-Refreshes old g k uid u user read looked held q same (json code resp, h) (r, kept) = (
      uid,
      u,
      held,
      q,
      rw (sym same, sym read.now, sym looked) r,
      ap (λ (v : Server L). v.session.db) kept ∙ read.db,
    )
    Rotated-Refreshes old g k uid u user read looked held q same (error code t, h) kept =
        ap (λ (v : Server L). v.session.db) kept ∙ read.db
    Rotated-Refreshes old g k uid u user read looked held q same (json_error code t, h) kept =
        ap (λ (v : Server L). v.session.db) kept ∙ read.db
    Rotated-Refreshes old g k uid u user read looked held q same (status code, h) kept =
        ap (λ (v : Server L). v.session.db) kept ∙ read.db

    rotate-Refreshes :
        (old : String) (g k : Gate R L) (uid : ℕ) (x : Result User)
        → IsRead g.server.session k.server.session
        → k.redis ≡ (lookup_refresh_token R old g.redis).1
        → lawful.int_at (refresh_key old) g.redis ≡ some (pos uid)
        → ((user : User)
            → x ≡ ok user
            → (u : UserRow) × (query_row (active_id uid) g.server.session.db.users ≡ some u)
              × (user ≡ scan_user u))
        → Refreshes old g (rotate R sign secret encode random old x k)
    unfolding delete_refresh_token
    rotate-Refreshes old g k uid (err e) read looked held row = read.db
    rotate-Refreshes old g k uid (ok user) read looked held row =
        let (u, q, same) = row user refl in
        Rotated-Refreshes old g k uid u user read looked held q same _
          (store_new-Rotated user old k (new_refresh_token encode random))

    owner-Refreshes :
        (old : String) (g : Gate R L) (x : Option ℤ)
        → lawful.int_at (refresh_key old) g.redis ≡ x
        → Refreshes old g (
            with_owner R sign secret encode random old
              (answer_of x)
              (record g { redis = (lookup_refresh_token R old g.redis).1 }))
    unfolding get_user_by_int
    owner-Refreshes old g none held = refl
    owner-Refreshes old g (some (negsuc n)) held = ground arith
    owner-Refreshes old g (some (pos uid)) held =
        rotate-Refreshes old g _ uid _ (get_user_by_id-IsRead uid g.server.session) refl held
          (get_user_by_id-found uid g.server.session)

    -- A new session is handed out only for a refresh token under which Redis holds the id of an active
    -- user: the answer then carries an access token for that user, Redis holds the id under the new
    -- refresh token, and the old one is gone if Redis deleted it and it is not the new one again. No
    -- refresh changes a table.
    pub refresh-Refreshes :
        (old : String) (g : Gate R L)
        → Refreshes old g (refresh_handler R sign secret encode random (some old) g)
    unfolding refresh_handler lookup_refresh_token
    refresh-Refreshes old g = elim (Bool-cases (str_eq old "")) [
      | inl blank ↦ rw blank refl
      | inr there ↦ elim (lawful.get_int-answer (refresh_key old) g.redis) [
        | inl down ↦ rw (there, down) refl
        | inr a ↦ rw (there, a) (owner-Refreshes old g _ refl)
      ]
    ]
