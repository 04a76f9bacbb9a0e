-- ===== src/Http/Limits/PerKey.antt =====
-- `KeyedLimiter` of internal/http/ratelimit.go is one limiter per key.
use mathlib.Core.Option
use onyxchat.Base.{
  ℕ, String, str_eq, Bool, false, ◌≡◌, refl, ap, ◌∙◌, Option, none, some, List, [], ◌∷◌, ◌++◌,
  arith, if◌then◌else◌, Bool-cases, inl, inr, eq_iff, str_eq_sym,
}
use onyxchat.Sql.{update, delete, select, exists_row, query_row}
use onyxchat.Sql.Laws.{query_row-update, query_row-cases, query_row-append_new}
use onyxchat.Http.Limits.{
  LimiterEntry, KeyedLimiter, has_key, expired, keyed_allow, with_entry, used, answer_for,
}

module _ {A : Type 0} (p : A → Bool) where
  delete_none : (xs : List A) → exists_row p xs ≡ false → delete p xs ≡ xs
  unfolding exists_row delete select
  delete_none [] h = refl
  delete_none (x ∷ xs) h = ground (arith, delete_none xs)

  exists_row-delete_self : (xs : List A) → exists_row p (delete p xs) ≡ false
  unfolding exists_row delete select
  exists_row-delete_self [] = refl
  exists_row-delete_self (x ∷ xs) = ground (arith, exists_row-delete_self xs)

  exists_row-update-false :
      (q : A → Bool) (f : A → A) (xs : List A)
      → ((x : A) → p (f x) ≡ false)
      → exists_row p xs ≡ false
      → exists_row p (update q f xs) ≡ false
  unfolding exists_row update
  exists_row-update-false q f [] k h = refl
  exists_row-update-false q f (x ∷ xs) k h = ground (arith, k x, exists_row-update-false q f xs k)

  exists_row-append_false :
      (xs : List A) (y : A)
      → exists_row p xs ≡ false
      → p y ≡ false
      → exists_row p (xs ++ y ∷ []) ≡ false
  unfolding exists_row
  exists_row-append_false [] y h e = rw e
  exists_row-append_false (x ∷ xs) y h e = ground (arith, exists_row-append_false xs y)

  query_row-append_other :
      (xs : List A) (y : A) → p y ≡ false → query_row p (xs ++ y ∷ []) ≡ query_row p xs
  unfolding query_row
  query_row-append_other [] y e = rw e
  query_row-append_other (x ∷ xs) y e = ground (arith, query_row-append_other xs y e)

module _ {L : Type 0} (permit : ℕ → L → Bool × L) where
  -- The limiter of a key whose entry has not expired.
  abbrev pub limiter_at : ℕ → String → KeyedLimiter L → Option L
  limiter_at now key kl =
      Option.map (λ e. e.lim) (query_row (has_key key) (delete (expired kl.ttl now) kl.by_key))

  abbrev pub or_fresh : KeyedLimiter L → Option L → L
  or_fresh kl none = kl.fresh
  or_fresh kl (some l) = l

  used-not_expired :
      (ttl now : ℕ) (e : LimiterEntry L) → expired ttl now (used permit now e) ≡ false
  used-not_expired ttl now e = ground arith

  -- After a call no entry has expired.
  with_entry-live :
      (ttl now : ℕ) (key : String) (fresh : L) (es : List (LimiterEntry L))
      → exists_row (expired ttl now) es ≡ false
      → exists_row (expired ttl now) (with_entry permit key now fresh es) ≡ false
  with_entry-live ttl now key fresh es h = elim (Bool-cases (exists_row (has_key key) es)) [
    | inl there ↦ rw there h
    | inr new ↦ rw new (
        exists_row-append_false (expired ttl now) es (record { key = key; lim = fresh; last = now })
          h (ground arith))
  ]

  abbrev fresh_entry : String → ℕ → L → LimiterEntry L
  fresh_entry key now fresh = record { key = key; lim = fresh; last = now }

  abbrev entry_or : LimiterEntry L → Option (LimiterEntry L) → LimiterEntry L
  entry_or other none = other
  entry_or other (some e) = e

  query-with_entry :
      (key j : String) (now : ℕ) (fresh : L) (es : List (LimiterEntry L))
      → query_row (has_key j) (with_entry permit key now fresh es) ≡ (
          if str_eq j key
          then some (entry_or (fresh_entry key now fresh) (query_row (has_key key) es))
          else query_row (has_key j) es)
  query-with_entry key j now fresh es = elim (query_row-cases (has_key key) es) [
    | inl (new, q) ↦ elim (Bool-cases (str_eq j key)) [
      | inl same ↦
          rw (new, q, same, (eq_iff j key).0 same)
            (query_row-append_new (has_key key) es (fresh_entry key now fresh) new
              ((eq_iff key key).1 refl))
      | inr apart ↦
          rw (new, apart)
            (query_row-append_other (has_key j) es (fresh_entry key now fresh)
              (str_eq_sym key j ∙ apart))
    ]
    | inr (e, there, q, _) ↦ elim (Bool-cases (str_eq j key)) [
      | inl same ↦ rw (there, q, same, (eq_iff j key).0 same) q
      | inr apart ↦ rw (there, apart) refl
    ]
  ]

  -- A call asks the limiter of its key, a fresh one if the key has none that is live, and changes
  -- no other key's limiter.
  pub keyed_allow-limiter :
      (now : ℕ) (key j : String) (kl : KeyedLimiter L)
      → let out = keyed_allow permit now key kl in
        let mine = permit now (or_fresh kl (limiter_at now key kl)) in
        (out.0 ≡ mine.0)
        × (limiter_at now j out.1 ≡ (if str_eq j key then some mine.1 else limiter_at now j kl))
  unfolding keyed_allow
  keyed_allow-limiter now key j kl = (answered (query_row (has_key key) live), kept)
    where
      live : List (LimiterEntry L)
      live = delete (expired kl.ttl now) kl.by_key

      answered :
          (o : Option (LimiterEntry L))
          → answer_for permit now kl.fresh o
            ≡ (permit now (or_fresh kl (Option.map (λ e. e.lim) o))).0
      answered none = refl
      answered (some e) = refl

      entries : List (LimiterEntry L)
      entries = update (has_key key) (used permit now) (with_entry permit key now kl.fresh live)

      all_live : delete (expired kl.ttl now) entries ≡ entries
      all_live = delete_none (expired kl.ttl now) entries (
          exists_row-update-false (expired kl.ttl now) (has_key key) (used permit now)
            (with_entry permit key now kl.fresh live) (used-not_expired kl.ttl now)
            (with_entry-live kl.ttl now key kl.fresh live
              (exists_row-delete_self (expired kl.ttl now) kl.by_key)))

      looked_up :
          query_row (has_key j) entries
          ≡ Option.map
              (λ e. if has_key key e then used permit now e else e)
              (if str_eq j key
                then some (entry_or (fresh_entry key now kl.fresh) (query_row (has_key key) live))
                else query_row (has_key j) live)
      looked_up =
          query_row-update (has_key key) (has_key j) (used permit now)
            (with_entry permit key now kl.fresh live) (λ e. refl)
          ∙ ap (Option.map (λ e. if has_key key e then used permit now e else e))
              (query-with_entry key j now kl.fresh live)

      kept :
          Option.map (λ e. e.lim) (query_row (has_key j) (delete (expired kl.ttl now) entries)) ≡ (
            if str_eq j key
            then some (permit now (or_fresh kl (limiter_at now key kl))).1
            else limiter_at now j kl)
      kept =
          rw (all_live, looked_up)
            (elim (Bool-cases (str_eq j key)) [
              | inl same ↦ rw same (elim (query_row-cases (has_key key) live) [
                | inl (_, q) ↦ rw (q, (eq_iff key key).1 refl) refl
                | inr (e, _, q, h) ↦ rw (q, h) refl
              ])
              | inr apart ↦ rw apart (elim (query_row-cases (has_key j) live) [
                | inl (_, q) ↦ rw q refl
                | inr (e, _, q, h) ↦
                    let not_mine : has_key key e ≡ false = rw ((eq_iff e.key j).0 h) apart in
                    rw (q, not_mine) refl
              ])
            ])
