-- ===== src/Http/Presence/Counts.antt =====
-- What the counters of internal/http/presence.go say of the connections, over a history of calls in
-- which Redis drops no counter and answers each Incr, Decr and Del.
use onyxchat.Base.{
  ℕ, suc, ◌-◌, ◌^◌, ◌<◌, String, str_eq, Bool, true, false, ◌≡◌, ◌≢◌, refl, sym, ap, ◌∙◌, inl, inr,
  Option, none, some, List, [], ◌∷◌, ◌++◌, if◌then◌else◌, ◌==◌, ltb, Bool-cases, arith, ℤ, pos,
  is_positive, coalesce,
}
use mathlib.Core.List.{append-nil}
use onyxchat.Text.{print_nat}
use onyxchat.Text.Prints.{print_nat_eq, str_eq-append}
use onyxchat.Redis.{Redis, IsLawful, found, failed, next_int, prev_int}
use onyxchat.Http.Presence.{
  PresenceEvent, PresenceStore, conns_key, conns_ttl, going, connect, disconnect, refresh,
}

-- A call of the presence store.
pub data Call : Type 0 where
  connects disconnects : ℕ → String → Call
  refreshes : ℕ → Call

-- The abstract view: how many connections each user has open.
abbrev pub Counts : Type 0
Counts = ℕ → ℕ

abbrev pub set_count : ℕ → ℕ → Counts → Counts
set_count uid n f j = if j == uid then n else f j

abbrev pub count : Call → Counts → Counts
count (connects uid name) f = set_count uid (suc (f uid)) f
count (disconnects uid name) f = set_count uid (f uid - 1) f
count (refreshes uid) f = f

-- A user comes online with the first connection and goes offline with the last.
abbrev pub announces : Call → Counts → List PresenceEvent
announces (connects uid name) f = if f uid == 0 then going uid name true ∷ [] else []
announces (disconnects uid name) f = if ltb 1 (f uid) then [] else going uid name false ∷ []
announces (refreshes uid) f = []

abbrev pub count_all : List Call → Counts → Counts
count_all [] f = f
count_all (c ∷ cs) f = count_all cs (count c f)

abbrev pub announces_all : List Call → Counts → List PresenceEvent
announces_all [] f = []
announces_all (c ∷ cs) f = announces c f ++ announces_all cs (count c f)

-- Two users have one key only if they are the same.
conns_key_eq : (i j : ℕ) → i < 2 ^ 63 → j < 2 ^ 63 → str_eq (conns_key i) (conns_key j) ≡ (i == j)
conns_key_eq i j p q =
    str_eq-append "presence:conns:" (print_nat i) (print_nat j) ∙ print_nat_eq i j p q

first_is_one : (n : ℕ) → (suc n == 1) ≡ (n == 0)
first_is_one n = ground arith

prev_is_positive : (n : ℕ) → is_positive (prev_int (pos n)) ≡ ltb 1 n
prev_is_positive n = ground arith

if_twice :
    {A : Type 0} (x y z : A) (b : Bool)
    → (if b then x else (if b then y else z)) ≡ (if b then x else z)
if_twice x y z true = refl
if_twice x y z false = refl

module _ (R : Redis) (lawful : IsLawful R) where
  abbrev pub call_presence : Call → PresenceStore R → PresenceStore R
  call_presence (connects uid name) p = (connect uid name p).1
  call_presence (disconnects uid name) p = (disconnect uid name p).1
  call_presence (refreshes uid) p = (refresh uid p).1

  abbrev pub call_all : List Call → PresenceStore R → PresenceStore R
  call_all [] p = p
  call_all (c ∷ cs) p = call_all cs (call_presence c p)

  -- The id fits an int64, and Redis answers what is asked of the counter.
  abbrev pub IsAnswered : Call → R.State → Type 0
  IsAnswered (connects uid name) s = (uid < 2 ^ 63) × ((R.incr (conns_key uid) s).0 ≢ failed)
  IsAnswered (disconnects uid name) s =
      (uid < 2 ^ 63)
      × ((R.decr (conns_key uid) s).0 ≢ failed)
      × ((R.del (conns_key uid) (R.decr (conns_key uid) s).1).0 ≡ found tt)
  IsAnswered (refreshes uid) s = uid < 2 ^ 63

  abbrev pub AreAnswered : List Call → PresenceStore R → Type 0
  AreAnswered [] p = Unit
  AreAnswered (c ∷ cs) p = IsAnswered c p.redis × AreAnswered cs (call_presence c p)

  -- Redis holds the count of every user; a user without connections may be without a counter.
  abbrev pub IsCounted : Counts → R.State → Type 0
  IsCounted f s =
      (j : ℕ) → j < 2 ^ 63 → coalesce (lawful.int_at (conns_key j) s) (pos 0) ≡ pos (f j)

  -- A counter that a call set, and the others.
  counted :
      (f : Counts) (s t : R.State) (uid n : ℕ) (x : Option ℤ)
      → uid < 2 ^ 63
      → IsCounted f s
      → coalesce x (pos 0) ≡ pos n
      → ((j : String)
          → lawful.int_at j t ≡ (if str_eq j (conns_key uid) then x else lawful.int_at j s))
      → IsCounted (set_count uid n f) t
  counted f s t uid n x small h v at j p =
      rw (at (conns_key j), conns_key_eq j uid p small)
        (elim (Bool-cases (j == uid)) [ inl e ↦ rw e v | inr e ↦ rw e (h j p) ])

  -- What a call should do to the counters and the channel.
  abbrev pub IsStep : Call → Counts → (p q : PresenceStore R) → Type 0
  IsStep c f p q = IsCounted (count c f) q.redis × (q.events ≡ p.events ++ announces c f)

  connects-IsStep :
      (uid : ℕ) (name : String) (f : Counts) (p : PresenceStore R)
      → uid < 2 ^ 63
      → IsCounted f p.redis
      → (R.incr (conns_key uid) p.redis).0 ≡ found (pos (suc (f uid)))
      → IsStep (connects uid name) f p (connect uid name p).1
  unfolding connect
  connects-IsStep uid name f p small h answered = elim (Bool-cases (f uid == 0)) [
    | inl first ↦
        rw (answered, first_is_one (f uid), first)
          (
            counted f p.redis _ uid (suc (f uid)) (some (pos (suc (f uid)))) small h refl (λ j.
                lawful.hset-int _ _ _ j _
                ∙ lawful.expire-int _ j conns_ttl _ (omega arith)
                ∙ lawful.incr-int _ j _ p.redis answered),
            refl,
          )
    | inr more ↦
        rw (answered, first_is_one (f uid), more)
          (
            counted f p.redis _ uid (suc (f uid)) (some (pos (suc (f uid)))) small h refl (λ j.
                lawful.expire-int _ j conns_ttl _ (omega arith)
                ∙ lawful.incr-int _ j _ p.redis answered),
            sym (append-nil p.events),
          )
  ]

  disconnects-IsStep :
      (uid : ℕ) (name : String) (f : Counts) (p : PresenceStore R)
      → uid < 2 ^ 63
      → IsCounted f p.redis
      → (R.decr (conns_key uid) p.redis).0 ≡ found (prev_int (pos (f uid)))
      → (R.del (conns_key uid) (R.decr (conns_key uid) p.redis).1).0 ≡ found tt
      → IsStep (disconnects uid name) f p (disconnect uid name p).1
  unfolding disconnect
  disconnects-IsStep uid name f p small h answered deleted = elim (Bool-cases (ltb 1 (f uid))) [
    | inl more ↦
        rw (answered, prev_is_positive (f uid), more)
          (
            counted f p.redis _ uid (f uid - 1) (some (prev_int (pos (f uid)))) small h
                (ground arith) (λ j. lawful.decr-int _ j _ p.redis answered),
            sym (append-nil p.events),
          )
    | inr last ↦
        rw (answered, prev_is_positive (f uid), last)
          (
            counted f p.redis _ uid (f uid - 1) none small h (ground arith) (λ j.
                lawful.hdel-int _ _ j _
                ∙ lawful.del-int _ j _ deleted
                ∙ ap (λ (v : Option ℤ). if str_eq j (conns_key uid) then none else v)
                    (lawful.decr-int _ j _ p.redis answered)
                ∙ if_twice _ _ _ (str_eq j (conns_key uid))),
            refl,
          )
  ]

  pub call-IsStep :
      (c : Call) (f : Counts) (p : PresenceStore R)
      → IsCounted f p.redis
      → IsAnswered c p.redis
      → IsStep c f p (call_presence c p)
  unfolding refresh
  call-IsStep (connects uid name) f p h (small, up) =
      elim (lawful.incr-answer (conns_key uid) p.redis) [
        | inl down ↦ absurd (up down)
        | inr a ↦
            connects-IsStep uid name f p small h (a ∙ ap (λ z. found (next_int z)) (h uid small))
      ]
  call-IsStep (disconnects uid name) f p h (small, up, deleted) =
      elim (lawful.decr-answer (conns_key uid) p.redis) [
        | inl down ↦ absurd (up down)
        | inr a ↦
            disconnects-IsStep uid name f p small h (a ∙ ap (λ z. found (prev_int z)) (h uid small))
              deleted
      ]
  call-IsStep (refreshes uid) f p h small = (
    λ j q.
        ap (λ (v : Option ℤ). coalesce v (pos 0))
          (lawful.expire-int _ (conns_key j) conns_ttl p.redis (omega arith))
        ∙ h j q,
    sym (append-nil p.events),
  )
