-- ===== src/Redis.antt =====
-- The Redis server that the handlers and the notification service share, as the methods of go-redis
-- that they call and the documented behaviour of those that their results rely on. A call may fail.
-- The time to live of a key is handed to Redis, which may drop a key whose time is over between two
-- calls.
use onyxchat.Base.{
  ℕ, suc, ◌-◌, ◌<◌, String, str_eq, Option, none, some, List, ◌≡◌, ℤ, pos, negsuc, coalesce,
  if◌then◌else◌, ◌==◌, ◌⊎◌,
}

-- A value, redis.Nil, or another error.
pub data Answer {ℓ} (A : Type ℓ) : Type ℓ where
  found : A → Answer A
  missing failed : Answer A

abbrev pub answer_of {ℓ} : {A : Type ℓ} → Option A → Answer A
answer_of none = missing
answer_of (some a) = found a

-- n + 1, n - 1 and n <= 0
abbrev pub next_int : ℤ → ℤ
next_int (pos n) = pos (suc n)
next_int (negsuc n) = if n == 0 then pos 0 else negsuc (n - 1)

abbrev pub prev_int : ℤ → ℤ
prev_int (pos n) = if n == 0 then negsuc 0 else pos (n - 1)
prev_int (negsuc n) = negsuc (suc n)

-- Keys with texts (Set, GetDel), keys with numbers (Set of an int64, Get(…).Int64(), Incr, Decr),
-- hashes (HSet, HDel, HGetAll), and Del and Expire on any key. The number after a value is its time
-- to live in seconds.
pub record Redis : Type 1 where
  pub State : Type 0
  pub set_text : String → String → ℕ → State → Answer (Unit {0}) × State
  pub get_del : String → State → Answer String × State
  pub set_int : String → ℕ → ℕ → State → Answer (Unit {0}) × State
  pub get_int : String → State → Answer ℤ × State
  pub incr : String → State → Answer ℤ × State
  pub decr : String → State → Answer ℤ × State
  pub del : String → State → Answer (Unit {0}) × State
  pub expire : String → ℕ → State → Answer (Unit {0}) × State
  pub hset : String → String → String → State → Answer (Unit {0}) × State
  pub hdel : String → String → State → Answer (Unit {0}) × State
  pub hgetall : String → State → Answer (List (String × String)) × State

-- What a key holds at a moment, and what the calls that succeed make of it.
pub record IsLawful (R : Redis) : Type 0 where
  pub text_at : String → R.State → Option String
  pub int_at : String → R.State → Option ℤ
  pub set_text-text :
      (key value : String) (ttl : ℕ) (s : R.State)
      → (R.set_text key value ttl s).0 ≡ found tt
      → text_at key (R.set_text key value ttl s).1 ≡ some value
  pub get_del-answer :
      (key : String) (s : R.State)
      → ((R.get_del key s).0 ≡ failed)
        ⊎ (((R.get_del key s).0 ≡ answer_of (text_at key s))
            × (text_at key (R.get_del key s).1 ≡ none))
  pub set_int-int :
      (key j : String) (n ttl : ℕ) (s : R.State)
      → (R.set_int key n ttl s).0 ≡ found tt
      → int_at j (R.set_int key n ttl s).1 ≡ (if str_eq j key then some (pos n) else int_at j s)
  pub get_int-answer :
      (key : String) (s : R.State)
      → ((R.get_int key s).0 ≡ failed) ⊎ ((R.get_int key s).0 ≡ answer_of (int_at key s))
  pub get_int-int : (key j : String) (s : R.State) → int_at j (R.get_int key s).1 ≡ int_at j s
  pub del-int :
      (key j : String) (s : R.State)
      → (R.del key s).0 ≡ found tt
      → int_at j (R.del key s).1 ≡ (if str_eq j key then none else int_at j s)
  pub incr-answer :
      (key : String) (s : R.State)
      → ((R.incr key s).0 ≡ failed)
        ⊎ ((R.incr key s).0 ≡ found (next_int (coalesce (int_at key s) (pos 0))))
  pub incr-int :
      (key j : String) (n : ℤ) (s : R.State)
      → (R.incr key s).0 ≡ found n
      → int_at j (R.incr key s).1 ≡ (if str_eq j key then some n else int_at j s)
  pub decr-answer :
      (key : String) (s : R.State)
      → ((R.decr key s).0 ≡ failed)
        ⊎ ((R.decr key s).0 ≡ found (prev_int (coalesce (int_at key s) (pos 0))))
  pub decr-int :
      (key j : String) (n : ℤ) (s : R.State)
      → (R.decr key s).0 ≡ found n
      → int_at j (R.decr key s).1 ≡ (if str_eq j key then some n else int_at j s)
  pub expire-int :
      (key j : String) (ttl : ℕ) (s : R.State)
      → 0 < ttl
      → int_at j (R.expire key ttl s).1 ≡ int_at j s
  pub hset-int :
      (key field value j : String) (s : R.State)
      → int_at j (R.hset key field value s).1 ≡ int_at j s
  pub hdel-int : (key field j : String) (s : R.State) → int_at j (R.hdel key field s).1 ≡ int_at j s
  pub hgetall-int : (key j : String) (s : R.State) → int_at j (R.hgetall key s).1 ≡ int_at j s
