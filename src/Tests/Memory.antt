-- ===== src/Tests/Memory.antt =====
-- A Redis in memory whose calls succeed.
use onyxchat.Base.{
  String, str_eq, Option, none, some, List, [], ◌∷◌, ◌≡◌, ◌≢◌, refl, ap, inr, ℤ, pos, coalesce,
  if◌then◌else◌, eq_iff,
}
use onyxchat.Sql.{delete}
use onyxchat.Redis.{Redis, IsLawful, Answer, found, failed, answer_of, next_int, prev_int}

pub record Memory : Type 0 where
  pub texts : String → Option String
  pub ints : String → Option ℤ
  pub names : List (String × String)

abbrev pub put {ℓ} : {A : Type ℓ} → String → Option A → (String → Option A) → String → Option A
put key value f j = if str_eq j key then value else f j

abbrev pub put_int : String → ℤ → Memory → Answer ℤ × Memory
put_int key n m = (found n, record m { ints = put key (some n) m.ints })

abbrev pub memory : Redis
memory = record {
  State = Memory;
  set_text = λ key value ttl m. (found tt, record m { texts = put key (some value) m.texts });
  get_del = λ key m. (answer_of (m.texts key), record m { texts = put key none m.texts });
  set_int = λ key n ttl m. (found tt, record m { ints = put key (some (pos n)) m.ints });
  get_int = λ key m. (answer_of (m.ints key), m);
  incr = λ key m. put_int key (next_int (coalesce (m.ints key) (pos 0))) m;
  decr = λ key m. put_int key (prev_int (coalesce (m.ints key) (pos 0))) m;
  del = λ key m. (found tt, record m { texts = put key none m.texts; ints = put key none m.ints });
  expire = λ key ttl m. (found tt, m);
  hset = λ key field value m. (found tt, record m { names = (field, value) ∷ m.names });
  hdel = λ key field m. (found tt, record m { names = delete (λ e. str_eq e.0 field) m.names });
  hgetall = λ key m. (found m.names, m);
}

abbrev pub empty : Memory
empty = record { texts = λ key. none; ints = λ key. none; names = [] }

found_int : (m n : ℤ) → found m ≡ found n → m ≡ n
found_int m n e = cc

pub put_same :
    {A : Type 0} (key : String) (value : Option A) (f : String → Option A)
    → put key value f key ≡ value
put_same key value f = rw ((eq_iff key key).1 refl) refl

pub put_int-at :
    (key j : String) (k n : ℤ) (f : String → Option ℤ)
    → found k ≡ found n
    → put key (some k) f j ≡ (if str_eq j key then some n else f j)
put_int-at key j k n f e = ap (λ z. if str_eq j key then some z else f j) (found_int k n e)

abbrev pub memory-IsLawful : IsLawful memory
memory-IsLawful = record {
  text_at = λ key m. m.texts key;
  int_at = λ key m. m.ints key;
  set_text-text = λ key value ttl m e. put_same key (some value) m.texts;
  get_del-answer = λ key m. inr (refl, put_same key none m.texts);
  set_int-int = λ key j n ttl m e. refl;
  get_int-answer = λ key m. inr refl;
  get_int-int = λ key j m. refl;
  del-int = λ key j m e. refl;
  incr-answer = λ key m. inr refl;
  incr-int = λ key j n m e. put_int-at key j _ n m.ints e;
  decr-answer = λ key m. inr refl;
  decr-int = λ key j n m e. put_int-at key j _ n m.ints e;
  expire-int = λ key j ttl m positive. refl;
  hset-int = λ key field value j m. refl;
  hdel-int = λ key field j m. refl;
  hgetall-int = λ key j m. refl;
}

-- What a call finds is no failure.
pub no_failure {ℓ} : {A : Type ℓ} (a : A) → found a ≢ failed
no_failure a e = cc
