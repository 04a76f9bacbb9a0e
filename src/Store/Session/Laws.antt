-- ===== src/Store/Session/Laws.antt =====
-- A transaction that fails leaves the tables as they were.
use onyxchat.Base.{◌≡◌, ◌∙◌, arith, Bool-cases, inl, inr}
use onyxchat.Store.Db.{Db}
use onyxchat.Store.Session.{
  Session, Result, Error, ok, err, M, Statement, transaction, commit, count_call, run, db_error,
  ◌>>=◌, continue,
}

-- Whatever the body of a transaction does, and whichever call fails, a transaction that ends in an
-- error leaves the tables as they were.
pub transaction-atomic {ℓ} :
    {A : Type ℓ} (body : M A) (s : Session) (e : Error)
    → (transaction body s).0 ≡ err e
    → (transaction body s).1.db ≡ s.db
unfolding transaction
transaction-atomic body s e h = ground arith

module _ {ℓ κ} {A B : Type ℓ} (P : Result B × Session → Type κ) where
  -- A step of a block: the driver fails, or the statement gives its result and the block goes on.
  pub run-step :
      (st : Statement A) (f : A → M B) (s : Session) (a : A) (db : Db)
      → st s.now s.db ≡ ok (a, db)
      → P (err db_error, count_call s)
      → P (f a (record (count_call s) { db = db }))
      → P ((run st >>= f) s)
  unfolding run
  run-step st f s a db e failed done = elim (Bool-cases (s.fails s.calls)) [
    | inl h ↦ rw h failed
    | inr h ↦ rw (h, e) done
  ]

module _ {ℓ κ} {A : Type ℓ} (P : Result A × Session → Type κ) where
  pub transaction-step :
      (body : M A) (s : Session)
      → P (err db_error, count_call s)
      → P (commit s.db (body (count_call s)).0 (body (count_call s)).1)
      → P (transaction body s)
  unfolding transaction
  transaction-step body s failed done = elim (Bool-cases (s.fails s.calls)) [
    | inl h ↦ rw h failed
    | inr h ↦ rw h done
  ]

  pub commit-step :
      (before : Db) (a : A) (s : Session)
      → P (err db_error, record (count_call s) { db = before })
      → P (ok a, count_call s)
      → P (commit before (ok a) s)
  commit-step before a s failed done = elim (Bool-cases (s.fails s.calls)) [
    | inl h ↦ rw h failed
    | inr h ↦ rw h done
  ]

-- Code of the store never changes the time.
pub record KeepsNow {ℓ} {A : Type ℓ} (m : M A) : Type ℓ where
  pub same : (s : Session) → (m s).1.now ≡ s.now

module _ {ℓ} {A : Type ℓ} where
  pub run-KeepsNow : (st : Statement A) → KeepsNow (run st)
  unfolding run
  run-KeepsNow st = record { same = λ s. ground arith }

  pub transaction-KeepsNow : (m : M A) → KeepsNow m → KeepsNow (transaction m)
  unfolding transaction
  transaction-KeepsNow m h = record { same = λ s. ground (arith, h.same (count_call s)) }

pub bind-KeepsNow {ℓ κ} :
    {A : Type ℓ} {B : Type κ} (m : M A) (f : A → M B)
    → KeepsNow m
    → ((a : A) → KeepsNow (f a))
    → KeepsNow (m >>= f)
bind-KeepsNow m f h k = record { same = λ s. go s (m s) (h.same s) }
  where
    go :
        (s : Session) (x : Result _ × Session)
        → x.1.now ≡ s.now
        → (continue x.0 f x.1).1.now ≡ s.now
    go s (ok a, t) e = (k a).same t ∙ e
    go s (err e, t) same = same
