-- ===== src/Store/Session.antt =====
-- Statements that the driver runs on the database, any of which may fail. A session holds the
-- database, the time that NOW() returns, and for each call of the driver, counted from the start,
-- whether it fails; a failed scan of a result counts as a failure of its statement.
pub mod Laws
use onyxchat.Base.{ℕ, suc, Bool, Option, none, some, if◌then◌else◌}
use onyxchat.Store.Db.{Db}

-- What a store method returns for an error. `db_error` is any error of the driver.
pub data Error : Type 0 where
  user_not_found invalid_invite_code username_taken : Error
  contact_not_found contact_exists already_deleted : Error
  message_not_found invite_exists invite_not_found : Error
  no_rows unique_violation db_error : Error

pub data Result {ℓ} (A : Type ℓ) : Type ℓ where
  ok : A → Result A
  err : Error → Result A

pub record Session : Type 0 where
  pub db : Db
  pub now : ℕ
  pub fails : ℕ → Bool
  pub calls : ℕ

abbrev pub M {ℓ} : Type ℓ → Type ℓ
M A = Session → Result A × Session

-- A statement is refused by a constraint, or gives a result and the new tables.
abbrev pub Statement {ℓ} : Type ℓ → Type ℓ
Statement A = ℕ → Db → Result (A × Db)

abbrev pub count_call : Session → Session
count_call s = record s { calls = suc s.calls }

module _ {ℓ} {A : Type ℓ} where
  abbrev pub pure : A → M A
  pure a s = (ok a, s)

  abbrev pub raise : Error → M A
  raise e s = (err e, s)

  abbrev pub settle : Session → Result (A × Db) → Result A × Session
  settle s (ok (a, db)) = (ok a, record s { db = db })
  settle s (err e) = (err e, s)

  -- `db.Query`, `db.QueryRow`, `db.Exec` and the same of a transaction.
  unfoldable pub run : Statement A → M A
  run statement s =
      if s.fails s.calls
      then (err db_error, count_call s)
      else settle (count_call s) (statement s.now s.db)

  -- `QueryRow(…).Scan(…)` on a result that may be empty.
  abbrev pub one_row : Option A → Result A
  one_row none = err no_rows
  one_row (some a) = ok a

  -- A query that changes no table.
  abbrev pub beside : Db → Result A → Result (A × Db)
  beside db (ok a) = ok (a, db)
  beside db (err e) = err e

  abbrev pub read_only : (Db → Result A) → Statement A
  read_only f now db = beside db (f db)

  -- `errors.Is(err, …)` on the error of a call.
  abbrev pub on_error : (Error → Error) → Result A → Result A
  on_error f (ok a) = ok a
  on_error f (err e) = err (f e)

  -- `Begin`, the body, `Commit`; the deferred `Rollback` undoes the body on every other way out.
  abbrev pub commit : Db → Result A → M A
  commit before (ok a) s =
      if s.fails s.calls
      then (err db_error, record (count_call s) { db = before })
      else (ok a, count_call s)
  commit before (err e) s = (err e, record s { db = before })

  unfoldable pub transaction : M A → M A
  transaction body s =
      if s.fails s.calls
      then (err db_error, count_call s)
      else (let (r, s') = body (count_call s) in commit s.db r s')

module _ {ℓ κ} {A : Type ℓ} {B : Type κ} where
  abbrev pub continue : Result A → (A → M B) → M B
  continue (ok a) f s = f a s
  continue (err e) f s = (err e, s)

  infixl 10 ◌>>=◌ ◌>>◌
  abbrev pub ◌>>=◌ : M A → (A → M B) → M B
  ◌>>=◌ m f s = let (r, s') = m s in continue r f s'

  abbrev pub ◌>>◌ : M A → M B → M B
  ◌>>◌ m n = m >>= λ _. n
