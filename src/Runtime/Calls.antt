-- ===== src/Runtime/Calls.antt =====
-- Calls of the store in a row: each commits by itself, and an exception leaves what the calls
-- before it have committed.
use yjdlagent.Errors.{
  Result, ok, err, Exception, agent_error, runtime_error, value_error, key_error, integrity_error,
  attribute_error, type_error, operational_error,
}
use yjdlagent.Store.Schema.{Db}
use yjdlagent.Store.Transaction.{Call}

abbrev pub continue : {A B : Type 0} → Result A × Db → (A → Call B) → Result B × Db
continue (ok a, db) f = f a db
continue (err e, db) f = (err e, db)

infixl 5 ◌>>=◌ ◌>>◌
abbrev pub ◌>>=◌ : {A B : Type 0} → Call A → (A → Call B) → Call B
◌>>=◌ m f db = continue (m db) f

abbrev pub ◌>>◌ : {A B : Type 0} → Call A → Call B → Call B
m >> n = m >>= λ _. n

abbrev pub pure : {A : Type 0} → A → Call A
pure a db = (ok a, db)

abbrev pub raise : {A : Type 0} → Exception → Call A
raise e db = (err e, db)

abbrev pub lift : {A : Type 0} → Result A → Call A
lift r db = (r, db)

-- `with suppress(RuntimeError, sqlite3.OperationalError)`
abbrev pub suppressed : Result (Unit {0}) → Result (Unit {0})
suppressed (ok u) = ok tt
suppressed (err (runtime_error m)) = ok tt
suppressed (err (operational_error b)) = ok tt
suppressed (err (agent_error e)) = err (agent_error e)
suppressed (err (value_error m)) = err (value_error m)
suppressed (err (key_error k)) = err (key_error k)
suppressed (err integrity_error) = err integrity_error
suppressed (err attribute_error) = err attribute_error
suppressed (err type_error) = err type_error

abbrev pub suppress : Call (Unit {0}) → Call (Unit {0})
suppress m db = (suppressed (m db).0, (m db).1)

-- `except Exception: logger.exception(...)`: what was committed stays
abbrev pub logged : {A : Type 0} → Call A → Db → Db
logged m db = (m db).1
