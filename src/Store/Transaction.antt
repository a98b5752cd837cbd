-- ===== src/Store/Transaction.antt =====
-- app/agent/store.py: `_connect` and `_write_with_retry`. The body of a transaction reads and
-- changes the database and may raise; `connect` commits, or rolls back and raises again.
pub mod Retry
use yjdlagent.Prelude.{ℕ, zero, suc, ◌*◌, ◌^◌, Bool, true, false, List, [], ◌∷◌, if◌then◌else◌}
use yjdlagent.Errors.{
  Result, ok, err, operational_error, agent_error, runtime_error, value_error, key_error,
  integrity_error, attribute_error, type_error,
}
use yjdlagent.Store.Schema.{Db}

-- What stands inside `with self._connect() as connection`.
abbrev pub Body : Type 0 → Type 0
Body A = Db → Result (A × Db)

infixl 5 ◌>>=◌
abbrev pub ◌>>=◌ : {A B : Type 0} → Body A → (A → Body B) → Body B
◌>>=◌ m f db = elim (m db) [ err e ↦ err e | ok (a, db') ↦ f a db' ]

-- A call of a method of the store: the database afterwards, also beside an exception.
abbrev pub Call : Type 0 → Type 0
Call A = Db → Result A × Db

-- `connection.commit()`, or `connection.rollback()` and `raise`
abbrev pub settle : {A : Type 0} → Db → Result (A × Db) → Result A × Db
settle db (ok (a, db')) = (ok a, db')
settle db (err e) = (err e, db)

unfoldable pub connect : {A : Type 0} → Body A → Call A
connect body db = settle db (body db)

-- `is_sqlite_busy_error` of the exception that an attempt raised, if it raised one.
abbrev pub is_busy : {A : Type 0} → Result A → Bool
is_busy (ok a) = false
is_busy (err (agent_error e)) = false
is_busy (err (runtime_error m)) = false
is_busy (err (value_error m)) = false
is_busy (err (key_error k)) = false
is_busy (err integrity_error) = false
is_busy (err attribute_error) = false
is_busy (err type_error) = false
is_busy (err (operational_error b)) = b

-- One attempt. `locked` says at which attempts the database is locked by another connection, so
-- that the operation raises before it has changed anything.
abbrev pub attempt_once : {A : Type 0} → (ℕ → Bool) → ℕ → Call A → Call A
attempt_once locked attempt operation db =
    if locked attempt then (err (operational_error true), db) else operation db

-- `for attempt in range(attempts + 1)`, with `left` attempts after this one. Returns the delays
-- that were slept, in milliseconds, too.
unfoldable pub retry_from :
    {A : Type 0} → ℕ → ℕ → (ℕ → Bool) → ℕ → Call A → Db → (Result A × Db) × List ℕ
retry_from zero attempt locked base operation db = (attempt_once locked attempt operation db, [])
retry_from (suc left) attempt locked base operation db =
    let outcome = attempt_once locked attempt operation db in
    let again = retry_from left (suc attempt) locked base operation outcome.1 in
    if is_busy outcome.0 then (again.0, (base * 2 ^ attempt) ∷ again.1) else (outcome, [])

unfoldable pub write_with_retry :
    {A : Type 0} → ℕ → (ℕ → Bool) → ℕ → Call A → Db → (Result A × Db) × List ℕ
unfolding retry_from
write_with_retry attempts locked base operation db = retry_from attempts 0 locked base operation db
