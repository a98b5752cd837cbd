-- ===== src/Store/Operations/Settle.antt =====
-- What a transaction's body says of the tables holds of the call.
use yjdlagent.Prelude.{Bool}
use yjdlagent.Errors.{Result, ok, err}
use yjdlagent.Store.Schema.{Db}
use yjdlagent.Store.Transaction.{settle}
use yjdlagent.Store.Change.{Change, stays}

-- What the outcome of a transaction's body says of the tables.
abbrev pub After : {A : Type 0} → Bool → Db → Result (A × Db) → Type 0
After grows db (ok (a, db')) = Change grows db.runs db.events db'.runs db'.events
After grows db (err e) = Unit

pub settle-Change :
    {A : Type 0} (grows : Bool) (db : Db) (r : Result (A × Db))
    → After grows db r
    → Change grows db.runs db.events (settle db r).1.runs (settle db r).1.events
settle-Change grows db (ok (a, db')) h = h
settle-Change grows db (err e) h = stays
