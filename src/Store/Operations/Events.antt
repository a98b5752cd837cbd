-- ===== src/Store/Operations/Events.antt =====
-- Appending an event makes one of the four changes.
use yjdlagent.Store.Operations.Settle.{After, settle-Change}
use yjdlagent.Prelude.{
  false, ℕ, ◌≡◌, refl, Option, none, some, String, Bool-cases, inl, inr, eq_iff,
}
use yjdlagent.Json.{Fields}
use yjdlagent.Table.{first, any}
use yjdlagent.Table.Laws.{first_has}
use yjdlagent.Store.Schema.{Run, terminal, has_id, Db}
use yjdlagent.Store.Ledger.{
  event_of, same_event, write_event, append_to_row, append_event_in_connection, append_event,
}
use yjdlagent.Store.Change.{Change, appends}

append_to_row-After :
    (now : ℕ) (k event_name : String) (payload : Fields) (route : Option String) (o : Option Run)
    (db : Db)
    → first (has_id k) db.runs ≡ o
    → After false db (append_to_row now event_name payload route o db)
unfolding append_to_row write_event
append_to_row-After now k event_name payload route none db e = tt
append_to_row-After now k event_name payload route (some run) db e =
    elim (Bool-cases (terminal run)) [
      | inl t ↦ rw t tt
      | inr n ↦
          rw n
            (elim (Bool-cases (any (same_event (event_of now run event_name payload)) db.events)) [
              | inl c ↦ rw c tt
              | inr f ↦ rw f (
                  appends now event_name payload route run
                    (rw (← (eq_iff run.run_id k).0 (first_has (has_id k) db.runs e)) at e) n)
            ])
    ]

pub append_event_in_connection-After :
    (now : ℕ) (k event_name : String) (payload : Fields) (route : Option String) (db : Db)
    → After false db (append_event_in_connection now k event_name payload route db)
unfolding append_event_in_connection
append_event_in_connection-After now k event_name payload route db =
    append_to_row-After now k event_name payload route (first (has_id k) db.runs) db refl

pub append_event-Change :
    (now : ℕ) (k event_name : String) (payload : Fields) (route : Option String) (db : Db)
    → Change false db.runs db.events
        (append_event now k event_name payload route db).1.runs
        (append_event now k event_name payload route db).1.events
unfolding append_event
append_event-Change now k event_name payload route db =
    settle-Change false db (append_event_in_connection now k event_name payload route db)
      (append_event_in_connection-After now k event_name payload route db)
