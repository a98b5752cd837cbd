-- ===== src/Store/Operations/Committing.antt =====
-- Completing a run and saving a memory make one of the four changes.
use yjdlagent.Store.Operations.Settle.{After, settle-Change}
use yjdlagent.Store.Operations.Events.{append_event_in_connection-After}
use yjdlagent.Prelude.{false, ℕ, ◌≡◌, refl, ◌∙◌, Option, none, some, String, arith}
use yjdlagent.Json.{Json}
use yjdlagent.Errors.{Result, ok, err}
use yjdlagent.Table.{first}
use yjdlagent.Store.Schema.{scope_of, Run, Scope, has_id, Db}
use yjdlagent.Store.Memory.{save_in_connection, save_conversation_memory}
use yjdlagent.Store.Ledger.{append_event_in_connection}
use yjdlagent.Store.Commit.{
  Outcome, commit_state_in_connection, completed_payload, complete_row, complete_run_with_memory,
}
use yjdlagent.Store.Change.{Change, stays}

-- Saving a memory and committing a state leave runs and events alone.
save_in_connection-runs :
    (now : ℕ) (s : Scope) (q a : String) (route : Option String) (m : Option Json) (limit : ℕ)
    (k : Option String) (db : Db)
    → ((save_in_connection now s q a route m limit k db).runs ≡ db.runs)
      × ((save_in_connection now s q a route m limit k db).events ≡ db.events)
unfolding save_in_connection
save_in_connection-runs now s q a route m limit k db = ground arith

pub save_conversation_memory-Change :
    (now : ℕ) (s : Scope) (q a : String) (route : Option String) (m : Option Json) (limit : ℕ)
    (k : Option String) (db : Db)
    → Change false db.runs db.events
        (save_conversation_memory now s q a route m limit k db).1.runs
        (save_conversation_memory now s q a route m limit k db).1.events
unfolding save_conversation_memory
save_conversation_memory-Change now s q a route m limit k db =
    let (runs, events) = save_in_connection-runs now s q a route m limit k db in
    rw (runs, events) stays

After-same :
    {A : Type 0} (db db₂ : Db) (r : Result (A × Db))
    → db₂.runs ≡ db.runs
    → db₂.events ≡ db.events
    → After false db₂ r
    → After false db r
After-same db db₂ (ok (a, db')) e f h = rw (← e, ← f) h
After-same db db₂ (err x) e f h = tt

After-commit :
    (now : ℕ) (k : String) (o : Outcome) (db saved : Db) (r : Result (Unit × Db))
    → ((u : Unit {0}) (committed : Db)
        → r ≡ ok (u, committed)
        → (committed.runs ≡ db.runs) × (committed.events ≡ db.events))
    → After false db (elim r [
      | err e ↦ err e
      | ok (u, committed) ↦
          append_event_in_connection now k "run.completed" (completed_payload o) none committed
    ])
After-commit now k o db saved (err e) h = tt
After-commit now k o db saved (ok (u, committed)) h =
    let (runs, events) = h u committed refl in
    After-same db committed _ runs events
      (append_event_in_connection-After now k "run.completed" (completed_payload o) none committed)

commit_state-runs :
    (now : ℕ) (r : Run) (state : Option Json) (db : Db) (u : Unit {0}) (committed : Db)
    → commit_state_in_connection now r state db ≡ ok (u, committed)
    → (committed.runs ≡ db.runs) × (committed.events ≡ db.events)
unfolding commit_state_in_connection
commit_state-runs now r none db u committed e = ground arith
commit_state-runs now r (some s) db u committed e = ground arith

complete_row-After :
    (now : ℕ) (k : String) (o : Outcome) (limit : ℕ) (state : Option Json) (row : Option Run)
    (db : Db)
    → After false db (complete_row now k o limit state row db)
unfolding complete_row
complete_row-After now k o limit state none db = tt
complete_row-After now k o limit state (some r) db =
    let saved =
      save_in_connection now (scope_of r) o.user_query o.assistant_answer o.route o.map_summary
        limit (some k) db in
    let (runs, events) =
      save_in_connection-runs now (scope_of r) o.user_query o.assistant_answer o.route o.map_summary
        limit (some k) db in
    After-commit now k o db saved (commit_state_in_connection now r state saved) (λ u committed e.
      let (runs', events') = commit_state-runs now r state saved u committed e in
      (runs' ∙ runs, events' ∙ events))

pub complete_run_with_memory-Change :
    (now : ℕ) (k : String) (o : Outcome) (limit : ℕ) (state : Option Json) (db : Db)
    → Change false db.runs db.events
        (complete_run_with_memory now k o limit state db).1.runs
        (complete_run_with_memory now k o limit state db).1.events
unfolding complete_run_with_memory
complete_run_with_memory-Change now k o limit state db =
    settle-Change false db (complete_row now k o limit state (first (has_id k) db.runs) db)
      (complete_row-After now k o limit state (first (has_id k) db.runs) db)
