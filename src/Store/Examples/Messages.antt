-- ===== src/Store/Examples/Messages.antt =====
-- Events and messages of the store on small inputs.
use yjdlagent.Prelude.{◌≡◌, refl, none, some}
use yjdlagent.Json.{end}
use yjdlagent.Errors.{err, agent_error, message_conflict_error}
use yjdlagent.Table.{first}
use yjdlagent.Store.Schema.{Run, empty_db, has_id}
use yjdlagent.Store.Create.{create_or_attach}
use yjdlagent.Store.Ledger.{append_event}
use yjdlagent.Store.Trace.{execute}
use yjdlagent.Store.Trace.Invariant.{execute-WellFormed}
use yjdlagent.Store.Trace.Rows.{Follows}
use yjdlagent.Store.Trace.Appending.{appended, append_event-appended}
use yjdlagent.Store.Trace.Resending.{create_or_attach-resent}
use yjdlagent.Store.Examples.{question, two_runs, finished, cancelled_run, ends_cancelled}

-- the first run is known and open
append_event-appended_example :
    append_event 1800000 "run1" "run.cancelled" end none (execute empty_db two_runs)
    ≡ appended 1800000 "run.cancelled" end none
        (first (has_id "run1") (execute empty_db two_runs).runs)
        (execute empty_db two_runs)
append_event-appended_example =
    append_event-appended 1800000 "run1" "run.cancelled" end none (execute empty_db two_runs)
      (execute-WellFormed two_runs)

-- the cancelled message is sent again with another text, while the queue is full
create_or_attach-resent_example :
    (b : Run) × Follows cancelled_run b
    × (first (has_id "run1") (execute (execute empty_db finished) two_runs).runs ≡ some b)
    × (create_or_attach 50000000 "run9"
          (record question { request_hash = "h9" })
          (some 1)
          (execute (execute empty_db finished) two_runs)
        ≡ (err (agent_error message_conflict_error), execute (execute empty_db finished) two_runs))
create_or_attach-resent_example =
    create_or_attach-resent two_runs (execute empty_db finished) "run1" cancelled_run 50000000
      "run9" (record question { request_hash = "h9" }) (some 1) (execute-WellFormed finished)
      ends_cancelled refl
