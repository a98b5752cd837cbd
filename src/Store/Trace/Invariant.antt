-- ===== src/Store/Trace/Invariant.antt =====
-- What holds of the runs and events after any calls.
use yjdlagent.Prelude.{false, ◌≡◌, refl, List, [], ◌∷◌, arith}
use yjdlagent.Table.{select, row_count, first}
use yjdlagent.Store.Schema.{Db, empty_db}
use yjdlagent.Store.Metrics.{
  record_tool_started, record_tool_completed, record_orchestration, record_sse_stream, record_stage,
  record_quota_settlement,
}
use yjdlagent.Store.Change.{WellFormed, Change, stays}
use yjdlagent.Store.Change.Keeps.{Change-WellFormed}
use yjdlagent.Store.Operations.Events.{append_event-Change}
use yjdlagent.Store.Operations.Creation.{create_or_attach-Change}
use yjdlagent.Store.Operations.Leasing.{
  claim_next_run-Change, renew_lease-Change, release_lease-Change,
}
use yjdlagent.Store.Operations.Committing.{
  complete_run_with_memory-Change, save_conversation_memory-Change,
}
use yjdlagent.Store.Trace.{
  is_create, Op, create, claim, renew, release, append, complete, remember, tool_started,
  tool_completed, orchestrated, sse_ended, staged, settled, step, execute,
}

-- Calls that write metrics leave runs and events alone.
record SameTables (db db' : Db) : Type 0 where
  runs : db'.runs ≡ db.runs
  events : db'.events ≡ db.events

metrics : (db db' : Db) → SameTables db db' → Change false db.runs db.events db'.runs db'.events
metrics db db' h = rw (h.runs, h.events) stays

pub step-Change :
    (op : Op) (db : Db)
    → WellFormed db.runs db.events
    → Change (is_create op) db.runs db.events (step op db).runs (step op db).events
unfolding step
step-Change (create now k s most) db w = create_or_attach-Change now k s most db
step-Change (claim wk seconds now later) db w =
    claim_next_run-Change wk seconds now later db w.unique_ids
step-Change (renew k wk seconds g now later) db w = renew_lease-Change k wk seconds g now later db
step-Change (release k wk requeue g now) db w = release_lease-Change k wk requeue g now db
step-Change (append now k name payload route) db w = append_event-Change now k name payload route db
step-Change (complete now k o limit state) db w =
    complete_run_with_memory-Change now k o limit state db
step-Change (remember now s q a route m limit k) db w =
    save_conversation_memory-Change now s q a route m limit k db
step-Change (tool_started digest now k call name arguments) db w =
    metrics db (record_tool_started digest now k call name arguments db).1
      (unfold record_tool_started in ground arith)
step-Change (tool_completed now k call status ms retries code) db w =
    metrics db (record_tool_completed now k call status ms retries code db).1
      (unfold record_tool_completed in ground arith)
step-Change (orchestrated now k ms status code) db w =
    metrics db (record_orchestration now k ms status code db).1
      (unfold record_orchestration in ground arith)
step-Change (sse_ended now k from last ms bytes status) db w =
    metrics db (record_sse_stream now k from last ms bytes status db).1
      (unfold record_sse_stream in ground arith)
step-Change (staged now k span) db w =
    metrics db (record_stage now k span db).1 (unfold record_stage in ground arith)
step-Change (settled row) db w =
    metrics db (record_quota_settlement row db).1 (unfold record_quota_settlement in ground arith)

pub step-WellFormed :
    (op : Op) (db : Db)
    → WellFormed db.runs db.events
    → WellFormed (step op db).runs (step op db).events
step-WellFormed op db w = Change-WellFormed (step-Change op db w) w

pub execute_from-WellFormed :
    (ops : List Op) (db : Db)
    → WellFormed db.runs db.events
    → WellFormed (execute db ops).runs (execute db ops).events
unfolding execute
execute_from-WellFormed [] db w = w
execute_from-WellFormed (op ∷ ops) db w =
    execute_from-WellFormed ops (step op db) (step-WellFormed op db w)

pub empty-WellFormed : WellFormed empty_db.runs empty_db.events
unfolding row_count first select
empty-WellFormed = record {
  unique_ids = λ k. omega arith;
  unique_messages = λ s m. omega arith;
  ledger = λ k. refl;
  endings = λ k. refl;
  sound = tt;
  depends_back = tt;
}

-- After any calls from an empty store, run ids are unique, a message has at most one run, the
-- events of every run are numbered 1 to its last_sequence in the order of the table, a run is
-- terminal exactly when one ending event stands in its ledger (and never more than one does), a
-- terminal run has no lease, and every run depends on none or on an older one.
pub execute-WellFormed :
    (ops : List Op) → WellFormed (execute empty_db ops).runs (execute empty_db ops).events
execute-WellFormed ops = execute_from-WellFormed ops empty_db empty-WellFormed
