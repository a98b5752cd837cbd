-- ===== src/Runtime/Examples.antt =====
-- The runtime on small inputs, and the theorems about it at such inputs.
use yjdlagent.Prelude.{
  ◌-◌, ◌*◌, drop, ◌+◌, ◌≤◌, ◌<◌, ◌≡◌, refl, true, false, none, some, List, [], ◌∷◌, All, is_some,
}
use yjdlagent.Json.{dict, fields, text}
use yjdlagent.Errors.{AgentError, no_details, ok, err, agent_error}
use yjdlagent.Table.{select, first}
use yjdlagent.Text.{len}
use yjdlagent.Store.Schema.{Event, of_run, Run, Db, failed, empty_db, has_id}
use yjdlagent.Store.Create.{Submission, create_or_attach, new_run}
use yjdlagent.Store.Replay.{pending_tool_calls}
use yjdlagent.Store.Trace.{Op, append, create, execute, step}
use yjdlagent.Store.Trace.Invariant.{empty-WellFormed, execute-WellFormed}
use yjdlagent.Store.Ledger.{append_event, advance, event_of, envelope}
use yjdlagent.Quota.{reserve, no_quota, quota_exceeded}
use yjdlagent.Runtime.Admission.{World, Reading, start_run}
use yjdlagent.Runtime.Answer.{pieces, joined, joined-pieces}
use yjdlagent.Runtime.Endings.{fail_run, start_if_new}
use yjdlagent.Runtime.Refusals.{failed_row, start_run-refused}
use yjdlagent.Clock.{second, iso_le}
use yjdlagent.Store.Replay.{list_events}
use yjdlagent.Runtime.Stream.Complete.{list_events_complete}
use yjdlagent.Runtime.Failing.{EndsAs, fail_run-ends}

one_piece : pieces "short" ≡ "short" ∷ []
unfolding pieces
one_piece = refl

joined-pieces_example :
    (joined (pieces "short") ≡ "short") × All (λ p. (0 < len p) × (len p ≤ 80)) (pieces "short")
joined-pieces_example = joined-pieces "short"

abbrev greeting : Submission
greeting = record {
  scope = record { tenant_id = "t"; user_id = "u"; conversation_id = "c" };
  message_id = "m1";
  trace_id = "trace1";
  request = dict (("query", text "hello") ∷ []);
  request_hash = "h1";
}

-- a tenant whose daily tokens do not allow for one run
abbrev monday : Reading
monday = record {
  limits = record {
    user_rate_per_minute = 5;
    tenant_rate_per_minute = 5;
    tenant_active_runs = 2;
    tenant_queue_runs = 2;
    run_max_tokens = 100;
    tenant_daily_tokens = 50;
    tenant_daily_budget = 0;
  };
  max_queued_runs = 5;
  created_at = 1500000;
  failed_at = 1600000;
  run_uuid = "run1";
  reservation_uuid = "r1";
  monotonic = 1000;
  day = "2026-01-01";
}

abbrev first_run : Run
first_run = new_run 1500000 "run1" greeting none 0

abbrev nothing_yet : World
nothing_yet = record { db = empty_db; quota = no_quota; reservation_ids = [] }

abbrev after_first : Db
after_first = (create_or_attach 1500000 "run1" greeting (some 5) empty_db).1

created_first :
    create_or_attach 1500000 "run1" greeting (some 5) empty_db ≡ (ok (first_run, true), after_first)
unfolding create_or_attach new_run
created_first = refl

refused_first :
    reserve monday.limits 1000 "2026-01-01" "r1" first_run.tenant_id first_run.user_id
      first_run.run_id no_quota
    ≡ (
      err (agent_error quota_exceeded),
      (reserve monday.limits 1000 "2026-01-01" "r1" "t" "u" "run1" no_quota).1,
    )
unfolding reserve new_run
refused_first = refl

start_run-refused_example :
    let w' = (start_run monday "trace1" greeting nothing_yet).1 in
    let after = record nothing_yet { db = execute w'.db [] } in
    ((start_run monday "trace1" greeting nothing_yet).0 ≡ err (agent_error quota_exceeded))
    × (w'.reservation_ids ≡ [])
    × ((failed_row 1600000 first_run).status ≡ failed)
    × (start_run monday "trace2" greeting after ≡ (ok (failed_row 1600000 first_run, false), after))
start_run-refused_example =
    start_run-refused monday monday "trace1" "trace2" greeting nothing_yet nothing_yet []
      empty-WellFormed created_first refused_first

model_failed : AgentError
model_failed = record {
  code = "RUN_TIMEOUT";
  message = "too long";
  status_code = 500;
  retryable = true;
  details = no_details;
  retry_count = 0;
}

-- a run with a call of a tool under way
abbrev under_way : List Op
under_way =
    create 1500000 "run1" greeting (some 5)
    ∷ append 1600000 "run1" "tool.started"
        (fields (("toolCallId", text "c1") ∷ ("toolName", text "map") ∷ [])) none
    ∷ []

abbrev tool_run : Run
tool_run = record first_run { last_sequence = 1; updated_at = 1600000 }

tool_run_there : first (has_id "run1") (execute empty_db under_way).runs ≡ some tool_run
unfolding execute step create_or_attach append_event first new_run advance
tool_run_there = refl

tool_names :
    All
      (λ c. is_some c.tool_name ≡ true)
      (pending_tool_calls "run1" (start_if_new 1700000 tool_run (execute empty_db under_way)).1)
unfolding execute step create_or_attach append_event first new_run advance pending_tool_calls
    start_if_new event_of envelope
tool_names = (refl, tt)

fail_run-ends_example :
    (b : Run) × (first
        (has_id "run1")
        (fail_run (λ n. 1700000 + n) 1800000 "run1" model_failed (execute empty_db under_way)).runs
      ≡ some b)
    × EndsAs false model_failed tool_run b
unfolding new_run
fail_run-ends_example =
    fail_run-ends (λ n. 1700000 + n) 1800000 "run1" model_failed (execute empty_db under_way)
      (execute-WellFormed under_way) tool_run_there tool_names

under_way_kept :
    All
      (λ (e : Event).
        of_run "run1" e ≡ true → iso_le (1800000 - 604800 * second) e.created_at ≡ true)
      (execute empty_db under_way).events
unfolding execute step create_or_attach append_event event_of iso_le
under_way_kept = ((λ _. refl), tt)

list_events_complete_example :
    list_events 604800 1800000 "run1" 0 (execute empty_db under_way)
    ≡ ok (drop 0 (select (of_run "run1") (execute empty_db under_way).events))
list_events_complete_example =
    list_events_complete 604800 1800000 "run1" 0 (execute empty_db under_way)
      (execute-WellFormed under_way) tool_run_there under_way_kept
