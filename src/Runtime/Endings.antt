-- ===== src/Runtime/Endings.antt =====
-- app/agent/runtime.py: `start_run`, `_fail_run`, `_complete_run`, `cancel_run`,
-- `_complete_with_answer_fallback`, and how `_execute` ends a run and closes its quota.
use yjdlagent.Prelude.{ℕ, suc, Bool, true, none, some, List, [], ◌∷◌, String, ◌==◌, if◌then◌else◌}
use yjdlagent.Json.{Json, Fields, text, num, fields}
use yjdlagent.Errors.{AgentError, to_dict, Result, ok, err, key_error}
use yjdlagent.Store.Schema.{Db, Run, Event, ToolStatus, terminal}
use yjdlagent.Store.Transaction.{Call}
use yjdlagent.Store.Lease.{release_lease}
use yjdlagent.Store.Ledger.{append_event}
use yjdlagent.Store.Replay.{ToolCall, get_run, get_run_unscoped, pending_tool_calls}
use yjdlagent.Store.Metrics.{record_tool_completed}
use yjdlagent.Store.Commit.{Outcome, complete_run_with_memory}
use yjdlagent.Runtime.Calls.{◌>>=◌, ◌>>◌, pure, raise, lift, suppress, logged}

abbrev pub started_payload : Fields
started_payload = fields (("status", text "RUNNING") ∷ [])

-- `if current.last_sequence == 0: append_event(run_id, "run.started", ...)`
unfoldable pub start_if_new : ℕ → Run → Call (Unit {0})
unfolding append_event
start_if_new now current =
    if current.last_sequence == 0
    then append_event now current.run_id "run.started" started_payload none >> pure tt
    else pure tt

abbrev pub tool_failed_payload : String → String → Fields
tool_failed_payload tool_call_id tool_name = fields (
    ("toolCallId", text tool_call_id)
    ∷ ("toolName", text tool_name)
    ∷ ("status", text "FAILED")
    ∷ ("durationMs", num 0)
    ∷ [])

-- pending["toolName"]
abbrev pub tool_name_of : ToolCall → Result String
tool_name_of c = elim c.tool_name [ some name ↦ ok name | none ↦ err (key_error "toolName") ]

-- the loop over the pending calls, from the n-th reading of the clock on
unfoldable pub fail_pending : (ℕ → ℕ) → ℕ → String → String → List ToolCall → Call (Unit {0})
unfolding record_tool_completed append_event
fail_pending clock n run_id code [] = pure tt
fail_pending clock n run_id code (c ∷ cs) =
    suppress
      (record_tool_completed (clock n) run_id c.tool_call_id ToolStatus.failed 0 0 (some code))
    >> lift (tool_name_of c)
    >>= λ name.
        append_event (clock (suc n)) run_id "tool.completed"
          (tool_failed_payload c.tool_call_id name) none
        >> fail_pending clock (suc (suc n)) run_id code cs

abbrev pub failed_payload : AgentError → Fields
failed_payload error = fields (("status", text "FAILED") ∷ ("error", to_dict error) ∷ [])

-- the body of `if not current.terminal`, whose last append reads the clock for the last time
unfoldable pub fail_open : (ℕ → ℕ) → ℕ → String → AgentError → Run → Call (Unit {0})
unfolding start_if_new fail_pending pending_tool_calls append_event
fail_open clock last run_id error current db =
    (start_if_new (clock 0) current
        >> (λ db'. fail_pending clock 1 run_id error.code (pending_tool_calls run_id db') db')
        >> append_event last run_id "run.failed" (failed_payload error) none
        >> pure tt)
      db

unfoldable pub fail_current : (ℕ → ℕ) → ℕ → String → AgentError → Result Run → Call (Unit {0})
unfolding fail_open
fail_current clock last run_id error (err e) = raise e
fail_current clock last run_id error (ok current) =
    if terminal current then pure tt else fail_open clock last run_id error current

-- `_fail_run`, which raises nothing
unfoldable pub fail_run : (ℕ → ℕ) → ℕ → String → AgentError → Db → Db
unfolding fail_current get_run_unscoped
fail_run clock last run_id error db =
    logged (fail_current clock last run_id error (get_run_unscoped run_id db)) db

-- `cancel_run` of a run that no task of this process executes
abbrev pub cancelled_payload : String → Fields
cancelled_payload reason = fields (("status", text "CANCELLED") ∷ ("reason", text reason) ∷ [])

unfoldable pub cancel_open : (ℕ → ℕ) → String → Run → Call (Unit {0})
unfolding start_if_new append_event
cancel_open clock reason run =
    start_if_new (clock 0) run
    >> append_event (clock 1) run.run_id "run.cancelled" (cancelled_payload reason) none
    >> pure tt

unfoldable pub cancel_run : (ℕ → ℕ) → String → String → String → String → Call Run
unfolding get_run cancel_open
cancel_run clock run_id tenant_id user_id reason db =
    (lift (get_run run_id tenant_id user_id db) >>= λ run.
    if terminal run
    then pure run
    else cancel_open clock reason run >> λ db'. (get_run run_id tenant_id user_id db', db'))
      db

-- the handler of `CancelledError` in `_execute`
unfoldable pub on_cancelled : (ℕ → ℕ) → Bool → Bool → String → String → Run → Db → Db
unfolding release_lease cancel_open get_run_unscoped
on_cancelled clock shutdown lease_lost worker_id reason run db =
    if shutdown
    then (release_lease run.run_id worker_id true (some run.lease_generation) (clock 0) db).1
    else if lease_lost
    then db
    else logged
        (λ db'.
          (lift (get_run_unscoped run.run_id db') >>= λ current.
          if terminal current then pure tt else cancel_open clock reason current)
            db')
        db

-- `_complete_run`, whose state is built by `build_committed_state`
unfoldable pub complete_run : ℕ → String → Outcome → Json → Call Event
unfolding complete_run_with_memory
complete_run now run_id o state = complete_run_with_memory now run_id o 12 (some state)

-- the `answer.delta` events of an answer
unfoldable pub send_deltas : (ℕ → ℕ) → ℕ → String → List String → Call (Unit {0})
unfolding append_event
send_deltas clock n run_id [] = pure tt
send_deltas clock n run_id (p ∷ ps) =
    append_event (clock n) run_id "answer.delta" (fields (("content", text p) ∷ [])) none
    >> send_deltas clock (suc n) run_id ps
