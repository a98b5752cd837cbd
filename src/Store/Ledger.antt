-- ===== src/Store/Ledger.antt =====
-- app/agent/store.py: the event ledger. `append_event` numbers the events of a run and carries the
-- run to its terminal status; `list_events` replays them.
use yjdlagent.Prelude.{
  ℕ, ◌+◌, Bool, Option, none, some, [], ◌∷◌, ◌++◌, String, ◌==◌, ◌&&◌, str_eq, if◌then◌else◌,
}
use yjdlagent.Json.{Json, Fields, text, num, iso, obj, arr, nil, dict, get_field, truthy}
use yjdlagent.Errors.{ok, err, agent_error, runtime_error, integrity_error, run_not_found_error}
use yjdlagent.Table.{first, update, any}
use yjdlagent.Store.Schema.{
  Status, succeeded, failed, cancelled, is_terminal, Run, terminal, Event, has_id, of_run,
}
use yjdlagent.Store.Transaction.{Body, Call, connect}

abbrev pub get_or {ℓ} : {A : Type ℓ} → A → Option A → A
get_or d none = d
get_or d (some a) = a

-- COALESCE(a, b)
abbrev pub coalesce : Option String → Option String → Option String
coalesce none b = b
coalesce (some a) b = some a

-- the dict that is stored and sent
unfoldable pub envelope : ℕ → Run → ℕ → Fields → Json
envelope now run sequence payload = dict (
    ("schemaVersion", text "1.1")
    ∷ ("runId", text run.run_id)
    ∷ ("messageId", text run.message_id)
    ∷ ("sequence", num sequence)
    ∷ ("traceId", text run.trace_id)
    ∷ ("timestamp", iso now)
    ∷ ("payload", obj payload)
    ∷ [])

unfoldable pub status_after : String → Status → Status
status_after event_name status =
    if str_eq event_name "run.completed"
    then succeeded
    else if str_eq event_name "run.failed"
    then failed
    else if str_eq event_name "run.cancelled"
    then cancelled
    else status

-- `canonical_json(run.error) if run.error else None`
abbrev kept_error : Option Json → Option Json
kept_error none = none
kept_error (some e) = if truthy e then some e else none

-- The assignments of UPDATE agent_runs.
unfoldable pub advance : ℕ → String → Fields → Option String → Run → Run
unfolding status_after get_field truthy
advance now event_name payload route run =
    let completed = str_eq event_name "run.completed" in
    let is_failed = str_eq event_name "run.failed" in
    let status = status_after event_name run.status in
    record run {
      last_sequence = run.last_sequence + 1;
      status = status;
      route = coalesce route run.route;
      answer =
          if completed then some (get_or (text "") (get_field "answer" payload)) else run.answer;
      citations =
          if completed then get_or (arr nil) (get_field "citations" payload) else run.citations;
      warnings =
          if completed then get_or (arr nil) (get_field "warnings" payload) else run.warnings;
      error =
          if completed
          then kept_error run.error
          else if is_failed
          then some (get_or (dict []) (get_field "error" payload))
          else kept_error run.error;
      updated_at = now;
      lease_owner = if is_terminal status then none else run.lease_owner;
      lease_until = if is_terminal status then none else run.lease_until;
    }

unfoldable pub event_of : ℕ → Run → String → Fields → Event
event_of now run event_name payload =
    let sequence = run.last_sequence + 1 in
    record {
      run_id = run.run_id;
      sequence = sequence;
      event_name = event_name;
      event_id = (run.run_id, sequence);
      data_json = envelope now run sequence payload;
      created_at = now;
    }

-- PRIMARY KEY (run_id, sequence)
abbrev pub same_event : Event → Event → Bool
same_event e d = of_run e.run_id d && d.sequence == e.sequence

-- INSERT INTO agent_events, then UPDATE agent_runs
unfoldable pub write_event : Run → Event → (Run → Run) → Body Event
write_event run event assign db =
    if any (same_event event) db.events
    then err integrity_error
    else ok (
      event,
      record db {
        events = db.events ++ event ∷ [];
        runs = update (has_id run.run_id) assign db.runs;
      },
    )

-- `_append_event_in_connection` on the row that it read
unfoldable pub append_to_row : ℕ → String → Fields → Option String → Option Run → Body Event
append_to_row now event_name payload route none db = err (agent_error run_not_found_error)
append_to_row now event_name payload route (some run) db =
    if terminal run
    then err (runtime_error "cannot append an event to a terminal run")
    else write_event run (event_of now run event_name payload)
        (advance now event_name payload route) db

unfoldable pub append_event_in_connection :
    ℕ → String → String → Fields → Option String → Body Event
unfolding append_to_row write_event
append_event_in_connection now run_id event_name payload route db =
    append_to_row now event_name payload route (first (has_id run_id) db.runs) db

unfoldable pub append_event : ℕ → String → String → Fields → Option String → Call Event
unfolding append_event_in_connection connect
append_event now run_id event_name payload route =
    connect (append_event_in_connection now run_id event_name payload route)
