-- ===== src/Runtime/Failing.antt =====
-- app/agent/runtime.py: `_fail_run` ends every open run.
use yjdlagent.Prelude.{
  ℕ, suc, ◌≡◌, refl, ◌∙◌, Bool, true, false, Option, none, some, List, [], ◌∷◌, String, All, arith,
  Bool-cases, Option-cases, inl, inr, is_some, eq_iff, ◌==◌,
}
use yjdlagent.Json.{Fields}
use yjdlagent.Errors.{AgentError, to_dict, Result, ok}
use yjdlagent.Table.{first, row_count}
use yjdlagent.Table.Laws.{first_has}
use yjdlagent.Store.Schema.{Db, Run, Event, failed, ToolStatus, terminal, has_id}
use yjdlagent.Store.Ledger.{advance, append_event, status_after}
use yjdlagent.Store.Transaction.{Call}
use yjdlagent.Store.Replay.{ToolCall, get_run_unscoped, pending_tool_calls}
use yjdlagent.Store.Metrics.{tool_call_is, record_tool_completed}
use yjdlagent.Store.Change.{WellFormed, is_ending}
use yjdlagent.Store.Change.Keys.{SameKey-advance, first-reassign}
use yjdlagent.Store.Change.Keeps.{Change-WellFormed}
use yjdlagent.Store.Operations.Events.{append_event-Change}
use yjdlagent.Store.Trace.Appending.{append_event-open}
use yjdlagent.Runtime.Calls.{pure, lift, suppress, continue}
use yjdlagent.Runtime.Endings.{
  start_if_new, started_payload, fail_pending, tool_failed_payload, tool_name_of, failed_payload,
  fail_open, fail_current, fail_run,
}

-- The store is well formed, and the run is there and open.
record OpenAt (k : String) (db : Db) : Type 0 where
  wf : WellFormed db.runs db.events
  row : Run
  found : first (has_id k) db.runs ≡ some row
  live : terminal row ≡ false

terminal-advance :
    (now : ℕ) (name : String) (payload : Fields) (r : Run)
    → is_ending name ≡ false
    → terminal (advance now name payload none r) ≡ terminal r
unfolding advance status_after
terminal-advance now name payload r h = ground arith

-- What an append to an open run returns, and the row it leaves.
record Appended (now : ℕ) (k name : String) (payload : Fields) (db : Db) (row : Run) : Type 0 where
  event : Event
  after : Db
  outcome : append_event now k name payload none db ≡ (ok event, after)
  wf : WellFormed after.runs after.events
  found : first (has_id k) after.runs ≡ some (advance now name payload none row)

append_event-Appended :
    (now : ℕ) (k name : String) (payload : Fields) (db : Db) (o : OpenAt k db)
    → Appended now k name payload db o.row
append_event-Appended now k name payload db o =
    let e = append_event-open now k name payload none db o.wf o.found o.live in
    record {
      event = _;
      after = _;
      outcome = e;
      wf = rw e at (Change-WellFormed (append_event-Change now k name payload none db) o.wf);
      found = rw (
        first-reassign (has_id o.row.run_id) (advance now name payload none)
            (SameKey-advance now name payload none) db.runs k,
        o.found,
        (eq_iff o.row.run_id o.row.run_id).1 refl,
      );
    }

-- An outcome without an exception, with the run still open.
record Goes {A : Type 0} (k : String) (x : Result A × Db) : Type 0 where
  value : A
  after : Db
  outcome : x ≡ (ok value, after)
  still : OpenAt k after

append_event-Goes :
    (now : ℕ) (k name : String) (payload : Fields) (db : Db)
    → is_ending name ≡ false
    → OpenAt k db
    → Goes k (append_event now k name payload none db)
append_event-Goes now k name payload db quiet o =
    let a = append_event-Appended now k name payload db o in
    record {
      value = a.event;
      after = a.after;
      outcome = a.outcome;
      still = record {
        wf = a.wf;
        row = advance now name payload none o.row;
        found = a.found;
        live = terminal-advance now name payload o.row quiet ∙ o.live;
      };
    }

record_tool_completed-Goes :
    (now : ℕ) (k id : String) (status : ToolStatus) (ms retries : ℕ) (code : Option String)
    (db : Db)
    → OpenAt k db
    → Goes k (suppress (record_tool_completed now k id status ms retries code) db)
unfolding record_tool_completed
record_tool_completed-Goes now k id status ms retries code db o =
    elim (Bool-cases (row_count (tool_call_is k id) db.tool_metrics == 1)) [
      | inl t ↦ rw t (record {
        value = tt;
        after = _;
        outcome = refl;
        still = record { wf = o.wf; row = o.row; found = o.found; live = o.live };
      })
      | inr n ↦ rw n (record { value = tt; after = _; outcome = refl; still = o })
    ]

Goes-continue :
    {A B : Type 0} (k : String) (x : Result A × Db) (f : A → Call B)
    → (g : Goes k x) → Goes k (f g.value g.after)
    → Goes k (continue x f)
Goes-continue k x f g h = rw g.outcome h

start_if_new-Goes :
    (now : ℕ) (k : String) (db : Db) (o : OpenAt k db) → Goes k (start_if_new now o.row db)
unfolding start_if_new
start_if_new-Goes now k db o =
    let same : o.row.run_id ≡ k =
      (eq_iff o.row.run_id k).0 (first_has (has_id k) db.runs o.found) in
    elim (Bool-cases (o.row.last_sequence == 0)) [
      | inl t ↦
          let g = append_event-Goes now k "run.started" started_payload db refl o in
          rw (t, same)
            (Goes-continue k (append_event now k "run.started" started_payload none db)
              (λ _. pure tt) g
              (record { value = tt; after = g.after; outcome = refl; still = g.still }))
      | inr n ↦ rw n (record { value = tt; after = db; outcome = refl; still = o })
    ]

lift-Goes :
    (k : String) (c : ToolCall) (db : Db)
    → is_some c.tool_name ≡ true
    → OpenAt k db
    → Goes k (lift (tool_name_of c) db)
lift-Goes k c db named o = elim (Option-cases c.tool_name) [
  | inl e ↦ absurd (ground (arith, e))
  | inr (name, e) ↦ rw e (record { value = name; after = db; outcome = refl; still = o })
]

fail_pending-Goes :
    (clock : ℕ → ℕ) (n : ℕ) (k code : String) (cs : List ToolCall) (db : Db)
    → All (λ c. is_some c.tool_name ≡ true) cs
    → OpenAt k db
    → Goes k (fail_pending clock n k code cs db)
unfolding fail_pending
fail_pending-Goes clock n k code [] db named o = record {
  value = tt;
  after = db;
  outcome = refl;
  still = o;
}
fail_pending-Goes clock n k code (c ∷ cs) db named o =
    let g₁ =
      record_tool_completed-Goes (clock n) k c.tool_call_id ToolStatus.failed 0 0 (some code) db
        o in
    let name =
      Goes-continue k
        (suppress
          (record_tool_completed (clock n) k c.tool_call_id ToolStatus.failed 0 0 (some code)) db)
        (λ _. lift (tool_name_of c)) g₁ (lift-Goes k c g₁.after named.0 g₁.still) in
    let sent =
      append_event-Goes (clock (suc n)) k "tool.completed"
        (tool_failed_payload c.tool_call_id name.value) name.after refl name.still in
    Goes-continue k _ _ name (
      Goes-continue k _ _ sent
        (fail_pending-Goes clock (suc (suc n)) k code cs sent.after named.1 sent.still))

-- The row after `run.failed`: the error is recorded, and no worker holds the run.
pub record Failed (error : AgentError) (after : Run) : Type 0 where
  pub status : after.status ≡ failed
  pub recorded : after.error ≡ some (to_dict error)
  pub no_owner : after.lease_owner ≡ none
  pub no_until : after.lease_until ≡ none

-- By whether the run was terminal.
abbrev pub EndsAs : Bool → AgentError → Run → Run → Type 0
EndsAs true error before after = after ≡ before
EndsAs false error before after = Failed error after

advance-Failed :
    (now : ℕ) (error : AgentError) (r : Run)
    → Failed error (advance now "run.failed" (failed_payload error) none r)
unfolding advance status_after
advance-Failed now error r = record {
  status = refl;
  recorded = refl;
  no_owner = refl;
  no_until = refl;
}

record EndsOpen (k : String) (error : AgentError) (db : Db) : Type 0 where
  last : Run
  found : first (has_id k) db.runs ≡ some last
  ended : Failed error last

fail_open-EndsOpen :
    (clock : ℕ → ℕ) (last : ℕ) (k : String) (error : AgentError) (db : Db) (o : OpenAt k db)
    → All
        (λ c. is_some c.tool_name ≡ true)
        (pending_tool_calls k (start_if_new (clock 0) o.row db).1)
    → EndsOpen k error (fail_open clock last k error o.row db).1
unfolding fail_open
fail_open-EndsOpen clock last k error db o named =
    let g = start_if_new-Goes (clock 0) k db o in
    let settled =
      Goes-continue k (start_if_new (clock 0) o.row db)
        (λ _ db'. fail_pending clock 1 k error.code (pending_tool_calls k db') db') g
        (fail_pending-Goes clock 1 k error.code (pending_tool_calls k g.after) g.after
          (rw g.outcome at named) g.still) in
    let a =
      append_event-Appended last k "run.failed" (failed_payload error) settled.after
        settled.still in
    rw (settled.outcome, a.outcome)
      (record {
        last = advance last "run.failed" (failed_payload error) none settled.still.row;
        found = a.found;
        ended = advance-Failed last error settled.still.row;
      })

-- In a well-formed store, for a run that is there and whose pending tool calls have names,
-- `_fail_run` leaves a terminal run as it is, and ends any other run: whichever tool calls are
-- pending and whether they have metrics, it becomes FAILED with the given error, and without a
-- lease.
pub fail_run-ends :
    (clock : ℕ → ℕ) (last : ℕ) (k : String) (error : AgentError) (db : Db) {run : Run}
    → WellFormed db.runs db.events
    → first (has_id k) db.runs ≡ some run
    → All (λ c. is_some c.tool_name ≡ true) (pending_tool_calls k (start_if_new (clock 0) run db).1)
    → (b : Run) × (first (has_id k) (fail_run clock last k error db).runs ≡ some b)
      × EndsAs (terminal run) error run b
unfolding fail_run fail_current get_run_unscoped
fail_run-ends clock last k error db {run} w e named = elim (Bool-cases (terminal run)) [
  | inl t ↦ rw (e, t) (run, e, refl)
  | inr n ↦
      let done =
        fail_open-EndsOpen clock last k error db (record { wf = w; row = run; found = e; live = n })
          named in
      rw (e, n) (done.last, done.found, done.ended)
]
