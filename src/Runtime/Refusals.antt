-- ===== src/Runtime/Refusals.antt =====
-- app/agent/runtime.py, `start_run`: a run that is created and then refused by the quota gate.
use yjdlagent.Prelude.{
  ℕ, ◌≡◌, refl, ◌∙◌, str_eq, true, false, Option, none, some, List, String, eq_iff,
}
use yjdlagent.Errors.{ok, err, Exception}
use yjdlagent.Table.{first}
use yjdlagent.Store.Schema.{Db, Run, failed, has_id}
use yjdlagent.Store.Create.{Submission, create_or_attach}
use yjdlagent.Store.Ledger.{advance, append_event}
use yjdlagent.Store.Change.{WellFormed}
use yjdlagent.Store.Change.Keys.{SameKey-advance, run_of-SameKey, first-reassign}
use yjdlagent.Store.Change.Keeps.{Change-WellFormed}
use yjdlagent.Store.Operations.Creation.{create_or_attach-Change}
use yjdlagent.Store.Operations.Created.{Created, create_or_attach-Created}
use yjdlagent.Store.Operations.Events.{append_event-Change}
use yjdlagent.Store.Trace.{Op, execute}
use yjdlagent.Store.Trace.Appending.{append_event-open}
use yjdlagent.Store.Trace.Resending.{create_or_attach-resent}
use yjdlagent.Quota
use yjdlagent.Quota.{Quota, Reservation}
use yjdlagent.Runtime.Admission.{
  World, Reading, quota_payload, start_run, after_create, after_reserve,
}

-- The row of a run after `run.failed` is appended to it.
unfoldable pub failed_row : ℕ → Run → Run
unfolding advance
failed_row now run = advance now "run.failed" quota_payload none run

-- The database after a refusal: the failure is the last event, and the row is terminal.
refused-row :
    (now : ℕ) (s : Submission) (run : Run) (db : Db)
    → WellFormed db.runs db.events
    → Created s run db
    → first
        (has_id run.run_id)
        (append_event now run.run_id "run.failed" quota_payload none db).1.runs
      ≡ some (failed_row now run)
unfolding failed_row
refused-row now s run db w c = rw (
  append_event-open now run.run_id "run.failed" quota_payload none db w c.stored c.live,
  first-reassign (has_id run.run_id) (advance now "run.failed" quota_payload none)
      (SameKey-advance now "run.failed" quota_payload none) db.runs run.run_id,
  c.stored,
  (eq_iff run.run_id run.run_id).1 refl,
)

failed_row-ended : (now : ℕ) (run : Run) → (failed_row now run).status ≡ failed
unfolding failed_row advance
failed_row-ended now run = refl

-- What a message that is sent again gets from the store, after the refusal and any calls.
resent-row :
    (now : ℕ) (s : Submission) (run : Run) (db : Db) (ops : List Op) (at : ℕ) (k : String)
    (most : Option ℕ)
    → WellFormed db.runs db.events
    → Created s run db
    → let after = execute (append_event now run.run_id "run.failed" quota_payload none db).1 ops in
      create_or_attach at k s most after ≡ (ok (failed_row now run, false), after)
unfolding failed_row advance
resent-row now s run db ops at k most w c =
    let (b, later, found, again) =
      create_or_attach-resent ops (append_event now run.run_id "run.failed" quota_payload none db).1
        run.run_id (failed_row now run) at k s most
        (Change-WellFormed (append_event-Change now run.run_id "run.failed" quota_payload none db)
          w)
        (refused-row now s run db w c)
        (run_of-SameKey s.scope s.message_id
            (SameKey-advance now "run.failed" quota_payload none run)
          ∙ c.message) in
    let same : b ≡ failed_row now run = later.frozen refl in
    let hash : str_eq run.request_hash s.request_hash ≡ true = (eq_iff _ _).1 c.hash in
    again ∙ rw (hash, same)

-- In a well-formed store, where `start_run` creates a run and the gate refuses it, it raises the
-- error of the gate and keeps no reservation, and the run is FAILED, by a `run.failed` event
-- with the payload of QUOTA_EXCEEDED, whatever the error of the gate is. Whatever calls of the
-- store follow, sending the same message again, with any gate, changes nothing: it returns that
-- failed run, as not created.
pub start_run-refused :
    (reading again : Reading) (trace_id trace_id' : String) (s : Submission) (w later : World)
    (ops : List Op) {run : Run} {db : Db} {e : Exception} {quota : Quota}
    → WellFormed w.db.runs w.db.events
    → create_or_attach reading.created_at reading.run_uuid
        (record s { trace_id = trace_id })
        (some reading.max_queued_runs)
        w.db
      ≡ (ok (run, true), db)
    → Quota.reserve reading.limits reading.monotonic reading.day reading.reservation_uuid
        run.tenant_id run.user_id run.run_id w.quota
      ≡ (err e, quota)
    → let w' = (start_run reading trace_id s w).1 in
      let after = record later { db = execute w'.db ops } in
      ((start_run reading trace_id s w).0 ≡ err e)
      × (w'.reservation_ids ≡ w.reservation_ids)
      × ((failed_row reading.failed_at run).status ≡ failed)
      × (start_run again trace_id' s after ≡ (ok (failed_row reading.failed_at run, false), after))
unfolding start_run after_create after_reserve failed_row
start_run-refused reading again trace_id trace_id' s w later ops {run} {db} {e} {quota} wf c q =
    let sent = record s { trace_id = trace_id } in
    let created =
      create_or_attach-Created reading.created_at reading.run_uuid sent
        (some reading.max_queued_runs) w.db c in
    let wf' : WellFormed db.runs db.events = rw c at (
      Change-WellFormed
        (create_or_attach-Change reading.created_at reading.run_uuid sent
          (some reading.max_queued_runs) w.db)
        wf) in
    let same : Created (record s { trace_id = trace_id' }) run db = record {
      live = created.live;
      message = created.message;
      hash = created.hash;
      stored = created.stored;
    } in
    (
      rw (c, q),
      rw (c, q),
      failed_row-ended reading.failed_at run,
      rw (
        c,
        q,
        resent-row reading.failed_at (record s { trace_id = trace_id' }) run db ops again.created_at
            again.run_uuid (some again.max_queued_runs) wf' same,
      ),
    )
