-- ===== src/Runtime/Admission.antt =====
-- app/agent/runtime.py: `start_run`, which creates a run and reserves its quota, and the `finally`
-- block of `_execute`, which closes them.
use yjdlagent.Prelude.{ℕ, Bool, true, false, not, Option, none, some, List, [], ◌∷◌, String, str_eq}
use yjdlagent.Json.{Json, Fields, bool, text, dict, fields}
use yjdlagent.Errors.{AgentError, Result, ok, err, agent_error, operational_error}
use yjdlagent.Table.{first, select}
use yjdlagent.Store.Schema.{Db, Run, Status, succeeded}
use yjdlagent.Store.Create.{Submission, create_or_attach}
use yjdlagent.Store.Ledger.{append_event}
use yjdlagent.Store.Metrics.{record_orchestration, record_quota_settlement}
use yjdlagent.Quota
use yjdlagent.Quota.{Quota, Limits, Reservation}
use yjdlagent.Runtime.Calls.{logged}

-- What `start_run` and `_execute` share: the store, the gate, and the dict of reservation ids.
pub record World : Type 0 where
  pub db : Db
  pub quota : Quota
  pub reservation_ids : List (String × String)

abbrev pub database_unavailable : Json → AgentError
database_unavailable details = record {
  code = "AGENT_DATABASE_UNAVAILABLE";
  message = "Agent persistence is temporarily unavailable";
  status_code = 503;
  retryable = true;
  details = details;
  retry_count = 0;
}

abbrev pub quota_payload : Fields
quota_payload = fields (
    ("status", text "FAILED")
    ∷ (
      "error",
      dict (
          ("code", text "QUOTA_EXCEEDED")
          ∷ ("message", text "租户配额不足")
          ∷ ("retryable", bool false)
          ∷ ("details", dict [])
          ∷ []),
    )
    ∷ [])

-- What a call of `start_run` reads: the limits and the maximum of open runs of the settings, the
-- clock of the store twice, `uuid4` twice, and the monotonic clock and the day of the gate.
pub record Reading : Type 0 where
  pub limits : Limits
  pub max_queued_runs : ℕ
  pub created_at : ℕ
  pub failed_at : ℕ
  pub run_uuid : String
  pub reservation_uuid : String
  pub monotonic : ℕ
  pub day : String

-- `self.quota.reserve(...)` and what follows it
unfoldable pub after_reserve :
    Reading → Run → World → Result Reservation × Quota → Result (Run × Bool) × World
unfolding append_event
after_reserve reading run w (ok reservation, quota) = (
  ok (run, true),
  record w {
    quota = quota;
    reservation_ids = (run.run_id, reservation.reservation_id) ∷ w.reservation_ids;
  },
)
after_reserve reading run w (err e, quota) = (
  err e,
  record w {
    db = logged (append_event reading.failed_at run.run_id "run.failed" quota_payload none) w.db;
    quota = quota;
  },
)

unfoldable pub after_create :
    Reading → World → Result (Run × Bool) × Db → Result (Run × Bool) × World
unfolding after_reserve Quota.reserve
after_create reading w (ok (run, true), db) =
    after_reserve reading run (record w { db = db })
      (Quota.reserve reading.limits reading.monotonic reading.day reading.reservation_uuid
        run.tenant_id run.user_id run.run_id w.quota)
after_create reading w (ok (run, false), db) = (ok (run, false), record w { db = db })
after_create reading w (err (operational_error b), db) = (
  err (agent_error (database_unavailable (dict (("phase", text "run_creation") ∷ [])))),
  record w { db = db },
)
after_create reading w (err e, db) = (err e, record w { db = db })

-- `start_run`, once the runtime is initialized
unfoldable pub start_run : Reading → String → Submission → World → Result (Run × Bool) × World
unfolding after_create create_or_attach
start_run reading trace_id s w = after_create reading w (
    create_or_attach reading.created_at reading.run_uuid (record s { trace_id = trace_id })
      (some reading.max_queued_runs) w.db)

-- settle or release, by the status of the execution
abbrev pub close_quota : Limits → String → Status → ℕ → String → Quota → Result (Unit {0}) × Quota
close_quota l day succeeded tokens run_id q = Quota.settle l tokens 0 day run_id q
close_quota l day _ tokens run_id q = (ok tt, Quota.release day run_id q)

-- self._quota_reservations.pop(run_id, None), and the settlement that is recorded for it
abbrev pub record_settlement : ℕ → String → String → ℕ → Status → Option (String × String) → Db → Db
record_settlement now run_id tenant_id tokens status none db = db
record_settlement now run_id tenant_id tokens status (some (k, reservation_id)) db =
    logged
      (record_quota_settlement (record {
        reservation_id = reservation_id;
        operation_id = "terminal";
        run_id = run_id;
        tenant_id = tenant_id;
        total_tokens = tokens;
        status = status;
        created_at = now;
      }))
      db

-- the first `try` of the block: an exception of `settle` skips the rest of it
unfoldable pub close_accounts : ℕ → Run → Status → ℕ → World → Result (Unit {0}) × Quota → World
unfolding record_quota_settlement first select
close_accounts now run status tokens w (ok u, quota) = record w {
  quota = quota;
  reservation_ids = select (λ (p : String × String). not (str_eq p.0 run.run_id)) w.reservation_ids;
  db =
      record_settlement now run.run_id run.tenant_id tokens status
        (first (λ (p : String × String). str_eq p.0 run.run_id) w.reservation_ids) w.db;
}
close_accounts now run status tokens w (err e, quota) = record w { quota = quota }

-- the `finally` block of `_execute`
unfoldable pub close_run :
    Limits → String → (ℕ → ℕ) → Run → Status → Option String → ℕ → ℕ → World → World
unfolding close_accounts record_orchestration Quota.settle Quota.release
close_run l day clock run status error_code tokens duration_ms w =
    let w' =
      close_accounts (clock 0) run status tokens w
        (close_quota l day status tokens run.run_id w.quota) in
    record w' {
      db = logged (record_orchestration (clock 1) run.run_id duration_ms status error_code) w'.db;
    }
