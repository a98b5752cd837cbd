-- ===== src/Store/Metrics.antt =====
-- app/agent/store.py: the metrics of tool calls and runs, and the quota ledger. The digest is
-- SHA-256 over the canonical JSON text, a parameter.
use yjdlagent.Prelude.{
  ℕ, max, Bool, false, not, Option, none, some, [], ◌∷◌, ◌++◌, String, ◌==◌, ◌&&◌, ◌||◌, str_eq,
  if◌then◌else◌,
}
use yjdlagent.Json.{Json, dict, truthy}
use yjdlagent.Errors.{AgentError, ok, err, agent_error, runtime_error, integrity_error, no_details}
use yjdlagent.Table.{first, row_count, any, update, upsert}
use yjdlagent.Store.Schema.{Status, ToolStatus, ToolMetric, RunMetric, Settlement, Db, has_id}
use yjdlagent.Store.Transaction.{Body, Call, connect}

-- FOREIGN KEY (run_id) REFERENCES agent_runs(run_id), on an INSERT
unfoldable pub insert_for : String → (Db → Db) → Body Unit
unfolding any
insert_for run_id write db =
    if any (has_id run_id) db.runs then ok (tt, write db) else err integrity_error

-- WHERE run_id = ? AND tool_call_id = ?
abbrev pub tool_call_is : String → String → ToolMetric → Bool
tool_call_is run_id tool_call_id m = str_eq m.run_id run_id && str_eq m.tool_call_id tool_call_id

abbrev pub tool_call_conflict : AgentError
tool_call_conflict = record {
  code = "TOOL_CALL_CONFLICT";
  message = "同一 toolCallId 不能用于不同的 Tool 参数";
  status_code = 409;
  retryable = false;
  details = no_details;
  retry_count = 0;
}

-- CASE WHEN status IN ('SUCCEEDED', 'FAILED', 'REJECTED') THEN status ELSE 'RUNNING' END
abbrev pub restarted : ToolStatus → ToolStatus
restarted ToolStatus.running = ToolStatus.running
restarted ToolStatus.succeeded = ToolStatus.succeeded
restarted ToolStatus.failed = ToolStatus.failed
restarted ToolStatus.rejected = ToolStatus.rejected

abbrev differs : String → String → Option ToolMetric → Bool
differs tool_name arguments_hash none = false
differs tool_name arguments_hash (some existing) =
    not (str_eq existing.tool_name tool_name) || not (str_eq existing.arguments_hash arguments_hash)

module _ (digest : Json → String) where
  unfoldable pub record_tool_started : ℕ → String → String → String → Json → Call Unit
  unfolding connect insert_for first upsert
  record_tool_started now run_id tool_call_id tool_name arguments = connect λ db.
      if differs tool_name (digest arguments)
        (first (tool_call_is run_id tool_call_id) db.tool_metrics)
      then err (agent_error tool_call_conflict)
      else insert_for run_id
          (λ (db : Db). record db {
            tool_metrics =
                upsert (tool_call_is run_id tool_call_id)
                  (record {
                    run_id = run_id;
                    tool_call_id = tool_call_id;
                    tool_name = tool_name;
                    arguments = arguments;
                    arguments_hash = digest arguments;
                    status = ToolStatus.running;
                    duration_ms = none;
                    retry_count = 0;
                    error_code = none;
                    created_at = now;
                    updated_at = now;
                  })
                  (λ (m : ToolMetric). record m { status = restarted m.status; updated_at = now })
                  db.tool_metrics;
          })
          db

unfoldable pub record_tool_completed :
    ℕ → String → String → ToolStatus → ℕ → ℕ → Option String → Call Unit
unfolding connect row_count update
record_tool_completed now run_id tool_call_id status duration_ms retry_count error_code =
    connect λ db.
      if row_count (tool_call_is run_id tool_call_id) db.tool_metrics == 1
      then ok (
        tt,
        record db {
          tool_metrics =
              update (tool_call_is run_id tool_call_id)
                (λ (m : ToolMetric). record m {
                  status = status;
                  duration_ms = some duration_ms;
                  retry_count = retry_count;
                  error_code = error_code;
                  updated_at = now;
                })
                db.tool_metrics;
        },
      )
      else err (runtime_error "tool metrics must be started before completion")

unfoldable pub record_orchestration : ℕ → String → ℕ → Status → Option String → Call Unit
unfolding connect insert_for upsert
record_orchestration now run_id duration_ms status error_code = connect (
    insert_for run_id λ db. record db {
      run_metrics =
          upsert (λ (m : RunMetric). str_eq m.run_id run_id)
            (record {
              run_id = run_id;
              orchestration_duration_ms = duration_ms;
              status = status;
              error_code = error_code;
              updated_at = now;
            })
            (λ (m : RunMetric). record m {
              orchestration_duration_ms = duration_ms;
              status = status;
              error_code = error_code;
              updated_at = now;
            })
            db.run_metrics;
    })

-- An SSE stream of a run, at its end.
unfoldable pub record_sse_stream : ℕ → String → ℕ → ℕ → ℕ → ℕ → String → Call Unit
unfolding connect insert_for
record_sse_stream now run_id after_sequence last_sequence duration_ms bytes_sent status = connect (
    insert_for run_id λ db. record db {
      sse_metrics =
          db.sse_metrics
          ++ record {
            run_id = run_id;
            after_sequence = after_sequence;
            last_sequence = last_sequence;
            duration_ms = duration_ms;
            bytes_sent = bytes_sent;
            status = status;
            created_at = now;
          }
            ∷ [];
    })

-- What `record_stage` is told of a span of the graph.
pub record Span : Type 0 where
  pub stage_name : String
  pub status : String
  pub duration_ms : ℕ
  pub operation : Option String
  pub error_code : Option String
  pub attempt : ℕ
  pub tool_call_id : Option String
  pub metadata : Option Json

-- metadata or {}
abbrev or_empty : Option Json → Json
or_empty none = dict []
or_empty (some j) = if truthy j then j else dict []

unfoldable pub record_stage : ℕ → String → Span → Call Unit
unfolding connect insert_for truthy
record_stage now run_id span = connect (
    insert_for run_id λ db. record db {
      stage_metrics =
          db.stage_metrics
          ++ record {
            run_id = run_id;
            stage_name = span.stage_name;
            operation = span.operation;
            status = span.status;
            duration_ms = span.duration_ms;
            error_code = span.error_code;
            attempt = max 1 span.attempt;
            tool_call_id = span.tool_call_id;
            metadata = or_empty span.metadata;
            created_at = now;
          }
            ∷ [];
    })

-- INSERT OR IGNORE INTO quota_ledger, whose key is (reservation_id, operation_id)
unfoldable pub record_quota_settlement : Settlement → Call Unit
unfolding connect any
record_quota_settlement row = connect λ db. ok (
  tt,
  if any
        (λ (s : Settlement).
          str_eq s.reservation_id row.reservation_id && str_eq s.operation_id row.operation_id)
        db.quota_ledger
      then db
      else record db { quota_ledger = db.quota_ledger ++ row ∷ [] },
)
