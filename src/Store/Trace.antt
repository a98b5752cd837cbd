-- ===== src/Store/Trace.antt =====
-- app/agent/store.py as a whole: any sequence of calls of its operations, by any workers. The
-- transactions of SQLite make every interleaving of processes such a sequence.
pub mod Rows
pub mod Invariant
pub mod Fencing
pub mod Progress
pub mod Queue
pub mod Appending
pub mod Resending
pub mod Lives
use yjdlagent.Prelude.{ℕ, Bool, true, false, Option, List, [], ◌∷◌, String}
use yjdlagent.Json.{Json, Fields}
use yjdlagent.Store.Schema.{Scope, Status, ToolStatus, Settlement, Db}
use yjdlagent.Store.Create.{Submission, create_or_attach}
use yjdlagent.Store.Lease.{claim_next_run, renew_lease, release_lease}
use yjdlagent.Store.Ledger.{append_event}
use yjdlagent.Store.Memory.{save_conversation_memory}
use yjdlagent.Store.Commit.{Outcome, complete_run_with_memory}
use yjdlagent.Store.Metrics.{
  record_tool_started, record_tool_completed, record_orchestration, record_sse_stream, record_stage,
  Span, record_quota_settlement,
}

-- A call, with the values of the clock and of `uuid4` that it reads.
pub data Op : Type 0 where
  create : ℕ → String → Submission → Option ℕ → Op
  claim : String → ℕ → ℕ → ℕ → Op
  renew : String → String → ℕ → Option ℕ → ℕ → ℕ → Op
  release : String → String → Bool → Option ℕ → ℕ → Op
  append : ℕ → String → String → Fields → Option String → Op
  complete : ℕ → String → Outcome → ℕ → Option Json → Op
  remember : ℕ → Scope → String → String → Option String → Option Json → ℕ → Option String → Op
  tool_started : (Json → String) → ℕ → String → String → String → Json → Op
  tool_completed : ℕ → String → String → ToolStatus → ℕ → ℕ → Option String → Op
  orchestrated : ℕ → String → ℕ → Status → Option String → Op
  sse_ended : ℕ → String → ℕ → ℕ → ℕ → ℕ → String → Op
  staged : ℕ → String → Span → Op
  settled : Settlement → Op

abbrev pub is_create : Op → Bool
is_create (create now k s most) = true
is_create _ = false

-- The database after a call, whether it returned or raised.
unfoldable pub step : Op → Db → Db
step (create now k s most) db = (create_or_attach now k s most db).1
step (claim w seconds now later) db = (claim_next_run w seconds now later db).1
step (renew k w seconds g now later) db = (renew_lease k w seconds g now later db).1
step (release k w requeue g now) db = (release_lease k w requeue g now db).1
step (append now k name payload route) db = (append_event now k name payload route db).1
step (complete now k o limit state) db = (complete_run_with_memory now k o limit state db).1
step (remember now s q a route m limit k) db =
    (save_conversation_memory now s q a route m limit k db).1
step (tool_started digest now k call name arguments) db =
    (record_tool_started digest now k call name arguments db).1
step (tool_completed now k call status ms retries code) db =
    (record_tool_completed now k call status ms retries code db).1
step (orchestrated now k ms status code) db = (record_orchestration now k ms status code db).1
step (sse_ended now k from last ms bytes status) db =
    (record_sse_stream now k from last ms bytes status db).1
step (staged now k span) db = (record_stage now k span db).1
step (settled row) db = (record_quota_settlement row db).1

unfoldable pub execute : Db → List Op → Db
execute db [] = db
execute db (op ∷ ops) = execute (step op db) ops
