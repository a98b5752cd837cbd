-- ===== src/Store/Create.antt =====
-- app/agent/store.py: `create_or_attach`, which creates the run of a message once.
use yjdlagent.Prelude.{
  ℕ, Bool, true, false, not, Option, none, some, List, [], ◌∷◌, ◌++◌, String, leb, ◌&&◌, str_eq,
  if◌then◌else◌,
}
use mathlib.Core.Option
use yjdlagent.Json.{Json, num, dict, arr, nil}
use yjdlagent.Errors.{AgentError, ok, err, agent_error, integrity_error, message_conflict_error}
use yjdlagent.Clock.{iso_le}
use yjdlagent.Table.{first, row_count, any, upsert}
use yjdlagent.Store.Schema.{
  queued, Run, nonterminal, Conversation, Db, Scope, has_id, run_in, conversation_in,
}
use yjdlagent.Store.Transaction.{Body, Call, connect}

-- What a request brings: its scope and message, its JSON and the hash of that text.
pub record Submission : Type 0 where
  pub scope : Scope
  pub message_id : String
  pub trace_id : String
  pub request : Json
  pub request_hash : String

-- WHERE tenant_id = ? AND user_id = ? AND conversation_id = ? AND message_id = ?
abbrev pub run_of : Scope → String → Run → Bool
run_of scope message_id r = run_in scope r && str_eq r.message_id message_id

abbrev pub run_queue_full : ℕ → AgentError
run_queue_full max_nonterminal_runs = record {
  code = "RUN_QUEUE_FULL";
  message = "Agent Run queue is full";
  status_code = 429;
  retryable = true;
  details = dict (("maxQueuedRuns", num max_nonterminal_runs) ∷ []);
  retry_count = 0;
}

-- int(state_row["state_version"]) if state_row else 0
unfoldable pub state_version : Scope → Db → ℕ
unfolding first
state_version scope db = elim (first (conversation_in scope) db.conversations) [
  | none ↦ 0
  | some c ↦ c.state_version
]

-- ORDER BY created_at DESC LIMIT 1
abbrev pub later : Run → Run → Bool
later a b = not (iso_le a.created_at b.created_at)

abbrev pub open_in : Scope → Run → Bool
open_in scope r = run_in scope r && nonterminal r

abbrev pub latest_in : Scope → List Run → Option Run
latest_in scope [] = none
latest_in scope (r ∷ rs) = elim (latest_in scope rs) [
  | none ↦ if open_in scope r then some r else none
  | some s ↦ if open_in scope r && not (later s r) then some r else some s
]

unfoldable pub dependency : Scope → Db → Option String
unfolding iso_le
dependency scope db = Option.map (λ (r : Run). r.run_id) (latest_in scope db.runs)

unfoldable pub new_run : ℕ → String → Submission → Option String → ℕ → Run
new_run now run_id s depends_on base_version = record {
  run_id = run_id;
  conversation_id = s.scope.conversation_id;
  message_id = s.message_id;
  tenant_id = s.scope.tenant_id;
  user_id = s.scope.user_id;
  trace_id = s.trace_id;
  status = queued;
  request_hash = s.request_hash;
  request = s.request;
  last_sequence = 0;
  route = none;
  answer = none;
  citations = arr nil;
  warnings = arr nil;
  error = none;
  created_at = now;
  updated_at = now;
  lease_owner = none;
  lease_until = none;
  lease_generation = 0;
  depends_on_run_id = depends_on;
  base_state_version = base_version;
}

-- INSERT INTO conversation_states ... ON CONFLICT DO UPDATE
abbrev activate : ℕ → String → Scope → ℕ → List Conversation → List Conversation
activate now run_id scope base_version =
    upsert (conversation_in scope)
      (record {
        tenant_id = scope.tenant_id;
        user_id = scope.user_id;
        conversation_id = scope.conversation_id;
        state_version = base_version;
        last_committed_run_id = none;
        active_run_id = some run_id;
        state_json = dict [];
        updated_at = now;
      })
      (λ (c : Conversation). record c { active_run_id = some run_id; updated_at = now })

-- PRIMARY KEY (run_id) and UNIQUE (tenant_id, user_id, conversation_id, message_id)
abbrev pub conflicts_with : Run → Run → Bool
conflicts_with r x =
    if has_id r.run_id x
    then true
    else run_of
        (record {
          tenant_id = r.tenant_id;
          user_id = r.user_id;
          conversation_id = r.conversation_id;
        })
        r.message_id x

unfoldable pub insert_run : ℕ → Scope → Run → Body (Run × Bool)
unfolding any upsert
insert_run now scope run db =
    if any (conflicts_with run) db.runs
    then err integrity_error
    else ok (
      (run, true),
      record db {
        runs = db.runs ++ run ∷ [];
        conversations = activate now run.run_id scope run.base_state_version db.conversations;
      },
    )

-- `max_nonterminal_runs is not None and queued >= max_nonterminal_runs`
unfoldable pub queue_full : Option ℕ → Db → Option ℕ
unfolding row_count
queue_full none db = none
queue_full (some most) db = if leb most (row_count nonterminal db.runs) then some most else none

unfoldable pub create_new : ℕ → String → Submission → Option ℕ → Body (Run × Bool)
unfolding insert_run new_run state_version dependency
create_new now run_id s (some most) db = err (agent_error (run_queue_full most))
create_new now run_id s none db =
    insert_run now s.scope (new_run now run_id s (dependency s.scope db) (state_version s.scope db))
      db

unfoldable pub attach_or : ℕ → String → Submission → Option ℕ → Option Run → Body (Run × Bool)
unfolding create_new queue_full
attach_or now run_id s max_nonterminal_runs (some existing) db =
    if str_eq existing.request_hash s.request_hash
    then ok ((existing, false), db)
    else err (agent_error message_conflict_error)
attach_or now run_id s max_nonterminal_runs none db =
    create_new now run_id s (queue_full max_nonterminal_runs db) db

-- `run_id` is the value of `uuid4()`.
unfoldable pub create_or_attach_once : ℕ → String → Submission → Option ℕ → Body (Run × Bool)
unfolding attach_or
create_or_attach_once now run_id s max_nonterminal_runs db =
    attach_or now run_id s max_nonterminal_runs (first (run_of s.scope s.message_id) db.runs) db

unfoldable pub create_or_attach : ℕ → String → Submission → Option ℕ → Call (Run × Bool)
unfolding create_or_attach_once connect
create_or_attach now run_id s max_nonterminal_runs =
    connect (create_or_attach_once now run_id s max_nonterminal_runs)
