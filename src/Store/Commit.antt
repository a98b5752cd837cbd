-- ===== src/Store/Commit.antt =====
-- app/agent/store.py: `complete_run_with_memory`, which commits the memory, the state of the
-- conversation and the terminal event of a run in one transaction, and `get_conversation_state`.
use yjdlagent.Prelude.{ℕ, ◌+◌, true, Option, none, some, List, [], ◌∷◌, String, ◌==◌, if◌then◌else◌}
use yjdlagent.Json.{Json, Fields, Items, num, text, arr, dict, fields}
use yjdlagent.Errors.{AgentError, ok, err, agent_error, run_not_found_error}
use yjdlagent.Table.{first, upsert}
use yjdlagent.Store.Schema.{Run, Event, Conversation, Db, Scope, has_id, scope_of, conversation_in}
use yjdlagent.Store.Create.{state_version}
use yjdlagent.Store.Memory.{save_in_connection}
use yjdlagent.Store.Ledger.{append_event_in_connection}
use yjdlagent.Store.Transaction.{Body, Call, connect}

abbrev pub state_version_conflict : ℕ → ℕ → AgentError
state_version_conflict expected actual = record {
  code = "STATE_VERSION_CONFLICT";
  message = "会话状态已被其他 Run 更新";
  status_code = 409;
  retryable = true;
  details = dict (("expected", num expected) ∷ ("actual", num actual) ∷ []);
  retry_count = 0;
}

-- INSERT INTO conversation_states ... ON CONFLICT DO UPDATE
unfoldable pub commit_state : ℕ → Run → ℕ → Json → List Conversation → List Conversation
unfolding upsert
commit_state now run version state =
    upsert (conversation_in (scope_of run))
      (record {
        tenant_id = run.tenant_id;
        user_id = run.user_id;
        conversation_id = run.conversation_id;
        state_version = version;
        last_committed_run_id = some run.run_id;
        active_run_id = none;
        state_json = state;
        updated_at = now;
      })
      (λ (c : Conversation). record c {
        state_version = version;
        last_committed_run_id = some run.run_id;
        active_run_id = none;
        state_json = state;
        updated_at = now;
      })

-- `if conversation_state is not None`: compare and set on the version that the run started from
unfoldable pub commit_state_in_connection : ℕ → Run → Option Json → Body Unit
unfolding commit_state state_version
commit_state_in_connection now run none db = ok (tt, db)
commit_state_in_connection now run (some state) db =
    let current = state_version (scope_of run) db in
    if current == run.base_state_version
    then ok (
      tt,
      record db { conversations = commit_state now run (current + 1) state db.conversations },
    )
    else err (agent_error (state_version_conflict run.base_state_version current))

-- What the answer of a run brings.
pub record Outcome : Type 0 where
  pub user_query : String
  pub assistant_answer : String
  pub route : Option String
  pub map_summary : Option Json
  pub citations : Items
  pub warnings : Items

abbrev pub completed_payload : Outcome → Fields
completed_payload o = fields (
    ("status", text "SUCCEEDED")
    ∷ ("answer", text o.assistant_answer)
    ∷ ("citations", arr o.citations)
    ∷ ("warnings", arr o.warnings)
    ∷ [])

unfoldable pub complete_row : ℕ → String → Outcome → ℕ → Option Json → Option Run → Body Event
unfolding save_in_connection commit_state_in_connection append_event_in_connection
complete_row now run_id o memory_limit conversation_state none db =
    err (agent_error run_not_found_error)
complete_row now run_id o memory_limit conversation_state (some run) db =
    let saved =
      save_in_connection now (scope_of run) o.user_query o.assistant_answer o.route o.map_summary
        memory_limit (some run_id) db in
    elim (commit_state_in_connection now run conversation_state saved) [
      | err e ↦ err e
      | ok (u, committed) ↦
          append_event_in_connection now run_id "run.completed" (completed_payload o) none committed
    ]

unfoldable pub complete_run_with_memory : ℕ → String → Outcome → ℕ → Option Json → Call Event
unfolding complete_row connect first
complete_run_with_memory now run_id o memory_limit conversation_state = connect λ db.
    complete_row now run_id o memory_limit conversation_state (first (has_id run_id) db.runs) db

-- `get_conversation_state`: the four values of the dict
pub record StateWrapper : Type 0 where
  pub state_version : ℕ
  pub last_committed_run_id : Option String
  pub active_run_id : Option String
  pub state : Json

unfoldable pub get_conversation_state : Scope → Db → StateWrapper
unfolding first
get_conversation_state scope db = elim (first (conversation_in scope) db.conversations) [
  | none ↦ record {
    state_version = 0;
    last_committed_run_id = none;
    active_run_id = none;
    state = dict [];
  }
  | some c ↦ record {
    state_version = c.state_version;
    last_committed_run_id = c.last_committed_run_id;
    active_run_id = c.active_run_id;
    state = c.state_json;
  }
]
