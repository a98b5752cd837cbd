-- ===== src/Store/Schema.antt =====
-- app/agent/store.py: the records and the tables of the store. A column that holds JSON text keeps
-- the value; a column that holds the text of an instant keeps the instant (module Clock).
use yjdlagent.Prelude.{ℕ, String, Bool, true, false, Option, List, [], ◌&&◌, str_eq}
use yjdlagent.Json.{Json}

pub data Status : Type 0 where
  queued running succeeded failed cancelled : Status

-- `status in TERMINAL_STATUSES`
abbrev pub is_terminal : Status → Bool
is_terminal queued = false
is_terminal running = false
is_terminal succeeded = true
is_terminal failed = true
is_terminal cancelled = true

-- `status IN ('QUEUED', 'RUNNING')`
abbrev pub is_open : Status → Bool
is_open queued = true
is_open running = true
is_open succeeded = false
is_open failed = false
is_open cancelled = false

-- agent_runs, whose rows `_row_to_run` returns as they are
pub record Run : Type 0 where
  pub run_id : String
  pub conversation_id : String
  pub message_id : String
  pub tenant_id : String
  pub user_id : String
  pub trace_id : String
  pub status : Status
  pub request_hash : String
  pub request : Json
  pub last_sequence : ℕ
  pub route : Option String
  -- the column holds `str` of this value
  pub answer : Option Json
  pub citations : Json
  pub warnings : Json
  pub error : Option Json
  pub created_at : ℕ
  pub updated_at : ℕ
  pub lease_owner : Option String
  pub lease_until : Option ℕ
  pub lease_generation : ℕ
  pub depends_on_run_id : Option String
  pub base_state_version : ℕ

-- `RunRecord.terminal`
abbrev pub terminal : Run → Bool
terminal r = is_terminal r.status

abbrev pub nonterminal : Run → Bool
nonterminal r = is_open r.status

-- agent_events; `event_id` is the text "{run_id}:{sequence}", kept as its two parts
pub record Event : Type 0 where
  pub run_id : String
  pub sequence : ℕ
  pub event_name : String
  pub event_id : String × ℕ
  pub data_json : Json
  pub created_at : ℕ

-- conversation_memory
pub record Memory : Type 0 where
  pub id : ℕ
  pub run_id : Option String
  pub tenant_id : String
  pub user_id : String
  pub conversation_id : String
  pub user_query : String
  pub assistant_answer : String
  pub route : Option String
  pub map_summary : Option Json
  pub created_at : ℕ

-- conversation_states
pub record Conversation : Type 0 where
  pub tenant_id : String
  pub user_id : String
  pub conversation_id : String
  pub state_version : ℕ
  pub last_committed_run_id : Option String
  pub active_run_id : Option String
  pub state_json : Json
  pub updated_at : ℕ

pub data ToolStatus : Type 0 where
  running succeeded failed rejected : ToolStatus

-- agent_tool_metrics
pub record ToolMetric : Type 0 where
  pub run_id : String
  pub tool_call_id : String
  pub tool_name : String
  pub arguments : Json
  pub arguments_hash : String
  pub status : ToolStatus
  pub duration_ms : Option ℕ
  pub retry_count : ℕ
  pub error_code : Option String
  pub created_at : ℕ
  pub updated_at : ℕ

-- agent_run_metrics
pub record RunMetric : Type 0 where
  pub run_id : String
  pub orchestration_duration_ms : ℕ
  pub status : Status
  pub error_code : Option String
  pub updated_at : ℕ

-- agent_sse_metrics; the AUTOINCREMENT id is the place in the table
pub record SseMetric : Type 0 where
  pub run_id : String
  pub after_sequence : ℕ
  pub last_sequence : ℕ
  pub duration_ms : ℕ
  pub bytes_sent : ℕ
  pub status : String
  pub created_at : ℕ

-- agent_stage_metrics
pub record StageMetric : Type 0 where
  pub run_id : String
  pub stage_name : String
  pub operation : Option String
  pub status : String
  pub duration_ms : ℕ
  pub error_code : Option String
  pub attempt : ℕ
  pub tool_call_id : Option String
  pub metadata : Json
  pub created_at : ℕ

-- quota_ledger
pub record Settlement : Type 0 where
  pub reservation_id : String
  pub operation_id : String
  pub run_id : String
  pub tenant_id : String
  pub total_tokens : ℕ
  pub status : Status
  pub created_at : ℕ

pub record Db : Type 0 where
  pub runs : List Run
  pub events : List Event
  pub memory : List Memory
  -- the AUTOINCREMENT counter of conversation_memory
  pub memory_last_id : ℕ
  pub conversations : List Conversation
  pub tool_metrics : List ToolMetric
  pub run_metrics : List RunMetric
  pub sse_metrics : List SseMetric
  pub stage_metrics : List StageMetric
  pub quota_ledger : List Settlement

-- what `_initialize_once` creates in an empty file
abbrev pub empty_db : Db
empty_db = record {
  runs = [];
  events = [];
  memory = [];
  memory_last_id = 0;
  conversations = [];
  tool_metrics = [];
  run_metrics = [];
  sse_metrics = [];
  stage_metrics = [];
  quota_ledger = [];
}

-- `WHERE run_id = ?`
abbrev pub has_id : String → Run → Bool
has_id k r = str_eq r.run_id k

abbrev pub of_run : String → Event → Bool
of_run k e = str_eq e.run_id k

-- `WHERE tenant_id = ? AND user_id = ? AND conversation_id = ?`
pub record Scope : Type 0 where
  pub tenant_id : String
  pub user_id : String
  pub conversation_id : String

abbrev pub run_in : Scope → Run → Bool
run_in s r =
    str_eq r.tenant_id s.tenant_id
    && str_eq r.user_id s.user_id
    && str_eq r.conversation_id s.conversation_id

abbrev pub memory_in : Scope → Memory → Bool
memory_in s r =
    str_eq r.tenant_id s.tenant_id
    && str_eq r.user_id s.user_id
    && str_eq r.conversation_id s.conversation_id

abbrev pub conversation_in : Scope → Conversation → Bool
conversation_in s r =
    str_eq r.tenant_id s.tenant_id
    && str_eq r.user_id s.user_id
    && str_eq r.conversation_id s.conversation_id

abbrev pub scope_of : Run → Scope
scope_of r = record {
  tenant_id = r.tenant_id;
  user_id = r.user_id;
  conversation_id = r.conversation_id;
}
