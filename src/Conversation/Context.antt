-- ===== src/Conversation/Context.antt =====
-- app/agent/conversation_state.py: the records of the state of a conversation.
use yjdlagent.Prelude.{Option, List, String}
use yjdlagent.Json.{Json, Fields}
use yjdlagent.Capabilities.{EntityType}
use yjdlagent.Python.{ℤ}
use yjdlagent.Workflow.Results.{ToolCall}

pub record EntityContext : Type 0 where
  pub entity_type : Option EntityType
  pub districts : List String
  pub business_object_ids : List String
  pub selected_layer_ids : List ℤ

pub record QueryContext : Type 0 where
  pub last_successful_query : Option String
  pub route : Option String
  pub tool_name : Option String
  pub tool_arguments : Fields
  pub hard_filters : Fields
  pub preferences : Fields
  pub result_ref : Option Fields

-- An entry of the history: query, answer and route.
pub record Digest : Type 0 where
  pub query : String
  pub answer : String
  pub route : String

-- ConversationBusinessState, without the version of its schema
pub record State : Type 0 where
  pub entity_context : EntityContext
  pub query_context : QueryContext
  pub map_context : Option Json
  pub summary : String
  pub history_digest : List Digest
  pub updated_at : Option Json

-- What a run brings: its query, its answer and so on, and of the context of the request the map
-- and the ids of business objects, which app/agent/contracts.py has checked.
pub record Turn : Type 0 where
  pub query : String
  pub answer : String
  pub intent : Option String
  pub tool_plan : List ToolCall
  pub map_result : Json
  pub map_context : Option Json
  pub business_object_ids : List String
  pub updated_at : Json
