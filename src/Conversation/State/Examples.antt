-- ===== src/Conversation/State/Examples.antt =====
-- A query of points after twelve turns, and an answer from the knowledge base.
use yjdlagent.Prelude.{ℕ, zero, suc, ◌≡◌, refl, Option, none, some, List, [], ◌∷◌, String}
use yjdlagent.Json.{Json, Fields, num, text, arr, items, fields, dict, end}
use yjdlagent.Errors.{Result, ok, err}
use yjdlagent.Python.{ℤ, pos, Ensures}
use yjdlagent.Workflow.Results.{ToolCall}
use yjdlagent.Conversation.Context.{Digest, State, Turn}
use yjdlagent.Conversation.State.{build_committed_state}
use yjdlagent.Conversation.State.Commit.{IsCommitted, build_committed_state-IsCommitted}

abbrev no_ints : String → Option ℤ
no_ints s = none

abbrev old_entry : Digest
old_entry = record { query = "q"; answer = "a"; route = "RAG_QA" }

abbrev repeated : ℕ → List Digest
repeated zero = []
repeated (suc n) = old_entry ∷ repeated n

abbrev before : State
before = record {
  entity_context = record {
    entity_type = none;
    districts = [];
    business_object_ids = [];
    selected_layer_ids = [];
  };
  query_context = record {
    last_successful_query = none;
    route = none;
    tool_name = none;
    tool_arguments = end;
    hard_filters = end;
    preferences = end;
    result_ref = none;
  };
  map_context = none;
  summary = "a";
  history_digest = repeated 12;
  updated_at = none;
}

abbrev price_filter : Json
price_filter = dict (("field", text "房价") ∷ ("operator", text "<=") ∷ ("value", num 8000) ∷ [])

abbrev points : ToolCall
points = record {
  tool_call_id = "t1";
  tool_name = "queryMapPoints";
  arguments = fields (("layerId", num 1) ∷ ("filters", arr (items (price_filter ∷ []))) ∷ []);
}

abbrev turn : Option String → Turn
turn intent = record {
  query = "中山区房价不高于8000的小区";
  answer = "共 2 个";
  intent = intent;
  tool_plan = points ∷ [];
  map_result = dict (("queryId", text "q1") ∷ []);
  map_context = none;
  business_object_ids = "b1" ∷ [];
  updated_at = text "2026-08-21T00:00:00Z";
}

abbrev view : Result State → Option (List String × List ℤ × Fields × Option String)
view (ok s) = some (
  s.entity_context.districts, s.entity_context.selected_layer_ids, s.query_context.hard_filters,
  s.query_context.last_successful_query,
)
view (err e) = none

commits_points :
    view (build_committed_state no_ints before (turn (some "MAP_QUERY")))
    ≡ some (
      "中山区" ∷ [],
      pos 1 ∷ [],
      fields (("priceMax", num 8000) ∷ ("mapFilters", arr (items (price_filter ∷ []))) ∷ []),
      some "中山区房价不高于8000的小区",
    )
unfolding build_committed_state
commits_points = refl

commits_answer :
    view (build_committed_state no_ints before (turn (some "RAG_QA"))) ≡ some ([], [], end, none)
unfolding build_committed_state
commits_answer = refl

build_committed_state-IsCommitted_example :
    Ensures
      (IsCommitted before (turn (some "MAP_QUERY")))
      (build_committed_state no_ints before (turn (some "MAP_QUERY")))
build_committed_state-IsCommitted_example =
    build_committed_state-IsCommitted no_ints before (turn (some "MAP_QUERY"))
