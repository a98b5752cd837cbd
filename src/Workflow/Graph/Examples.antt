-- ===== src/Workflow/Graph/Examples.antt =====
-- A question about the map that is answered, and one whose tools fail.
use yjdlagent.Prelude.{◌≡◌, refl, ap, none, [], ◌∷◌}
use yjdlagent.Json.{Fields, text, fields, dict, end}
use yjdlagent.Errors.{ok, err, runtime_error}
use yjdlagent.Store.Schema.{Db, empty_db}
use yjdlagent.Store.Transaction.{Call}
use yjdlagent.Store.Create.{Submission, create_or_attach}
use yjdlagent.Workflow.Graph.{
  Node, route_intent, retrieve_knowledge, load_catalog, plan_housing_search, plan_map,
  execute_map_tools, compose_answer, Times, run_graph,
}
use yjdlagent.Workflow.Graph.Stages.{stages, Known, Runs, run_graph-Recorded}

abbrev at_once : Node → Times
at_once n = record { duration = 5; first_at = 1700000; second_at = 1700001 }

abbrev map_query : Node → Fields → Call Fields
map_query route_intent state db = (ok (fields (("intent", text "MAP_QUERY") ∷ [])), db)
map_query compose_answer state db = (ok (fields (("answer", text "共 2 个") ∷ [])), db)
map_query _ state db = (ok end, db)

abbrev broken_tools : Node → Fields → Call Fields
broken_tools execute_map_tools state db = (err (runtime_error "down"), db)
broken_tools n state db = map_query n state db

abbrev merged : Fields → Fields → Fields
merged state update = fields (("intent", text "MAP_QUERY") ∷ [])

abbrev question : Submission
question = record {
  scope = record { tenant_id = "t"; user_id = "u"; conversation_id = "c" };
  message_id = "m1";
  trace_id = "trace1";
  request = dict (("query", text "中山区的小区") ∷ []);
  request_hash = "h1";
}

abbrev stored : Db
stored = (create_or_attach 1500000 "run1" question none empty_db).1

goes_through :
    stages (run_graph "run1" at_once map_query merged 6 route_intent end stored).1
    ≡ ("ROUTING", "SUCCEEDED")
      ∷ ("INPUT_NORMALIZATION", "SUCCEEDED")
      ∷ ("CATALOG_REFRESH", "SUCCEEDED")
      ∷ ("MAP_PLANNING", "SUCCEEDED")
      ∷ ("TOOL_EXECUTION", "SUCCEEDED")
      ∷ ("ANSWER_GENERATION", "SUCCEEDED")
      ∷ []
unfolding run_graph create_or_attach
goes_through = refl

stops_at_tools :
    stages (run_graph "run1" at_once broken_tools merged 6 route_intent end stored).1
    ≡ ("ROUTING", "SUCCEEDED")
      ∷ ("INPUT_NORMALIZATION", "SUCCEEDED")
      ∷ ("CATALOG_REFRESH", "SUCCEEDED")
      ∷ ("MAP_PLANNING", "SUCCEEDED")
      ∷ ("TOOL_EXECUTION", "FAILED")
      ∷ []
unfolding run_graph create_or_attach
stops_at_tools = refl

map_query-same : (n : Node) (s : Fields) (db : Db) → (map_query n s db).1 ≡ db
map_query-same route_intent s db = refl
map_query-same retrieve_knowledge s db = refl
map_query-same load_catalog s db = refl
map_query-same plan_housing_search s db = refl
map_query-same plan_map s db = refl
map_query-same execute_map_tools s db = refl
map_query-same compose_answer s db = refl

stored-Known : Known "run1" stored
unfolding create_or_attach
stored-Known = refl

run_graph-Recorded_example :
    Runs "run1" at_once map_query merged route_intent end stored
      (run_graph "run1" at_once map_query merged 6 route_intent end stored)
run_graph-Recorded_example =
    run_graph-Recorded "run1" at_once map_query merged (λ n s db. ap stages (map_query-same n s db))
      (λ n s db k. rw (map_query-same n s db) k) end stored stored-Known
