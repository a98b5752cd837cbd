-- ===== src/Workflow/Graph.antt =====
-- app/agent/workflow.py: the edges of the graph that `build_agent_graph` compiles, and
-- `observe_stage`, which records every node. What a node does, its time and how LangGraph merges an
-- update into the state are parameters.
pub mod Edges
pub mod Stages
mod Examples
use yjdlagent.Prelude.{
  ℕ, zero, suc, Bool, true, false, Option, none, some, List, [], ◌∷◌, String, str_eq, ◌||◌,
  if◌then◌else◌,
}
use yjdlagent.Json.{
  Json, Items, Fields, null, bool, num, real, text, iso, arr, obj, nil, cons, end, field, dict,
  get_field, truthy,
}
use yjdlagent.Errors.{
  AgentError, Result, ok, err, Exception, agent_error, type_error, attribute_error,
}
use yjdlagent.Python.{◌>>=◌, or_default, get_of, item_of, list_of}
use yjdlagent.Store.Schema.{Db}
use yjdlagent.Store.Transaction.{Call}
use yjdlagent.Store.Metrics.{Span, record_stage}

pub data Node : Type 0 where
  route_intent : Node
  retrieve_knowledge : Node
  load_catalog : Node
  plan_housing_search : Node
  plan_map : Node
  execute_map_tools : Node
  compose_answer : Node

abbrev pub stage_of : Node → String
stage_of route_intent = "ROUTING"
stage_of retrieve_knowledge = "RAG_RETRIEVAL"
stage_of load_catalog = "CATALOG_REFRESH"
stage_of plan_housing_search = "HOUSING_PLANNING"
stage_of plan_map = "MAP_PLANNING"
stage_of execute_map_tools = "TOOL_EXECUTION"
stage_of compose_answer = "ANSWER_GENERATION"

abbrev or_null : Option Json → Json
or_null = or_default null

abbrev is_set : Option Json → Bool
is_set none = false
is_set (some v) = truthy v

-- value in {a, b}
abbrev pub is_either : Json → String → String → Result Bool
is_either (text s) a b = ok (str_eq s a || str_eq s b)
is_either (arr xs) a b = err type_error
is_either (obj fs) a b = err type_error
is_either _ a b = ok false

-- value == a
abbrev pub equals_text : Json → String → Bool
equals_text (text s) a = str_eq s a
equals_text _ a = false

unfoldable pub route_branch : Fields → Result Node
unfolding item_of
route_branch state = item_of "intent" state >>= λ intent.
    is_either intent "RAG_QA" "HYBRID" >>= λ knowledge. ok (
      if knowledge
      then retrieve_knowledge
      else if equals_text intent "MAP_QUERY"
      then load_catalog
      else compose_answer)

unfoldable pub after_retrieval : Fields → Result Node
unfolding item_of
after_retrieval state = item_of "intent" state >>= λ intent.
    ok (if equals_text intent "HYBRID" then load_catalog else compose_answer)

abbrev pub after_catalog : Fields → Node
after_catalog state =
    if is_set (get_field "housing_search" state) then plan_housing_search else plan_map

abbrev pub then_to : Result Node → Result (Option Node)
then_to (ok n) = ok (some n)
then_to (err e) = err e

-- The edges; `none` is END.
unfoldable pub next_node : Node → Fields → Result (Option Node)
unfolding route_branch after_retrieval get_field truthy
next_node route_intent state = then_to (route_branch state)
next_node retrieve_knowledge state = then_to (after_retrieval state)
next_node load_catalog state = ok (some (after_catalog state))
next_node plan_housing_search state = ok (some execute_map_tools)
next_node plan_map state = ok (some execute_map_tools)
next_node execute_map_tools state = ok (some compose_answer)
next_node compose_answer state = ok none

-- len(value), of a list
abbrev size : Json → Result ℕ
size (arr nil) = ok 0
size (arr (cons x xs)) = size (arr xs) >>= λ n. ok (suc n)
size _ = err type_error

-- update.get(key, [])
abbrev list_at : String → Fields → Json
list_at k update = or_default (arr nil) (get_field k update)

-- `x.get(key, {})` and `x.get(key)`
abbrev dict_at : String → Json → Result Json
dict_at k j = get_of k j >>= λ v. ok (or_default (obj end) v)

abbrev value_at : String → Json → Result Json
value_at k j = get_of k j >>= λ v. ok (or_null v)

abbrev price_of : List Json → Result Json
price_of [] = ok null
price_of (call ∷ calls) = dict_at "arguments" call >>= dict_at "hardFilters" >>= value_at "priceMax"

abbrev elements : Json → List Json
elements (arr xs) = list_of xs
elements _ = []

-- `stage_metadata` of the nodes
unfoldable pub stage_metadata : Node → Fields → Result Json
unfolding get_field truthy get_of
stage_metadata route_intent update = ok (
    dict (
      ("intent", or_null (get_field "intent" update))
      ∷ ("reason", or_null (get_field "route_reason" update))
      ∷ ("housingSearch", bool (is_set (get_field "housing_search" update)))
      ∷ []))
stage_metadata retrieve_knowledge update =
    size (list_at "retrieval_results" update) >>= λ n. ok (dict (("documentCount", num n) ∷ []))
stage_metadata load_catalog update = ok (dict [])
stage_metadata plan_housing_search update = size (list_at "tool_plan" update) >>= λ n.
    price_of (elements (list_at "tool_plan" update)) >>= λ price.
    ok (dict (("toolPlanCount", num n) ∷ ("hardPriceMax", price) ∷ []))
stage_metadata plan_map update =
    size (list_at "tool_plan" update) >>= λ n. ok (dict (("toolPlanCount", num n) ∷ []))
stage_metadata execute_map_tools update =
    ok (dict (("mapResultAvailable", bool (is_set (get_field "map_result" update))) ∷ []))
stage_metadata compose_answer update =
    ok (dict (("answerAvailable", bool (is_set (get_field "answer" update))) ∷ []))

abbrev text_or_none : Option Json → Option String
text_or_none (some (text s)) = some s
text_or_none _ = none

abbrev operation_of : AgentError → Option String
operation_of e = elim e.details [ obj fs ↦ text_or_none (get_field "operation" fs) | _ ↦ none ]

abbrev pub span : String → String → ℕ → Option String → Option String → Json → Span
span stage status duration operation error_code metadata = record {
  stage_name = stage;
  status = status;
  duration_ms = duration;
  operation = operation;
  error_code = error_code;
  attempt = 1;
  tool_call_id = none;
  metadata = some metadata;
}

-- the two `except` clauses
abbrev failed_operation : Exception → Option String
failed_operation (agent_error e) = operation_of e
failed_operation _ = none

abbrev failed_code : Exception → String
failed_code (agent_error e) = e.code
failed_code _ = "INTERNAL_ERROR"

abbrev pub failure_span : String → ℕ → Exception → Span
failure_span stage duration e =
    span stage "FAILED" duration (failed_operation e) (some (failed_code e)) (dict [])

abbrev pub success_span : Node → ℕ → Fields → Json → Span
success_span node duration update metadata =
    span (stage_of node) "SUCCEEDED" duration (text_or_none (get_field "model_operation" update))
      none metadata

-- a call of the store, and a result after it unless it raises
abbrev pub after : {A B : Type 0} → Result A × Db → Result B → Result B × Db
after (ok a, db) r = (r, db)
after (err e, db) r = (err e, db)

abbrev pub and_then : {A B : Type 0} → Result A × Db → (A → Call B) → Result B × Db
and_then (ok a, db) f = f a db
and_then (err e, db) f = (err e, db)

-- What a node takes of the clocks: the milliseconds since it has begun, and the instants at which
-- its spans are recorded.
pub record Times : Type 0 where
  pub duration : ℕ
  pub first_at : ℕ
  pub second_at : ℕ

-- to the next node, if there is one
abbrev pub go_on :
    Fields
    → Db
    → Result (Option Node)
    → (Node → Option (Result Fields) × Db)
    → Option (Result Fields) × Db
go_on state db (err e) run = (some (err e), db)
go_on state db (ok none) run = (some (ok state), db)
go_on state db (ok (some m)) run = run m

-- the state after a node, and the way from there
abbrev pub after_node :
    (Fields → Fields)
    → Node
    → (Fields → Db → Node → Option (Result Fields) × Db)
    → Result Fields × Db
    → Option (Result Fields) × Db
after_node merged node run (err e, db) = (some (err e), db)
after_node merged node run (ok update, db) =
    go_on (merged update) db (next_node node (merged update)) (run (merged update) db)

module _ (run_id : String) (times : Node → Times) where
  -- the span of a success, if its metadata can be computed
  abbrev pub record_success : Node → Fields → Result Json → Call Fields
  record_success node update (err e) db = (err e, db)
  record_success node update (ok metadata) db =
      after
        (record_stage (times node).first_at run_id
          (success_span node (times node).duration update metadata) db)
        (ok update)

  unfoldable pub observe_stage : Node → Result Fields × Db → Result Fields × Db
  unfolding stage_metadata record_stage get_field
  observe_stage node (ok update, db) = record_success node update (stage_metadata node update) db
  observe_stage node (err e, db) =
      after
        (record_stage (times node).first_at run_id
          (failure_span (stage_of node) (times node).duration e) db)
        (err e)

  -- the changes that `normalize_user_query` has made
  abbrev pub normalization_span : Fields → Span
  normalization_span update =
      span "INPUT_NORMALIZATION" "SUCCEEDED" 0 none none
        (dict (("changes", list_at "normalization_audit" update) ∷ []))

  -- `observed_route` and the other observed nodes
  unfoldable pub observed : Node → Result Fields × Db → Result Fields × Db
  unfolding observe_stage record_stage get_field
  observed route_intent outcome = and_then (observe_stage route_intent outcome) (λ update db.
      after (record_stage (times route_intent).second_at run_id (normalization_span update) db)
        (ok update))
  observed node outcome = observe_stage node outcome

  module _ (nodes : Node → Fields → Call Fields) (merge : Fields → Fields → Fields) where
    -- The graph from a node on, on fuel; `none` when the fuel runs out.
    unfoldable pub run_graph : ℕ → Node → Fields → Db → Option (Result Fields) × Db
    unfolding observed next_node
    run_graph zero node state db = (none, db)
    run_graph (suc fuel) node state db =
        after_node (merge state) node (λ s d m. run_graph fuel m s d)
          (observed node (nodes node state db))
