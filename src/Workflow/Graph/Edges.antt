-- ===== src/Workflow/Graph/Edges.antt =====
-- app/agent/workflow.py: the ways between the nodes of the graph, which lead forwards only.
use yjdlagent.Prelude.{
  ℕ, ◌<◌, ◌≡◌, refl, Bool, true, false, Option, none, some, map, arith, Bool-cases, inl, inr,
  if◌then◌else◌,
}
use yjdlagent.Json.{Fields}
use yjdlagent.Errors.{Result, ok, err}
use yjdlagent.Python.{Ensures, Ensures-any, item_of}
use yjdlagent.Workflow.Graph.{
  Node, route_intent, retrieve_knowledge, load_catalog, plan_housing_search, plan_map,
  execute_map_tools, compose_answer, is_either, equals_text, route_branch, after_retrieval, then_to,
  next_node,
}

-- The ways between the nodes.
pub data Edge : Node → Node → Type 0 where
  to_knowledge : Edge route_intent retrieve_knowledge
  to_map : Edge route_intent load_catalog
  to_answer : Edge route_intent compose_answer
  knowledge_map : Edge retrieve_knowledge load_catalog
  knowledge_answer : Edge retrieve_knowledge compose_answer
  map_housing : Edge load_catalog plan_housing_search
  map_plan : Edge load_catalog plan_map
  housing_tools : Edge plan_housing_search execute_map_tools
  plan_tools : Edge plan_map execute_map_tools
  tools_answer : Edge execute_map_tools compose_answer

-- nodes to come at most
abbrev pub rank : Node → ℕ
rank route_intent = 6
rank retrieve_knowledge = 5
rank load_catalog = 4
rank plan_housing_search = 3
rank plan_map = 3
rank execute_map_tools = 2
rank compose_answer = 1

pub Edge-rank : {n m : Node} → Edge n m → rank m < rank n
Edge-rank to_knowledge = omega arith
Edge-rank to_map = omega arith
Edge-rank to_answer = omega arith
Edge-rank knowledge_map = omega arith
Edge-rank knowledge_answer = omega arith
Edge-rank map_housing = omega arith
Edge-rank map_plan = omega arith
Edge-rank housing_tools = omega arith
Edge-rank plan_tools = omega arith
Edge-rank tools_answer = omega arith

pub rank-positive : (n : Node) → 0 < rank n
rank-positive route_intent = omega arith
rank-positive retrieve_knowledge = omega arith
rank-positive load_catalog = omega arith
rank-positive plan_housing_search = omega arith
rank-positive plan_map = omega arith
rank-positive execute_map_tools = omega arith
rank-positive compose_answer = omega arith

abbrev pub EdgeTo : Node → Result (Option Node) → Type 0
EdgeTo n (ok none) = n ≡ compose_answer
EdgeTo n (ok (some m)) = Edge n m
EdgeTo n (err e) = Unit

then_to-EdgeTo : (n : Node) (r : Result Node) → Ensures (Edge n) r → EdgeTo n (then_to r)
then_to-EdgeTo n (ok m) h = h
then_to-EdgeTo n (err e) h = tt

branch-Edge :
    (knowledge map : Bool)
    → Edge route_intent
        (if knowledge then retrieve_knowledge else if map then load_catalog else compose_answer)
branch-Edge true map = to_knowledge
branch-Edge false true = to_map
branch-Edge false false = to_answer

route_branch-Edge : (state : Fields) → Ensures (Edge route_intent) (route_branch state)
unfolding route_branch
route_branch-Edge state = Ensures-any (Edge route_intent) (item_of "intent" state) _ (λ intent.
    Ensures-any (Edge route_intent) (is_either intent "RAG_QA" "HYBRID") _
      (λ knowledge. branch-Edge knowledge (equals_text intent "MAP_QUERY")))

after_retrieval-Edge : (state : Fields) → Ensures (Edge retrieve_knowledge) (after_retrieval state)
unfolding after_retrieval
after_retrieval-Edge state =
    Ensures-any (Edge retrieve_knowledge) (item_of "intent" state) _ (λ intent.
      elim (Bool-cases (equals_text intent "HYBRID")) [
        | inl e ↦ rw e knowledge_map
        | inr e ↦ rw e knowledge_answer
      ])

if-Edge : (b : Bool) → Edge load_catalog (if b then plan_housing_search else plan_map)
if-Edge true = map_housing
if-Edge false = map_plan

pub next_node-EdgeTo : (n : Node) (state : Fields) → EdgeTo n (next_node n state)
unfolding next_node
next_node-EdgeTo route_intent state =
    then_to-EdgeTo route_intent (route_branch state) (route_branch-Edge state)
next_node-EdgeTo retrieve_knowledge state =
    then_to-EdgeTo retrieve_knowledge (after_retrieval state) (after_retrieval-Edge state)
next_node-EdgeTo load_catalog state = if-Edge _
next_node-EdgeTo plan_housing_search state = housing_tools
next_node-EdgeTo plan_map state = plan_tools
next_node-EdgeTo execute_map_tools state = tools_answer
next_node-EdgeTo compose_answer state = refl
