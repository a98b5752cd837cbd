-- ===== src/Workflow/Routing/Intents.antt =====
-- app/agent/workflow.py, `route_intent`: what every route has.
use yjdlagent.Prelude.{
  ◌∙◌, ◌≡◌, ◌⊎◌, refl, ap, true, false, Option, none, some, List, [], ◌++◌, map, String, Bool-cases,
  Option-cases, inl, inr,
}
use yjdlagent.Json.{Json, Fields, bool, text, arr, nil, dict, get_field}
use yjdlagent.Errors.{Result, ok, err}
use yjdlagent.Python.{Numbers, ◌>>=◌, Ensures, Ensures-any, item_of}
use yjdlagent.Capabilities.{is_knowledge_request}
use yjdlagent.Store.Schema.{Memory}
use yjdlagent.Conversation.{ConversationKind, conversation_kind}
use yjdlagent.Conversation.Context.{State}
use yjdlagent.Conversation.Followup.{Audit, load_business_state, contextualize_followup_query}
use yjdlagent.Workflow.Phrases.{Language}
use yjdlagent.Workflow.Graph.{Node, retrieve_knowledge, load_catalog, compose_answer, route_branch}
use yjdlagent.Workflow.Queries.{
  normalize_user_query, is_frozen_point_map_query, is_explicit_road_map_query,
  cross_layer_clarification, is_housing_search_query,
}
use yjdlagent.Workflow.Routing.{
  memory_json, Intent, map_query, rag_qa, hybrid, clarify, conversation, intent_text, ModelRoute,
  Route, new_turn_route_update, Decision, decided, asks, decide_query, decide_followup, decide_kind,
  decide_normalized, decide, with_answer, with_model, resolve, route_intent,
}

-- The node that the graph goes to with an intent.
abbrev pub node_of : Intent → Node
node_of map_query = load_catalog
node_of rag_qa = retrieve_knowledge
node_of hybrid = retrieve_knowledge
node_of clarify = compose_answer
node_of conversation = compose_answer

-- What an earlier turn has left is gone.
pub record IsCleared (update : Fields) : Type 0 where
  pub results : get_field "retrieval_results" update ≡ some (arr nil)
  pub context : get_field "retrieval_context" update ≡ some (text "")
  pub citations : get_field "citations" update ≡ some (arr nil)
  pub plan : get_field "tool_plan" update ≡ some (arr nil)
  pub outputs : get_field "tool_outputs" update ≡ some (arr nil)
  pub map_result : get_field "map_result" update ≡ some (dict [])
  pub map_summary : get_field "map_summary" update ≡ some (dict [])
  pub answer : get_field "answer" update ≡ some (text "")

-- An update of `route_intent`, where `run` is the call with any model.
pub record IsRoute (run : (String → Result ModelRoute) → Result Fields) (update : Fields)
    : Type 0 where
  pub intent : Intent
  pub named : get_field "intent" update ≡ some (text (intent_text intent))
  pub next : route_branch update ≡ ok (node_of intent)
  pub cleared : IsCleared update
  pub for_housing :
      (get_field "housing_search" update ≡ some (bool false))
      ⊎ ((get_field "housing_search" update ≡ some (bool true)) × (intent ≡ map_query))
  pub unasked :
      (get_field "model_operation" update ≡ some (text "route"))
      ⊎ ((get_field "model_operation" update ≡ none)
          × ((model : String → Result ModelRoute) → run model ≡ ok update))

update-IsCleared : (r : Route) → IsCleared (new_turn_route_update r)
unfolding new_turn_route_update get_field
update-IsCleared r = record {
  results = refl;
  context = refl;
  citations = refl;
  plan = refl;
  outputs = refl;
  map_result = refl;
  map_summary = refl;
  answer = refl;
}

update-intent :
    (r : Route) → get_field "intent" (new_turn_route_update r) ≡ some (text (intent_text r.intent))
unfolding new_turn_route_update get_field
update-intent r = refl

update-housing_search :
    (r : Route)
    → get_field "housing_search" (new_turn_route_update r) ≡ some (bool r.housing_search)
unfolding new_turn_route_update get_field
update-housing_search r = refl

abbrev operation_json : Option String → Option Json
operation_json none = none
operation_json (some s) = some (text s)

-- the operation is the last field, which may be missing
update-model_operation :
    (r : Route) (o : Option String)
    → get_field "model_operation" (new_turn_route_update (record r { model_operation = o }))
      ≡ operation_json o
unfolding new_turn_route_update get_field
update-model_operation r none = refl
update-model_operation r (some s) = refl

update-alone :
    (r : Route)
    → r.model_operation ≡ none
    → get_field "model_operation" (new_turn_route_update r) ≡ none
update-alone r e = update-model_operation r r.model_operation ∙ ap operation_json e

branch_text :
    (update : Fields) (i : Intent)
    → get_field "intent" update ≡ some (text (intent_text i))
    → route_branch update ≡ ok (node_of i)
unfolding route_branch item_of
branch_text update map_query e = rw (e, item_of) refl
branch_text update rag_qa e = rw (e, item_of) refl
branch_text update hybrid e = rw (e, item_of) refl
branch_text update clarify e = rw (e, item_of) refl
branch_text update conversation e = rw (e, item_of) refl

-- a housing search is a map query
abbrev Fits : Route → Type 0
Fits r = (r.housing_search ≡ false) ⊎ ((r.housing_search ≡ true) × (r.intent ≡ map_query))

-- The code decides without the model.
abbrev Decides : Decision → Type 0
Decides (decided r) = Fits r × (r.model_operation ≡ none)
Decides (asks query audit) = Unit

module _ (py : Language) (numbers : Numbers) (general : String → String)
    (validate : Fields → Result State) (memory : List Memory) (state : Json) where
  decide_query-Decides :
      (query : String) (audit : List Audit)
      → Decides (decide_query py numbers general validate memory state query audit)
  unfolding decide_query
  decide_query-Decides query audit = elim (Bool-cases (is_housing_search_query py query)) [
    | inl e ↦ rw e (inr (refl, refl), refl)
    | inr e ↦ elim (Option-cases (cross_layer_clarification py query)) [
      | inr (c, f) ↦ rw (e, f) (inl refl, refl)
      | inl f ↦ elim (Bool-cases (is_frozen_point_map_query py query)) [
        | inl g ↦ rw (e, f, g) (inl refl, refl)
        | inr g ↦ elim (Bool-cases (is_explicit_road_map_query py query)) [
          | inl h ↦ rw (e, f, g, h) (inl refl, refl)
          | inr h ↦ rw (e, f, g, h) tt
        ]
      ]
    ]
  ]

  decide_kind-Decides :
      (query : String) (audit : List Audit) (k : Option ConversationKind)
      → Ensures Decides (decide_kind py numbers general validate memory state query audit k)
  decide_kind-Decides query audit (some kind) =
      Ensures-any Decides (load_business_state validate state) _ (λ s. (inl refl, refl))
  decide_kind-Decides query audit none =
      Ensures-any {A = String × List Audit} Decides
        (contextualize_followup_query py.lower general numbers validate query
          (map memory_json memory) state)
        (λ r. ok (decide_followup py numbers general validate memory state audit r))
        (λ r. decide_query-Decides r.0 (audit ++ r.1))

  decide_normalized-Decides :
      (r : String × List Audit)
      → Ensures Decides (decide_normalized py numbers general validate memory state r)
  decide_normalized-Decides (query, audit) =
      elim (Bool-cases (is_knowledge_request py.lower query)) [
        | inl e ↦ rw e (inl refl, refl)
        | inr e ↦ rw e (decide_kind-Decides query audit (conversation_kind query))
      ]

  abbrev Runs : Result Decision → (String → Result ModelRoute) → Result Fields
  Runs d model = d >>= λ d'. resolve py numbers general validate memory state model d' >>= λ r.
      ok (new_turn_route_update r)

  asked-IsRoute :
      (query : String) (audit : List Audit) (answer : Result ModelRoute)
      → Ensures
          (IsRoute (Runs (ok (asks query audit))))
          (with_model query audit answer >>= λ r. ok (new_turn_route_update r))
  asked-IsRoute query audit (err e) = tt
  asked-IsRoute query audit (ok m) =
      let r = with_answer query audit m in
      record {
        intent = m.intent;
        named = update-intent r;
        next = branch_text (new_turn_route_update r) m.intent (update-intent r);
        cleared = update-IsCleared r;
        for_housing = inl (update-housing_search r);
        unasked = inl (update-model_operation r (some "route"));
      }

  resolved-IsRoute :
      (d : Result Decision) (model : String → Result ModelRoute)
      → Ensures Decides d
      → Ensures (IsRoute (Runs d)) (Runs d model)
  resolved-IsRoute (err e) model h = tt
  resolved-IsRoute (ok (decided r)) model (fits, alone) = record {
    intent = r.intent;
    named = update-intent r;
    next = branch_text (new_turn_route_update r) r.intent (update-intent r);
    cleared = update-IsCleared r;
    for_housing = elim fits [
      | inl e ↦ inl (update-housing_search r ∙ ap (λ b. some (bool b)) e)
      | inr p ↦ inr (update-housing_search r ∙ ap (λ b. some (bool b)) p.0, p.1)
    ];
    unasked = inr (update-alone r alone, λ m. refl);
  }
  resolved-IsRoute (ok (asks query audit)) model h = asked-IsRoute query audit (model query)

  -- An update that `route_intent` gives names one of the five intents and `route_branch` finds the next node by it, it clears what earlier turns have left, it marks a housing search only with MAP_QUERY, and it either names the model's operation `route` or names none, and then every answer of the model leads to the same update.
  pub route_intent-IsRoute :
      (model : String → Result ModelRoute) (query : String)
      → Ensures
          (IsRoute (λ m. route_intent py numbers general validate memory state m query))
          (route_intent py numbers general validate memory state model query)
  unfolding route_intent decide
  route_intent-IsRoute model query =
      resolved-IsRoute
        (decide_normalized py numbers general validate memory state (normalize_user_query query))
        model (decide_normalized-Decides (normalize_user_query query))
