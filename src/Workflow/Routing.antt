-- ===== src/Workflow/Routing.antt =====
-- app/agent/workflow.py: `route_intent`, which decides what a query asks for; Queries has the tests of a query
-- that it makes. The answer of the language model, which `complete_json` has checked by `ROUTE_SCHEMA`, is a
-- parameter.
pub mod Intents
mod Examples
use Prim.Native.Char.{code}
use yjdlagent.Prelude.{
  Bool, true, false, not, Option, none, some, is_some, List, [], ◌∷◌, ◌++◌, map, String, str_eq,
  ◌&&◌, ◌||◌, if◌then◌else◌,
}
use yjdlagent.Json.{Json, Fields, null, bool, text, arr, obj, nil, items, fields, dict}
use yjdlagent.Errors.{Result, ok, err}
use yjdlagent.Table.{any}
use yjdlagent.Text.{is_in}
use yjdlagent.Text.Editing.{replace}
use yjdlagent.Python.{Numbers, ◌>>=◌}
use yjdlagent.Capabilities.{
  housing_aliases, road_aliases, road_only_metric_terms, district_names, knowledge_request_terms,
  any_in, any_lower_in, is_knowledge_request,
}
use yjdlagent.Store.Schema.{Memory}
use yjdlagent.Conversation.{
  ConversationKind, summary, social, Entry, conversation_kind, conversation_answer,
}
use yjdlagent.Conversation.Context.{State, Digest}
use yjdlagent.Conversation.Followup.{Audit, load_business_state, contextualize_followup_query}
use yjdlagent.Workflow.Queries.{
  normalize_user_query, is_frozen_point_map_query, is_explicit_road_map_query,
  cross_layer_clarification, is_housing_search_query,
}
use yjdlagent.Workflow.Phrases.{Language, buffer_distance_re, explicit_price_max}

-- What the model answers, by its schema.
pub data Intent : Type 0 where
  map_query rag_qa hybrid clarify conversation : Intent

abbrev pub intent_text : Intent → String
intent_text map_query = "MAP_QUERY"
intent_text rag_qa = "RAG_QA"
intent_text hybrid = "HYBRID"
intent_text clarify = "CLARIFY"
intent_text conversation = "CONVERSATION"

pub record ModelRoute : Type 0 where
  pub intent : Intent
  pub reason : String
  pub clarification : String

-- The values that a branch of `route_intent` gives.
pub record Route : Type 0 where
  pub intent : Intent
  pub route_reason : String
  pub clarification_reason : String
  pub housing_search : Bool
  pub conversation_response : String
  pub model_operation : Option String
  pub normalized_query : String
  pub normalization_audit : List Audit

abbrev audit_json : Audit → Json
audit_json a = dict (("kind", text a.kind) ∷ ("from", text a.before) ∷ ("to", text a.after) ∷ [])

abbrev operation_entry : Option String → List (String × Json)
operation_entry none = []
operation_entry (some operation) = ("model_operation", text operation) ∷ []

-- `new_turn_route_update`: the values, and nothing in the place of what an earlier turn has left
unfoldable pub new_turn_route_update : Route → Fields
new_turn_route_update r = fields (
    ("retrieval_results", arr nil)
    ∷ ("retrieval_context", text "")
    ∷ ("citations", arr nil)
    ∷ ("tool_plan", arr nil)
    ∷ ("tool_outputs", arr nil)
    ∷ ("map_result", dict [])
    ∷ ("map_summary", dict [])
    ∷ ("answer", text "")
    ∷ ("conversation_response", text r.conversation_response)
    ∷ ("intent", text (intent_text r.intent))
    ∷ ("route_reason", text r.route_reason)
    ∷ ("clarification_reason", text r.clarification_reason)
    ∷ ("housing_search", bool r.housing_search)
    ∷ ("normalized_query", text r.normalized_query)
    ∷ ("normalization_audit", arr (items (map audit_json r.normalization_audit)))
    ∷ operation_entry r.model_operation)

-- Either the code decides by itself, or the model is asked with this query.
pub data Decision : Type 0 where
  decided : Route → Decision
  asks : String → List Audit → Decision

abbrev pub route_to : Intent → String → Bool → String → List Audit → Route
route_to intent reason housing_search query audit = record {
  intent = intent;
  route_reason = reason;
  clarification_reason = "";
  housing_search = housing_search;
  conversation_response = "";
  model_operation = none;
  normalized_query = query;
  normalization_audit = audit;
}

abbrev pub with_answer : String → List Audit → ModelRoute → Route
with_answer query audit m = record {
  intent = m.intent;
  route_reason = m.reason;
  clarification_reason = m.clarification;
  housing_search = false;
  conversation_response = "";
  model_operation = some "route";
  normalized_query = query;
  normalization_audit = audit;
}

abbrev pub with_model : String → List Audit → Result ModelRoute → Result Route
with_model query audit (err e) = err e
with_model query audit (ok m) = ok (with_answer query audit m)

abbrev kind_reason : ConversationKind → String
kind_reason summary = "确定性会话请求：SUMMARY"
kind_reason social = "确定性会话请求：SOCIAL"

-- `aggregate["conversation_memory"]`, as `_execute` builds it of the rows of the store
unfoldable pub memory_json : Memory → Json
memory_json m = dict (
    ("query", text m.user_query)
    ∷ ("answer", text m.assistant_answer)
    ∷ ("route", elim m.route [ none ↦ null | some r ↦ text r ])
    ∷ ("mapSummary", elim m.map_summary [ none ↦ null | some s ↦ s ])
    ∷ [])

-- what `conversation_answer` reads of an entry, and of an entry of the history of the state
abbrev entry_of : Memory → Entry
entry_of m = record { query = m.user_query; answer = m.assistant_answer; route = m.route }

abbrev digest_entry : Digest → Entry
digest_entry d = record { query = d.query; answer = d.answer; route = some d.route }

module _ (py : Language) (numbers : Numbers) (general : String → String)
    (validate : Fields → Result State) (memory : List Memory) (state : Json) where
  abbrev respond : ConversationKind → String → List Audit → State → Route
  respond kind query audit s = record (route_to conversation (kind_reason kind) false query audit) {
    conversation_response =
        conversation_answer kind (map entry_of memory) (some (map digest_entry s.history_digest));
  }

  -- the tests of a query that has been put into its context
  unfoldable pub decide_query : String → List Audit → Decision
  unfolding is_housing_search_query cross_layer_clarification is_frozen_point_map_query
      is_explicit_road_map_query
  decide_query query audit =
      if is_housing_search_query py query
      then decided (route_to map_query "请求使用住宅硬约束、道路 WS归一化 空间证据和模糊偏好进行业务推荐" true query audit)
      else elim (cross_layer_clarification py query) [
        | some clarification ↦
            decided (record (route_to clarify "请求把仅属于道路图层的指标用于住宅点判断" false query audit) {
              clarification_reason = clarification;
            })
        | none ↦
            if is_frozen_point_map_query py query
            then decided (route_to map_query "请求符合已冻结行政区映射下的住宅点查询能力" false query audit)
            else if is_explicit_road_map_query py query
            then decided (route_to map_query "用户明确提供了道路字段、比较条件和阈值" false query audit)
            else asks query audit
      ]

  abbrev pub decide_followup : List Audit → String × List Audit → Decision
  decide_followup audit (query, more) = decide_query query (audit ++ more)

  -- the tests of a query as it is
  abbrev pub decide_kind : String → List Audit → Option ConversationKind → Result Decision
  decide_kind query audit (some kind) =
      load_business_state validate state >>= λ s. ok (decided (respond kind query audit s))
  decide_kind query audit none =
      contextualize_followup_query py.lower general numbers validate query (map memory_json memory)
        state
      >>= λ r. ok (decide_followup audit r)

  abbrev pub decide_normalized : String × List Audit → Result Decision
  decide_normalized (query, audit) =
      if is_knowledge_request py.lower query
      then ok (decided (route_to rag_qa "确定性知识定义或计算问题" false query audit))
      else decide_kind query audit (conversation_kind query)

  unfoldable pub decide : String → Result Decision
  unfolding normalize_user_query is_knowledge_request conversation_kind contextualize_followup_query
      decide_query
  decide query = decide_normalized (normalize_user_query query)

  abbrev pub resolve : (String → Result ModelRoute) → Decision → Result Route
  resolve model (decided r) = ok r
  resolve model (asks query audit) = with_model query audit (model query)

  unfoldable pub route_intent : (String → Result ModelRoute) → String → Result Fields
  unfolding decide new_turn_route_update
  route_intent model query =
      decide query >>= λ d. resolve model d >>= λ r. ok (new_turn_route_update r)
