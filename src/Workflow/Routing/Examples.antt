-- ===== src/Workflow/Routing/Examples.antt =====
-- Queries on their way to a route.
use yjdlagent.Python.Samples.{digits}
use yjdlagent.Prelude.{◌&&◌, leb, ◌≡◌, refl, true, none, [], ◌∷◌, String}
use yjdlagent.Json.{Fields, null}
use yjdlagent.Errors.{Result, ok}
use yjdlagent.Python.{Ensures}
use yjdlagent.Conversation.Context.{State}
use yjdlagent.Workflow.Phrases.{Language}
use yjdlagent.Workflow.Queries.{
  normalize_user_query, is_frozen_point_map_query, is_explicit_road_map_query,
  is_housing_search_query,
}
use yjdlagent.Workflow.Routing.{rag_qa, ModelRoute, route_intent}
use yjdlagent.Workflow.Routing.Intents.{IsRoute, route_intent-IsRoute}

-- ASCII digits, and patterns that are not found
abbrev ascii : Language
ascii = record {
  lower = λ s. s;
  is_digit = λ c. leb b'0' c && leb c b'9';
  search = λ p i s. none;
  find_all = λ p i s. [];
  substitute = λ p i r s. s;
  float = λ s. s;
  times = λ s n. s;
  as_int = λ s. none;
  le = λ a b. true;
}

abbrev empty_state : State
empty_state = record {
  entity_context = record {
    entity_type = none;
    districts = [];
    business_object_ids = [];
    selected_layer_ids = [];
  };
  query_context = record {
    last_successful_query = none;
    route = none;
    tool_name = none;
    tool_arguments = Fields.end;
    hard_filters = Fields.end;
    preferences = Fields.end;
    result_ref = none;
  };
  map_context = none;
  summary = "";
  history_digest = [];
  updated_at = none;
}

abbrev answer_rag : String → Result ModelRoute
answer_rag q = ok (record { intent = rag_qa; reason = "r"; clarification = "" })

variants :
    normalize_user_query "中山去房价"
    ≡ ("中山区房价", record { kind = "variant"; before = "中山去"; after = "中山区" } ∷ [])
unfolding normalize_user_query
variants = refl

dwellings : is_frozen_point_map_query ascii "查询中山区房价低于20000的住宅" ≡ true
unfolding is_frozen_point_map_query
dwellings = refl

roads : is_explicit_road_map_query ascii "查询中山区gvi大于1的道路" ≡ true
unfolding is_explicit_road_map_query
roads = refl

recommended : is_housing_search_query ascii "推荐便宜一点的房子" ≡ true
unfolding is_housing_search_query
recommended = refl

route_intent-IsRoute_example :
    Ensures
      (IsRoute (λ m. route_intent ascii digits (λ s. s) (λ fs. ok empty_state) [] null m "附近的树"))
      (route_intent ascii digits (λ s. s) (λ fs. ok empty_state) [] null answer_rag "附近的树")
route_intent-IsRoute_example =
    route_intent-IsRoute ascii digits (λ s. s) (λ fs. ok empty_state) [] null answer_rag "附近的树"
