-- ===== src/Conversation/State.antt =====
-- app/agent/conversation_state.py: the records of the state of a conversation and
-- `build_committed_state`. The message of a validation error of pydantic is left out, and the
-- integers among the other numbers of JSON are a parameter.
pub mod Commit
mod Examples
use yjdlagent.Prelude.{
  ℕ, ◌-◌, Bool, true, false, not, Option, none, some, List, [], ◌∷◌, ◌++◌, map, String, length,
  drop, str_eq, ◌&&◌, ◌||◌, if◌then◌else◌,
}
use yjdlagent.Json.{
  Json, Fields, null, bool, num, real, text, iso, arr, obj, nil, end, field, dict, items, fields,
  get_field, truthy,
}
use yjdlagent.Errors.{Result, ok, err, Exception, value_error, type_error, attribute_error}
use yjdlagent.Python.{ℤ, pos, ◌>>=◌, or_default, get_of, iterate}
use yjdlagent.Text.{is_in, slice_to}
use yjdlagent.Tools.{put_field}
use yjdlagent.Workflow.Results.{ToolCall}
use yjdlagent.Capabilities.{housing, road, EntityType, district_names}
use yjdlagent.Conversation.Context.{EntityContext, QueryContext, Digest, State, Turn}

abbrev pub validation_error : Exception
validation_error = value_error ""

unfoldable pub named_in : String → List String → List String
unfolding is_in
named_in query [] = []
named_in query (n ∷ ns) = if is_in n query then n ∷ named_in query ns else named_in query ns

-- `_districts_from_query`
abbrev pub districts_from_query : String → List String
districts_from_query query = named_in query district_names

abbrev or_null : Option Json → Json
or_null = or_default null

-- texts[-n:], for n > 0
abbrev pub last_of : {A : Type 0} → ℕ → List A → List A
last_of n xs = drop (length xs - n) xs

-- the fields of every turn
unfoldable pub with_turn : Turn → State → State
unfolding slice_to
with_turn turn s = record s {
  map_context = turn.map_context;
  summary = slice_to 2000 turn.answer;
  updated_at = some turn.updated_at;
  entity_context = record s.entity_context { business_object_ids = turn.business_object_ids };
  history_digest = last_of 12 (
      s.history_digest
      ++ record {
        query = slice_to 500 turn.query;
        answer = slice_to 800 turn.answer;
        route = elim turn.intent [ none ↦ "" | some i ↦ i ];
      }
        ∷ []);
}

-- The variables of the branches over the tool.
pub record Parts : Type 0 where
  pub entity_type : EntityType
  pub districts : List String
  pub hard_filters : Json
  pub preferences : Json
  pub selected_layers : List ℤ

-- a list of texts, as pydantic checks it
abbrev pub all_texts : List Json → Result (List String)
all_texts [] = ok []
all_texts (text s ∷ rest) = all_texts rest >>= λ done. ok (s ∷ done)
all_texts (x ∷ rest) = err validation_error

abbrev pub as_dict : Json → Result Fields
as_dict (obj fs) = ok fs
as_dict _ = err validation_error

abbrev equals_text : String → Option Json → Bool
equals_text s (some (text t)) = str_eq t s
equals_text s _ = false

-- `item.get("operator") in {"<=", "<"}`, which raises for a list and a dict
abbrev is_upper : Option Json → Result Bool
is_upper (some (text t)) = ok (str_eq t "<=" || str_eq t "<")
is_upper (some (arr xs)) = err type_error
is_upper (some (obj fs)) = err type_error
is_upper _ = ok false

abbrev with_bound : Json → Fields → Bool → Fields
with_bound value filters true = put_field "priceMax" value filters
with_bound value filters false = filters

abbrev upper_bound : Fields → Fields → Result Fields
upper_bound item filters =
    let bound = is_upper (get_field "operator" item) >>= λ upper.
    ok (with_bound (or_null (get_field "value" item)) filters upper) in
    if equals_text "房价" (get_field "field" item) then bound else ok filters

-- the loop over the filters of a query of points
unfoldable pub price_filters : List Json → Fields → Result Fields
unfolding put_field get_field
price_filters [] filters = ok filters
price_filters (obj item ∷ rest) filters = upper_bound item filters >>= price_filters rest
price_filters (x ∷ rest) filters = err attribute_error

-- `_map_result_reference`
abbrev pub reference_count : Fields → Json
reference_count item = dict (
    ("role", or_null (get_field "role" item))
    ∷ ("layerId", or_null (get_field "layerId" item))
    ∷ ("total", or_null (get_field "total" item))
    ∷ ("returned", or_null (get_field "returned" item))
    ∷ [])

unfoldable pub reference_counts : List Json → Result (List Json)
unfolding get_field
reference_counts [] = ok []
reference_counts (obj item ∷ rest) =
    reference_counts rest >>= λ done. ok (reference_count item ∷ done)
reference_counts (x ∷ rest) = err attribute_error

abbrev is_set : Option Json → Bool
is_set none = false
is_set (some v) = truthy v

unfoldable pub map_result_reference : Json → Result (Option Fields)
unfolding reference_counts get_field truthy
map_result_reference (obj m) =
    iterate (
      if is_set (get_field "resultSets" m)
      then or_null (get_field "resultSets" m)
      else or_default (arr nil) (get_field "resultCounts" m))
    >>= λ sets. reference_counts sets >>= λ counts. ok (
        some (
          fields (
            ("queryId", or_null (get_field "queryId" m))
            ∷ ("querySummary", or_null (get_field "querySummary" m))
            ∷ ("resultCounts", arr (items counts))
            ∷ [])))
map_result_reference _ = ok none

-- `intent == "MAP_QUERY"`
abbrev pub is_map_query : Option String → Bool
is_map_query none = false
is_map_query (some intent) = str_eq intent "MAP_QUERY"

module _ (as_int : String → Option ℤ) where
  -- `[arguments["layerId"]] if isinstance(arguments.get("layerId"), int) else []`
  abbrev pub layers_of : Option Json → List ℤ
  layers_of (some (num n)) = pos n ∷ []
  layers_of (some (bool true)) = pos 1 ∷ []
  layers_of (some (bool false)) = pos 0 ∷ []
  layers_of (some (real s)) = elim (as_int s) [ none ↦ [] | some n ↦ n ∷ [] ]
  layers_of _ = []

  abbrev housing_parts : List String → Fields → Result Parts
  housing_parts districts arguments =
      iterate (
        or_default (arr (items (map (λ (d : String). text d) districts)))
          (get_field "districts" arguments))
      >>= all_texts
      >>= λ chosen. ok (record {
        entity_type = housing;
        districts = chosen;
        hard_filters = or_default (obj end) (get_field "hardFilters" arguments);
        preferences = or_default (obj end) (get_field "preferences" arguments);
        selected_layers = [];
      })

  abbrev map_filters : Fields → Json
  map_filters arguments = or_default (arr nil) (get_field "filters" arguments)

  abbrev point_parts : List String → Fields → Result Parts
  point_parts districts arguments = iterate (map_filters arguments) >>= λ filters.
      price_filters filters end >>= λ hard_filters. ok (record {
        entity_type = housing;
        districts = districts;
        hard_filters = obj (put_field "mapFilters" (map_filters arguments) hard_filters);
        preferences = obj end;
        selected_layers = layers_of (get_field "layerId" arguments);
      })

  abbrev line_parts : List String → Fields → Result Parts
  line_parts districts arguments = ok (record {
    entity_type = road;
    districts = districts;
    hard_filters = obj (put_field "mapFilters" (map_filters arguments) end);
    preferences = obj end;
    selected_layers = layers_of (get_field "layerId" arguments);
  })

  abbrev pub kept_parts : Result Parts → Result (Option Parts)
  kept_parts r = r >>= λ p. ok (some p)

  -- the branches over the tool; nothing for any other tool
  unfoldable pub parts_of : String → ToolCall → Result (Option Parts)
  unfolding price_filters get_field put_field named_in
  parts_of query call =
      let districts = districts_from_query query in
      if str_eq call.tool_name "searchHousingCandidates"
      then kept_parts (housing_parts districts call.arguments)
      else if str_eq call.tool_name "queryMapPoints"
      then kept_parts (point_parts districts call.arguments)
      else if str_eq call.tool_name "queryMapLines"
      then kept_parts (line_parts districts call.arguments)
      else ok none

  -- the new contexts
  unfoldable pub with_query : Turn → ToolCall → State → Parts → Result State
  unfolding map_result_reference
  with_query turn call s p = map_result_reference turn.map_result >>= λ result_ref.
      as_dict p.hard_filters >>= λ hard_filters. as_dict p.preferences >>= λ preferences.
      ok (record s {
        entity_context = record {
          entity_type = some p.entity_type;
          districts = p.districts;
          business_object_ids = turn.business_object_ids;
          selected_layer_ids = p.selected_layers;
        };
        query_context = record {
          last_successful_query = some turn.query;
          route = turn.intent;
          tool_name = some call.tool_name;
          tool_arguments = call.arguments;
          hard_filters = hard_filters;
          preferences = preferences;
          result_ref = result_ref;
        };
      })

  abbrev pub with_parts : Turn → ToolCall → State → Option Parts → Result State
  with_parts turn call s none = ok s
  with_parts turn call s (some p) = with_query turn call s p

  abbrev pub with_plan : Turn → State → List ToolCall → Result State
  with_plan turn s [] = ok s
  with_plan turn s (call ∷ calls) =
      if is_map_query turn.intent then parts_of turn.query call >>= with_parts turn call s else ok s

  unfoldable pub build_committed_state : State → Turn → Result State
  unfolding with_turn parts_of with_query
  build_committed_state previous turn = with_plan turn (with_turn turn previous) turn.tool_plan
