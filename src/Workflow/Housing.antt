-- ===== src/Workflow/Housing.antt =====
-- app/agent/workflow.py: `normalize_housing_search_arguments`, which puts what the query says in the place
-- of what a planner has planned, and `deterministic_housing_search_arguments`.
-- The answer of the language model, which `complete_json` has checked by
-- `HOUSING_PLAN_SCHEMA`, is a parameter.
pub mod Grounded
pub mod Node
mod Examples
use yjdlagent.Prelude.{
  ◌+◌, ℕ, suc, Bool, true, false, not, Option, none, some, is_some, List, [], ◌∷◌, ◌++◌, map,
  String, str_eq, leb, ◌==◌, ◌&&◌, ◌||◌, if◌then◌else◌,
}
use yjdlagent.Json.{Json, Fields, null, bool, num, real, text, arr, nil, fields, dict, items}
use yjdlagent.Table.{any}
use yjdlagent.Errors.{AgentError, no_details, Result, ok, err, agent_error}
use yjdlagent.Python.{◌>>=◌}
use yjdlagent.Text.{is_in}
use yjdlagent.Capabilities.{any_in, any_lower_in, road_only_metric_terms, district_names}
use yjdlagent.Workflow.Results.{ToolCall}
use yjdlagent.Workflow.Phrases.{
  Language, bad_request, buffer_distance_re, housing_limit_re, explicit_road_criteria_re,
  explicit_price_max, explicit_price_min, explicit_buffer_meters, has_explicit_preference_weight,
  requested_preference_level,
}
use yjdlagent.Workflow.Preferences.{
  Weight, left_out, unset, weighs, Preference, Preferences, Arithmetic, preference_json, weigh,
}
use yjdlagent.Workflow.Criteria.{Metric, metric_name, bad_argument, explicit_road_criteria}

pub data Mode : Type 0 where
  rank buffer_filter : Mode

-- The arguments of `searchHousingCandidates`, where `none` stands for a missing value and for `None`.
-- `relation` is always WITHIN_ROAD_BUFFER.
pub record Search : Type 0 where
  pub mode : Mode
  pub districts : List String
  pub price_min : Option Json
  pub price_max : Option Json
  pub preferences : Preferences
  pub road_criteria : List (Metric × Json)
  pub buffer_meters : Option ℕ
  pub include_roads : Bool
  pub include_buffers : Bool
  pub limit : ℕ

abbrev mode_name : Mode → String
mode_name rank = "RANK"
mode_name buffer_filter = "BUFFER_FILTER"

abbrev optional : String → Option Json → List (String × Json)
optional k none = []
optional k (some v) = (k, v) ∷ []

abbrev buffer_entry : Option ℕ → List (String × Json)
buffer_entry none = []
buffer_entry (some n) = ("bufferMeters", num n) ∷ []

-- the dict of the arguments
unfoldable pub search_json : Search → Fields
search_json s = fields (
    ("mode", text (mode_name s.mode))
    ∷ ("districts", arr (items (map text s.districts)))
    ∷ ("hardFilters", dict (optional "priceMin" s.price_min ++ optional "priceMax" s.price_max))
    ∷ (
      "preferences",
      dict (
          ("price", preference_json s.preferences.price)
          ∷ ("convenience", preference_json s.preferences.convenience)
          ∷ ("roadWalkability", preference_json s.preferences.road_walkability)
          ∷ []),
    )
    ∷ ("roadCriteria", dict (map (λ (c : Metric × Json). (metric_name c.0, c.1)) s.road_criteria))
    ∷ ("spatial", dict (("relation", text "WITHIN_ROAD_BUFFER") ∷ buffer_entry s.buffer_meters))
    ∷ (
      "display",
      dict (
          ("includeRoads", bool s.include_roads) ∷ ("includeBuffers", bool s.include_buffers) ∷ []),
    )
    ∷ ("limit", num s.limit)
    ∷ [])

-- the names in the query
abbrev pub named_in : String → List String → List String
named_in query [] = []
named_in query (d ∷ ds) = if is_in d query then d ∷ named_in query ds else named_in query ds

abbrev pub is_hard : String → Bool
is_hard level = str_eq level "HIGH" || str_eq level "VERY_HIGH"

abbrev pub requests_price : String → Bool
requests_price query = any_in ("价格尽量低" ∷ "房价尽量低" ∷ "便宜一点" ∷ "便宜点" ∷ "便宜些" ∷ "预算友好" ∷ []) query

abbrev pub requests_convenience : String → Bool
requests_convenience query = any_in ("便利" ∷ "方便" ∷ "省心" ∷ []) query

module _ (py : Language) (a : Arithmetic) where
  abbrev pub requests_roads : String → Bool
  requests_roads query =
      any_lower_in py.lower
        (road_only_metric_terms ++ "高步行" ∷ "步行条件" ∷ "道路步行" ∷ "周边道路" ∷ "附近道路" ∷ "好走" ∷ "走路" ∷ [])
        (py.lower query)

  abbrev convenience_level : String → String → String
  convenience_level query level =
      if requests_convenience query
      then requested_preference_level py query ("便利度" ∷ "便利" ∷ [])
      else level

  abbrev road_level : String → String → String
  road_level query level =
      if requests_roads query
      then requested_preference_level py query ("步行指数" ∷ "道路步行" ∷ "步行条件" ∷ "ws" ∷ [])
      else level

  abbrev is_spatial : String → Bool
  is_spatial query =
      any_in ("附近" ∷ "周边" ∷ "道路旁" ∷ "道路边" ∷ "范围内" ∷ "缓冲范围" ∷ "缓冲区" ∷ []) query
      || is_some (py.search buffer_distance_re true query)

  abbrev mode_of : String → Mode → String → Mode
  mode_of query planned level =
      if requests_roads query
      then (if is_hard level && is_spatial query then buffer_filter else rank)
      else planned

  -- without a weight in the query the planned one is dropped
  abbrev kept_weight : String → Bool → Weight → Weight
  kept_weight query requested w =
      if requested && not (has_explicit_preference_weight py query) then unset else w

  unfoldable pub requested_preferences : String → Preferences → Preferences
  unfolding any is_in requested_preference_level has_explicit_preference_weight
  requested_preferences query p = record {
    price = record {
      enabled = requests_price query;
      level = "PREFER_LOW";
      weight = kept_weight query (requests_price query) p.price.weight;
    };
    convenience = record {
      enabled = requests_convenience query;
      level = convenience_level query p.convenience.level;
      weight = kept_weight query (requests_convenience query) p.convenience.weight;
    };
    road_walkability = record {
      enabled = requests_roads query;
      level = road_level query p.road_walkability.level;
      weight = kept_weight query (requests_roads query) p.road_walkability.weight;
    };
  }

  abbrev pub check_limit : ℕ → Result ℕ
  check_limit n =
      if leb 1 n && leb n 50
      then ok n
      else err (
          agent_error (
            bad_request "INVALID_HOUSING_SEARCH_ARGUMENT" "候选住宅数量必须在 1 至 50 之间"
              (dict (("limit", num n) ∷ []))))

  abbrev pub limit_in : Option (String → String) → Result ℕ
  limit_in none = ok 20
  limit_in (some found) = a.int_of (found "value")

  unfoldable pub limit_of : String → Result ℕ
  limit_of query = limit_in (py.search housing_limit_re false query) >>= check_limit

  -- a distance comes of the query alone
  abbrev pub checked_distance : Option ℕ → Option ℕ → Result (Option ℕ)
  checked_distance planned (some n) = ok (some n)
  checked_distance none none = ok none
  checked_distance (some n) none = bad_argument "用户未指定道路缓冲距离，Planner 不得自行生成距离"

  abbrev pub crossed : Option Json → Option Json → Bool
  crossed (some low) (some high) = a.greater low high
  crossed _ _ = false

  abbrev pub crossed_prices : {A : Type 0} → Result A
  crossed_prices = bad_argument "最低房价不能高于最高房价"

  abbrev pub check_mode : Mode → Search → Result Search
  check_mode rank s = ok s
  check_mode buffer_filter s =
      if s.preferences.road_walkability.enabled && is_hard s.preferences.road_walkability.level
      then ok s
      else bad_argument "BUFFER_FILTER 必须启用 HIGH 或 VERY_HIGH 道路偏好"

  abbrev pub check_search : Search → Result Search
  check_search s = check_mode s.mode s

  -- the arguments, of what has been read
  abbrev pub grounded : Search → String → ℕ → Option ℕ → List (Metric × Json) → Preferences → Search
  grounded planned query limit distance criteria preferences = record {
    mode =
        mode_of query planned.mode
          (requested_preferences query planned.preferences).road_walkability.level;
    districts = named_in query district_names;
    price_min = explicit_price_min py query;
    price_max = explicit_price_max py query;
    preferences = preferences;
    road_criteria = criteria;
    buffer_meters = distance;
    include_roads = requests_roads query;
    include_buffers = requests_roads query;
    limit = limit;
  }

  abbrev pub read_query : Search → String → Result Search
  read_query planned query = limit_of query >>= λ limit.
      explicit_buffer_meters py query >>= checked_distance planned.buffer_meters >>= λ distance.
      explicit_road_criteria py query >>= λ criteria.
      weigh a (requested_preferences query planned.preferences) >>= λ preferences.
      check_search (grounded planned query limit distance criteria preferences)

  unfoldable pub normalize_housing_search_arguments : Search → String → Result Search
  unfolding requested_preferences limit_of explicit_buffer_meters explicit_road_criteria weigh
      explicit_price_min explicit_price_max is_in any
  normalize_housing_search_arguments planned query =
      if is_in "新步行" query
      then bad_argument "新步行是住宅点字段，不能替代道路 WS 参与联合搜索"
      else if crossed planned.price_min planned.price_max
      then crossed_prices
      else if crossed (explicit_price_min py query) (explicit_price_max py query)
      then crossed_prices
      else read_query planned query

  abbrev disabled : String → Weight → Preference
  disabled level weight = record { enabled = false; level = level; weight = weight }

  -- the arguments that `deterministic_housing_search_arguments` begins with
  abbrev pub default_search : Search
  default_search = record {
    mode = rank;
    districts = [];
    price_min = none;
    price_max = none;
    preferences = record {
      price = disabled "PREFER_LOW" (weighs (num 0));
      convenience = disabled "PREFER_HIGH" unset;
      road_walkability = disabled "PREFER_HIGH" unset;
    };
    road_criteria = [];
    buffer_meters = none;
    include_roads = false;
    include_buffers = false;
    limit = 20;
  }

  -- whether the query gives weights or thresholds, which the model reads
  unfoldable pub needs_model : String → Bool
  unfolding has_explicit_preference_weight
  needs_model query =
      has_explicit_preference_weight py query
      || is_some (py.search explicit_road_criteria_re true query)

  unfoldable pub deterministic_housing_search_arguments : String → Result (Option Search)
  unfolding needs_model normalize_housing_search_arguments
  deterministic_housing_search_arguments query =
      if needs_model query
      then ok none
      else normalize_housing_search_arguments default_search query >>= λ s. ok (some s)
