-- ===== src/Workflow/Criteria.antt =====
-- app/agent/workflow.py, `explicit_road_criteria`: the thresholds of road metrics that a query names.
pub mod Ranges
mod Examples
use Prim.Native.String.{◌++◌ as cat}
use yjdlagent.Prelude.{
  Bool, true, false, not, Option, none, some, List, [], ◌∷◌, ◌++◌, String, ◌&&◌, ◌||◌,
  if◌then◌else◌,
}
use yjdlagent.Json.{Json, real, text, dict}
use yjdlagent.Errors.{Result, ok, err, agent_error}
use yjdlagent.Python.{◌>>=◌}
use yjdlagent.Text.{is_in}
use yjdlagent.Text.Editing.{replace}
use yjdlagent.Workflow.Phrases.{
  Language, bad_request, refuse, value_of, ws_min_re, gvi_min_re, noi_max_re,
}

-- A key of ROAD_CRITERIA_VALUE_PATTERNS.
pub data Metric : Type 0 where
  ws_min gvi_min noi_max : Metric

abbrev pub metric_name : Metric → String
metric_name ws_min = "wsMin"
metric_name gvi_min = "gviMin"
metric_name noi_max = "noiMax"

abbrev pub pattern_of : Metric → String
pattern_of ws_min = ws_min_re
pattern_of gvi_min = gvi_min_re
pattern_of noi_max = noi_max_re

-- ROAD_CRITERIA_RANGES, and how `:g` writes them
abbrev pub minimum_of : Metric → String
minimum_of m = "0.0"

abbrev pub maximum_of : Metric → String
maximum_of ws_min = "100.0"
maximum_of gvi_min = "1.0"
maximum_of noi_max = "100.0"

abbrev range_text : Metric → String
range_text ws_min = "0-100"
range_text gvi_min = "0-1"
range_text noi_max = "0-100"

abbrev pub unsupported_minimum : String → Bool
unsupported_minimum operator =
    is_in "不高于" operator
    || is_in "至多" operator
    || is_in "<=" operator
    || is_in "低于" operator && not (is_in "不低于" operator)
    || is_in "小于" operator && not (is_in "不小于" operator)

abbrev pub unsupported_maximum : String → Bool
unsupported_maximum operator =
    is_in "不低于" operator
    || is_in "至少" operator
    || is_in ">=" operator
    || is_in "高于" operator && not (is_in "不高于" operator)
    || is_in "大于" operator && not (is_in "不大于" operator)

-- The operator asks for the other bound.
unfoldable pub is_unsupported : Metric → String → Bool
unfolding is_in
is_unsupported ws_min operator = unsupported_minimum operator
is_unsupported gvi_min operator = unsupported_minimum operator
is_unsupported noi_max operator = unsupported_maximum operator

abbrev unsupported_text : Metric → String
unsupported_text ws_min = "wsMin 仅支持最低阈值，不能映射最高阈值条件"
unsupported_text gvi_min = "gviMin 仅支持最低阈值，不能映射最高阈值条件"
unsupported_text noi_max = "noiMax 仅支持最高阈值，不能映射最低阈值条件"

abbrev pub bad_argument : {A : Type 0} → String → Result A
bad_argument message = refuse "INVALID_HOUSING_SEARCH_ARGUMENT" message

module _ (py : Language) where
  abbrev pub in_range : Metric → String → Bool
  in_range m value = py.le (minimum_of m) value && py.le value (maximum_of m)

  abbrev out_of_range : {A : Type 0} → Metric → String → Result A
  out_of_range m value = err (
      agent_error (
        bad_request "INVALID_HOUSING_SEARCH_ARGUMENT"
          (cat (metric_name m) (cat " 必须在 " (cat (range_text m) " 范围内")))
          (dict (
            ("field", text (metric_name m))
            ∷ ("value", real value)
            ∷ ("minimum", real (minimum_of m))
            ∷ ("maximum", real (maximum_of m))
            ∷ []))))

  -- the value of a match
  unfoldable pub criterion : Metric → (String → String) → Result (Metric × Json)
  unfolding is_unsupported replace
  criterion m found =
      if is_unsupported m (replace " " "" (found "operator"))
      then bad_argument (unsupported_text m)
      else if in_range m (py.float (found "value"))
      then ok (m, value_of py (py.float (found "value")))
      else out_of_range m (py.float (found "value"))

  abbrev pub criterion_of : Metric → Option (String → String) → Result (List (Metric × Json))
  criterion_of m none = ok []
  criterion_of m (some found) = criterion m found >>= λ c. ok (c ∷ [])

  -- the loop over the metrics
  unfoldable pub criteria_of : String → List Metric → Result (List (Metric × Json))
  unfolding criterion
  criteria_of query [] = ok []
  criteria_of query (m ∷ ms) = criterion_of m (py.search (pattern_of m) true query) >>= λ c.
      criteria_of query ms >>= λ cs. ok (c ++ cs)

  unfoldable pub explicit_road_criteria : String → Result (List (Metric × Json))
  unfolding criteria_of
  explicit_road_criteria query = criteria_of query (ws_min ∷ gvi_min ∷ noi_max ∷ [])
