-- ===== src/Workflow/Phrases.antt =====
-- app/agent/workflow.py: the regular expressions that read numbers in a query, and the functions
-- `explicit_price_max`, `explicit_price_min`, `explicit_buffer_meters`, `explicit_road_criteria`,
-- `has_explicit_preference_weight` and `requested_preference_level`. The module `re` and the
-- floating-point numbers are parameters, with the texts of Python's `str.lower` and `str.isdigit`.
use yjdlagent.Prelude.{
  ℕ, Bool, true, false, not, Option, none, some, is_some, List, [], ◌∷◌, String, leb, ◌==◌, str_eq,
  ◌&&◌, ◌||◌, if◌then◌else◌,
}
use yjdlagent.Json.{Json, num, real, dict}
use yjdlagent.Table.{any}
use yjdlagent.Errors.{AgentError, no_details, Result, ok, err, agent_error}
use yjdlagent.Python.{◌>>=◌}
use yjdlagent.Capabilities.{any_in}
use yjdlagent.Text.{is_in, join, starts_with, slice_to}

-- What the functions take of Python. A match gives the text of a named group.
pub record Language : Type 0 where
  pub lower : String → String
  pub is_digit : ℕ → Bool
  -- `re.search`, `finditer` and `sub` of a pattern, with or without IGNORECASE
  pub search : String → Bool → String → Option (String → String)
  pub find_all : String → Bool → String → List (String → String)
  pub substitute : String → Bool → String → String → String
  -- floats by their literals: `float(text)`, `x * n`, `int(x)` if `x.is_integer()`, `x <= y`
  pub float : String → String
  pub times : String → ℕ → String
  pub as_int : String → Option ℕ
  pub le : String → String → Bool

abbrev pub buffer_distance_re : String
buffer_distance_re = "(?P<value>\\d+(?:\\.\\d+)?)\\s*(?P<unit>公里|千米|km|米|m)(?![A-Za-z])"

abbrev pub price_max_patterns : List String
price_max_patterns =
    "(?:房价|价格|预算)\\s*(?:不超过|不高于|最高(?:为)?|上限(?:为|改成|调整为)?)\\s*(?:每\\s*(?:平方米|平米|㎡)\\s*)?(?P<value>\\d+(?:\\.\\d+)?)"
    ∷ "每\\s*(?:平方米|平米|㎡)\\s*(?:房价|价格)?\\s*(?:不超过|不高于|最高(?:为)?|上限(?:为|改成|调整为)?)\\s*(?P<value>\\d+(?:\\.\\d+)?)"
    ∷ "(?:房价|价格|预算)\\s*(?P<value>\\d+(?:\\.\\d+)?)\\s*(?:元)?\\s*(?:以内|以下|之内)" ∷ []

abbrev pub price_min_patterns : List String
price_min_patterns =
    "(?:房价|价格|预算)\\s*(?:不低于|至少|最低(?:为)?|下限(?:为)?)\\s*(?:每\\s*(?:平方米|平米|㎡)\\s*)?(?P<value>\\d+(?:\\.\\d+)?)"
    ∷ "每\\s*(?:平方米|平米|㎡)\\s*(?:房价|价格)?\\s*(?:不低于|至少|最低(?:为)?|下限(?:为)?)\\s*(?P<value>\\d+(?:\\.\\d+)?)"
    ∷ "(?:房价|价格|预算)\\s*(?P<value>\\d+(?:\\.\\d+)?)\\s*(?:元)?\\s*(?:以上|起)" ∷ []

abbrev pub explicit_weight_re : String
explicit_weight_re = "权重|占比|百分之|\\d+(?:\\.\\d+)?\\s*%|[一二三四五六七八九十]成"

abbrev pub road_percentile_re : String
road_percentile_re = "(?:当前(?:行政)?区域|本区|区域)?\\s*(?:排名)?前\\s*(?P<value>\\d+(?:\\.\\d+)?)\\s*%"

abbrev pub housing_limit_re : String
housing_limit_re = "(?:找|挑|推荐|显示|返回|给我)\\s*(?P<value>\\d+)\\s*(?:套|个)(?:房|住宅|小区|楼盘)?"

abbrev pub explicit_road_criteria_re : String
explicit_road_criteria_re =
    "(?:GVI|NOI|WS(?:归一化)?|vegetation|noise|绿视率(?:原始值|原始分)?|道路噪声(?:原始值|原始分)?|道路步行指数|步行指数)\\s*(?:不低于|至少|高于|大于|不高于|至多|低于|小于|>=|>|<=|<)\\s*\\d"

abbrev pub ws_min_re : String
ws_min_re =
    "(?:WS(?:归一化)?|道路步行指数|步行指数)\\s*(?P<operator>不低于|至少|高于|大于|不高于|至多|低于|小于|>=|>|<=|<)\\s*(?P<value>\\d+(?:\\.\\d+)?)"

abbrev pub gvi_min_re : String
gvi_min_re =
    "(?:vegetation|绿视率(?:原始值|原始分)?)\\s*(?P<operator>不低于|至少|高于|大于|不高于|至多|低于|小于|>=|>|<=|<)\\s*(?P<value>\\d+(?:\\.\\d+)?)"

abbrev pub noi_max_re : String
noi_max_re =
    "(?:noise|道路噪声(?:原始值|原始分)?)\\s*(?P<operator>不低于|至少|高于|大于|不高于|至多|低于|小于|>=|>|<=|<)\\s*(?P<value>\\d+(?:\\.\\d+)?)"

abbrev pub ten_thousand_metres_re : String
ten_thousand_metres_re = "\\d+(?:\\.\\d+)?\\s*万\\s*(?:米|m)(?![A-Za-z0-9])"

abbrev pub limit_in_ten_thousands_re : String
limit_in_ten_thousands_re =
    "(?:不超过|不高于|最高|上限|以内|以下|之内)\\s*(?P<value>\\d+(?:\\.\\d+)?)\\s*万(?:元(?:/㎡|/平米|每平米)?|/㎡|/平米)?"

abbrev pub price_in_ten_thousands_re : String
price_in_ten_thousands_re =
    "(?:房价|价格|预算)\\s*(?P<value>\\d+(?:\\.\\d+)?)\\s*万(?:元(?:/㎡|/平米|每平米)?|/㎡|/平米)?\\s*(?:以内|以下|之内)"

abbrev pub near_high_road_re : String
near_high_road_re = "高(?:的)?(?:道路|路段).{0,8}(?:附近|周边)"

abbrev pub bad_request : String → String → Json → AgentError
bad_request code message details = record {
  code = code;
  message = message;
  status_code = 400;
  retryable = false;
  details = details;
  retry_count = 0;
}

abbrev pub refuse : {A : Type 0} → String → String → Result A
refuse code message = err (agent_error (bad_request code message no_details))

module _ (py : Language) where
  -- `int(value) if value.is_integer() else value`
  abbrev pub value_of : String → Json
  value_of x = elim (py.as_int x) [ none ↦ real x | some n ↦ num n ]

  -- the first pattern that is found
  unfoldable pub first_match : List String → String → Option (String → String)
  first_match [] query = none
  first_match (p ∷ ps) query = elim (py.search p false query) [
    | some m ↦ some m
    | none ↦ first_match ps query
  ]

  abbrev value_in : Option (String → String) → Option Json
  value_in none = none
  value_in (some m) = some (value_of (py.float (m "value")))

  abbrev or_match : Option (String → String) → Option (String → String) → Option (String → String)
  or_match none later = later
  or_match (some m) later = some m

  abbrev in_ten_thousands : String → Option (String → String)
  in_ten_thousands query =
      or_match (py.search limit_in_ten_thousands_re true query)
        (py.search price_in_ten_thousands_re true query)

  unfoldable pub explicit_price_max : String → Option Json
  unfolding first_match
  explicit_price_max query = elim (in_ten_thousands query) [
    | some m ↦ some (value_of (py.times (py.float (m "value")) 10000))
    | none ↦ value_in (first_match price_max_patterns query)
  ]

  unfoldable pub explicit_price_min : String → Option Json
  unfolding first_match
  explicit_price_min query = value_in (first_match price_min_patterns query)

  abbrev is_kilometre : String → Bool
  is_kilometre unit = str_eq unit "公里" || str_eq unit "千米" || str_eq unit "km"

  -- the metres of a match
  abbrev metres_of : (String → String) → String
  metres_of m =
      if is_kilometre (py.lower (m "unit"))
      then py.times (py.float (m "value")) 1000
      else py.float (m "value")

  abbrev pub bad_distance : {A : Type 0} → String → Result A
  bad_distance message = refuse "INVALID_BUFFER_DISTANCE" message

  -- the loop over the matches
  unfoldable pub distances : List (String → String) → Result (List ℕ)
  distances [] = ok []
  distances (m ∷ ms) = elim (py.as_int (metres_of m)) [
    | none ↦ bad_distance "道路缓冲距离必须换算为整数米"
    | some n ↦ distances ms >>= λ ns. ok (n ∷ ns)
  ]

  abbrev pub all_equal : ℕ → List ℕ → Bool
  all_equal n [] = true
  all_equal n (m ∷ ms) = if m == n then all_equal n ms else false

  unfoldable pub distance_of : List ℕ → Result (Option ℕ)
  distance_of [] = ok none
  distance_of (n ∷ ns) =
      if not (all_equal n ns)
      then bad_distance "请求中包含冲突的道路缓冲距离"
      else if leb 20 n && leb n 2000
      then ok (some n)
      else err (
          agent_error (
            bad_request "INVALID_BUFFER_DISTANCE" "道路缓冲距离必须在 20 至 2000 米之间"
              (dict (("bufferMeters", num n) ∷ []))))

  unfoldable pub explicit_buffer_meters : String → Result (Option ℕ)
  unfolding distances distance_of
  explicit_buffer_meters query =
      if is_some (py.search ten_thousand_metres_re true query)
      then bad_distance "道路缓冲距离必须使用 20 至 2000 米范围内的具体数值"
      else distances (py.find_all buffer_distance_re true query) >>= distance_of

  unfoldable pub has_explicit_preference_weight : String → Bool
  has_explicit_preference_weight query =
      is_some (py.search explicit_weight_re false (py.substitute road_percentile_re false "" query))

  -- The text behind the first place of a term: `text[text.find(term) :]`.
  unfoldable pub found_at : String → String → Option String
  unfolding starts_with
  found_at term String.[] = if starts_with term String.[] then some String.[] else none
  found_at term (String.◌∷◌ c s) =
      let later = found_at term s in
      if starts_with term (String.◌∷◌ c s) then some (String.◌∷◌ c s) else later

  unfoldable pub windows : String → List String → List String
  unfolding found_at slice_to
  windows normalized [] = []
  windows normalized (t ∷ ts) = elim (found_at (py.lower t) normalized) [
    | none ↦ windows normalized ts
    | some rest ↦ slice_to 24 rest ∷ windows normalized ts
  ]

  abbrev context_of : String → List String → String
  context_of normalized [] = normalized
  context_of normalized (w ∷ ws) = join " " (w ∷ ws)

  abbrev is_road_term : String → Bool
  is_road_term term =
      str_eq (py.lower term) "步行指数"
      || str_eq (py.lower term) "道路步行"
      || str_eq (py.lower term) "步行条件"
      || str_eq (py.lower term) "ws"

  -- float(percentile) <= 10, of a match if there is one
  abbrev in_top_ten : Option (String → String) → Bool
  in_top_ten none = false
  in_top_ten (some m) = py.le (py.float (m "value")) (py.float "10")

  unfoldable pub level_in : String → String
  unfolding any is_in
  level_in context =
      if any_in ("非常高" ∷ "很高" ∷ []) context
      then "VERY_HIGH"
      else if any_in ("必须高" ∷ "务必高" ∷ "至少高" ∷ []) context
      then "HIGH"
      else if any_in ("高一点" ∷ "高一些" ∷ "尽量高" ∷ "较高" ∷ []) context
      then "PREFER_HIGH"
      else if is_some (py.search near_high_road_re false context)
      then "HIGH"
      else "PREFER_HIGH"

  unfoldable pub requested_preference_level : String → List String → String
  unfolding windows level_in any join
  requested_preference_level query terms =
      if any is_road_term terms && in_top_ten (py.search road_percentile_re false (py.lower query))
      then "VERY_HIGH"
      else level_in (context_of (py.lower query) (windows (py.lower query) terms))
