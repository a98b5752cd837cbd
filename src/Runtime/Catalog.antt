-- ===== src/Runtime/Catalog.antt =====
-- app/agent/runtime.py: `_load_catalog`, `_refresh_catalog` and `refresh_catalog_health`. The answers of the map
-- service, the test of JSON schemas, and whether the timeout of the client is at most a number of milliseconds
-- are parameters.
pub mod Readiness
mod Examples
use Prim.Native.Char.{code}
use yjdlagent.Prelude.{
  ℕ, Bool, true, false, not, Option, none, some, List, [], ◌∷◌, ◌++◌, map, String, str_eq, ltb,
  ◌&&◌, if◌then◌else◌,
}
use yjdlagent.Json.{Json, Fields, null, num, text, arr, obj, nil, dict, items, get_field}
use yjdlagent.Errors.{AgentError, no_details, Result, ok, err, Exception, agent_error, value_error}
use yjdlagent.Python.{
  ℤ, pos, negsuc, Numbers, ◌>>=◌, get_of, or_default, item_of, iterate, int_of, text_of, dedupe,
}
use yjdlagent.Tools.{data_of}
use yjdlagent.Workflow.Planning.{normalize_catalog}

-- `_catalog`, `_tool_health` and `initialization_error` of the runtime.
pub record Service : Type 0 where
  pub catalog : Option Fields
  pub tool_health : Option Fields
  pub initialization_error : Option AgentError

abbrev max_int : ℤ → ℤ → ℤ
max_int (pos a) (pos b) = if ltb a b then pos b else pos a
max_int (pos a) (negsuc b) = pos a
max_int (negsuc a) (pos b) = pos b
max_int (negsuc a) (negsuc b) = if ltb b a then negsuc b else negsuc a

abbrev pub short_timeout : AgentError
short_timeout = record {
  code = "INTERNAL_ERROR";
  message = "Agent Tool 客户端超时必须大于 Catalog 声明值";
  status_code = 500;
  retryable = false;
  details = no_details;
  retry_count = 0;
}

abbrev unhealthy : String → String → Json → AgentError
unhealthy code message details = record {
  code = code;
  message = message;
  status_code = 503;
  retryable = true;
  details = details;
  retry_count = 0;
}

abbrev phase : String → List (String × Json) → Json
phase name more = dict (("phase", text name) ∷ more)

-- value == "READY"
abbrev pub is_ready : Option Json → Bool
is_ready (some (text s)) = str_eq s "READY"
is_ready _ = false

abbrev text_le : String → String → Bool
text_le String.[] t = true
text_le (String.◌∷◌ c s) String.[] = false
text_le (String.◌∷◌ c s) (String.◌∷◌ d t) =
    let rest = text_le s t in
    if ltb (code c) (code d) then true else if ltb (code d) (code c) then false else rest

-- sorted() of a set of at most two texts
abbrev sorted_pair : List String → List String
sorted_pair (a ∷ b ∷ []) = if text_le a b then a ∷ b ∷ [] else b ∷ a ∷ []
sorted_pair versions = versions

-- the set is { version }
abbrev pub all_named : String → List String → Bool
all_named v [] = true
all_named v (w ∷ ws) = str_eq w v && all_named v ws

abbrev pub are_version : Json → List String → Bool
are_version version [] = false
are_version (text v) (w ∷ ws) = all_named v (w ∷ ws)
are_version _ (w ∷ ws) = false

module _ (py : Numbers) (is_schema : Json → Bool) (is_at_most : ℤ → Bool) where
  abbrev timeout_of : Json → Result ℤ
  timeout_of tool = get_of "timeoutMs" tool >>= λ t. int_of py (or_default (num 0) t)

  abbrev longest_from : ℤ → List Json → Result ℤ
  longest_from longest [] = ok longest
  longest_from longest (t ∷ ts) = timeout_of t >>= λ n. longest_from (max_int longest n) ts

  -- max(int(tool.get("timeoutMs", 0)) for tool in tools)
  unfoldable pub declared_timeout : List Json → Result ℤ
  unfolding get_of
  declared_timeout [] = err (value_error "max() arg is an empty sequence")
  declared_timeout (t ∷ ts) = timeout_of t >>= λ n. longest_from n ts

  -- of what the map service answers
  unfoldable pub load_catalog : Result Fields → Result Fields
  unfolding normalize_catalog declared_timeout item_of
  load_catalog response = response >>= normalize_catalog is_schema >>= λ catalog.
      item_of "tools" catalog >>= iterate >>= declared_timeout >>= λ declared.
      if is_at_most declared then err (agent_error short_timeout) else ok catalog

  abbrev refreshed : Service → Result Fields → Service × Result (Unit {0})
  refreshed s (ok catalog) =
      (record s { catalog = some catalog; initialization_error = none }, ok tt)
  refreshed s (err (agent_error e)) =
      (record s { initialization_error = some e }, err (agent_error e))
  refreshed s (err e) = (s, err e)

  unfoldable pub refresh_catalog : Result Fields → Service → Service × Result (Unit {0})
  unfolding load_catalog
  refresh_catalog response s = refreshed s (load_catalog response)

  abbrev pub version_text : Option Json → List String
  version_text none = []
  version_text (some null) = []
  version_text (some v) = text_of py v ∷ []

  abbrev pub reported_versions : Fields → Fields → List String
  reported_versions health snapshot = dedupe (
      version_text (get_field "catalogVersion" health)
      ++ version_text (get_field "catalogVersion" snapshot))

  abbrev mismatch : Json → List String → Fields → AgentError
  mismatch version reported health =
      unhealthy "TOOL_CATALOG_VERSION_MISMATCH"
        "Spring Tool health and Catalog versions do not match"
        (dict (
          ("expectedVersion", version)
          ∷ ("healthVersions", arr (items (map text (sorted_pair reported))))
          ∷ ("toolHealth", obj health)
          ∷ []))

  -- the tests of a health answer with a housing snapshot
  abbrev pub check_snapshot : Fields → Fields → Json → Result (Unit {0})
  check_snapshot health snapshot version =
      if is_ready (get_field "status" health) && is_ready (get_field "status" snapshot)
      then (if are_version version (reported_versions health snapshot)
          then ok tt
          else err (agent_error (mismatch version (reported_versions health snapshot) health)))
      else err (
          agent_error (
            unhealthy "TOOL_EXECUTION_FAILED" "Spring Tool housing snapshot is not ready"
              (phase "readiness" (("toolHealth", obj health) ∷ []))))

  abbrev pub check_health : Fields → Fields → Option Json → Result (Unit {0})
  check_health catalog health (some (obj snapshot)) =
      item_of "version" catalog >>= check_snapshot health snapshot
  check_health catalog health _ = err (
      agent_error (
        unhealthy "TOOL_EXECUTION_FAILED" "Spring Tool health is missing housingSnapshot"
          (phase "housing-snapshot" (("toolHealth", obj health) ∷ []))))

  abbrev pub settle : Service → Fields → Result (Unit {0}) → Service × Result (Unit {0})
  settle s catalog (ok u) =
      (record s { catalog = some catalog; initialization_error = none }, ok tt)
  settle s catalog (err e) = (s, err e)

  abbrev pub with_data : Service → Fields → Json → Service × Result (Unit {0})
  with_data s catalog (obj health) =
      settle (record s { tool_health = some health }) catalog
        (check_health catalog health (get_field "housingSnapshot" health))
  with_data s catalog _ = (
    s,
    err (
        agent_error (
          unhealthy "TOOL_EXECUTION_FAILED" "Spring Tool health response is invalid"
            (phase "health-decode" []))),
  )

  abbrev pub with_health : Service → Fields → Result Fields → Service × Result (Unit {0})
  with_health s catalog (err e) = (s, err e)
  with_health s catalog (ok response) = with_data s catalog (data_of response)

  abbrev pub with_catalog : Service → Result Fields → Result Fields → Service × Result (Unit {0})
  with_catalog s (err e) health = (s, err e)
  with_catalog s (ok catalog) health = with_health s catalog health

  unfoldable pub refresh_catalog_health :
      Result Fields → Result Fields → Service → Service × Result (Unit {0})
  unfolding load_catalog item_of get_field data_of
  refresh_catalog_health response health s =
      with_catalog (record s { tool_health = none }) (load_catalog response) health
