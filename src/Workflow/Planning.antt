-- ===== src/Workflow/Planning.antt =====
-- app/agent/workflow.py: `normalize_catalog`, and the calls that `plan_map` makes of the plan of the
-- language model. The test of a JSON schema, the answer of the model, which `complete_json` has
-- checked by `plan_schema`, and `uuid5` are parameters.
pub mod Names
pub mod Budget
mod Examples
use Prim.Native.String.{◌++◌ as cat}
use yjdlagent.Prelude.{
  ℕ, suc, ◌/◌, min, max, Bool, true, false, not, Option, none, some, List, [], ◌∷◌, String, ltb,
  ◌&&◌, ◌||◌, length, str_eq, if◌then◌else◌,
}
use yjdlagent.Json.{
  Json, Fields, null, bool, num, real, text, arr, obj, end, field, dict, get_field, truthy,
}
use yjdlagent.Errors.{AgentError, no_details, Result, ok, err, agent_error, attribute_error}
use yjdlagent.Python.{◌>>=◌, list_of, member}
use yjdlagent.Tools.{data_of, put_field}
use yjdlagent.Workflow.Consistency.{failed}
use yjdlagent.Workflow.Results.{ToolCall}

abbrev pub expected_catalog_version : String
expected_catalog_version = "2026-08-21.1"

abbrev pub v1_tool_names : List String
v1_tool_names =
    "queryMapFeatures" ∷ "queryMapPoints" ∷ "queryMapLines" ∷ "searchHousingCandidates" ∷ []

abbrev version_mismatch : Json → AgentError
version_mismatch version = record {
  code = "TOOL_CATALOG_VERSION_MISMATCH";
  message = "Tool Catalog 版本不匹配，已阻止使用旧版工具契约";
  status_code = 503;
  retryable = true;
  details =
      dict (("expectedVersion", text expected_catalog_version) ∷ ("actualVersion", version) ∷ []);
  retry_count = 0;
}

-- version == EXPECTED_CATALOG_VERSION
abbrev pub is_expected : Json → Bool
is_expected (text s) = str_eq s expected_catalog_version
is_expected _ = false

abbrev pub is_false : Option Json → Bool
is_false (some (bool false)) = true
is_false _ = false

-- an int and no bool, and positive; negative numbers are among the `real` ones
abbrev pub is_timeout : Option Json → Bool
is_timeout (some (num n)) = ltb 0 n
is_timeout _ = false

module _ (is_schema : Json → Bool) where
  -- `check_schema` of a field, whose absence raises, too
  abbrev pub has_schema : Option Json → Bool
  has_schema none = false
  has_schema (some schema) = is_schema schema

  -- the tests of a tool with a name
  unfoldable pub check_named : List String → String → Fields → Result String
  unfolding get_field
  check_named names name tool =
      if member name names
      then failed "Tool Catalog 工具名缺失或重复"
      else if not (member name v1_tool_names)
      then failed "Tool Catalog 包含 v1 契约外工具"
      else if not (is_false (get_field "sideEffect" tool))
      then failed "v1 禁止加载有副作用的 Tool"
      else if not (is_timeout (get_field "timeoutMs" tool))
      then failed "Tool Catalog timeoutMs 非法"
      else if has_schema (get_field "inputSchema" tool)
          && has_schema (get_field "outputSchema" tool)
      then ok name
      else failed "Tool Catalog Schema 非法"

  unfoldable pub check_name : List String → Fields → Option Json → Result String
  unfolding check_named
  check_name names tool (some (text name)) = check_named names name tool
  check_name names tool _ = failed "Tool Catalog 工具名缺失或重复"

  -- the body of the loop; returns the name that it adds to `names`
  unfoldable pub check_tool : List String → Json → Result String
  unfolding check_name get_field
  check_tool names (obj tool) = check_name names tool (get_field "name" tool)
  check_tool names _ = err attribute_error

  unfoldable pub check_tools : List String → List Json → Result (Unit {0})
  unfolding check_tool
  check_tools names [] = ok tt
  check_tools names (t ∷ ts) = check_tool names t >>= λ name. check_tools (name ∷ names) ts

  unfoldable pub check_version : Option Json → Result (Unit {0})
  unfolding truthy
  check_version none = failed "Tool Catalog 缺少版本"
  check_version (some v) =
      if not (truthy v)
      then failed "Tool Catalog 缺少版本"
      else if not (is_expected v)
      then err (agent_error (version_mismatch v))
      else ok tt

  -- the test that `tools` is a list comes before the tests of the version
  abbrev pub check_catalog : Fields → Option Json → Result Fields
  check_catalog catalog (some (arr tools)) = check_version (get_field "version" catalog) >>= λ _.
      check_tools [] (list_of tools) >>= λ _. ok catalog
  check_catalog catalog _ = failed "Tool Catalog 返回格式非法"

  abbrev pub check_data : Json → Result Fields
  check_data (obj catalog) = check_catalog catalog (get_field "tools" catalog)
  check_data _ = failed "Tool Catalog 返回格式非法"

  unfoldable pub normalize_catalog : Fields → Result Fields
  unfolding check_version check_tools data_of get_field
  normalize_catalog response = check_data (data_of response)

-- A call of the plan of the model; `record_count` is its `resultRecordCount`.
pub record PlannedCall : Type 0 where
  pub tool_name : String
  pub arguments : Fields
  pub record_count : ℕ

-- arguments.pop(key, None)
unfoldable pub drop_field : String → Fields → Fields
drop_field k end = end
drop_field k (field j v fs) = if str_eq j k then drop_field k fs else field j v (drop_field k fs)

unfoldable pub arguments_within : ℕ → PlannedCall → Fields
unfolding put_field drop_field
arguments_within budget call =
    put_field "resultRecordCount" (num (min call.record_count budget))
      (put_field "returnGeometry" (bool true) (drop_field "outFields" call.arguments))

abbrev pub tool_not_found : AgentError
tool_not_found = record {
  code = "TOOL_NOT_FOUND";
  message = "Planner 选择了 Catalog 外工具";
  status_code = 404;
  retryable = false;
  details = no_details;
  retry_count = 0;
}

abbrev invalid_argument : AgentError
invalid_argument = record {
  code = "INVALID_TOOL_ARGUMENT";
  message = "Planner 生成的 Tool 参数不符合 Catalog Schema";
  status_code = 400;
  retryable = false;
  details = no_details;
  retry_count = 0;
}

-- `max(1, map_result_limit // len(calls))`; the schema of a plan asks for at least one call
abbrev pub budget_of : ℕ → List PlannedCall → ℕ
budget_of map_result_limit calls = max 1 (map_result_limit / length calls)

-- `has_tool` says which tools the catalog has, and `accepts` which arguments fit the schema of a tool.
module _ (has_tool : String → Bool) (accepts : String → Fields → Bool)
    (tool_call_id : ℕ → String → String) where
  unfoldable pub plan_call : ℕ → ℕ → PlannedCall → Result ToolCall
  unfolding arguments_within
  plan_call budget ordinal call =
      if not (has_tool call.tool_name)
      then err (agent_error tool_not_found)
      else if not (accepts call.tool_name (arguments_within budget call))
      then err (agent_error invalid_argument)
      else ok (record {
        tool_call_id = tool_call_id ordinal call.tool_name;
        tool_name = call.tool_name;
        arguments = arguments_within budget call;
      })

  unfoldable pub plan_calls : ℕ → ℕ → List PlannedCall → Result (List ToolCall)
  unfolding plan_call
  plan_calls budget ordinal [] = ok []
  plan_calls budget ordinal (c ∷ cs) = plan_call budget ordinal c >>= λ call.
      plan_calls budget (suc ordinal) cs >>= λ calls. ok (call ∷ calls)

  unfoldable pub plan_map : ℕ → List PlannedCall → Result (List ToolCall)
  unfolding plan_calls
  plan_map map_result_limit calls = plan_calls (budget_of map_result_limit calls) 0 calls
