-- ===== src/Workflow/Planning/Examples.antt =====
-- A catalog of two tools, and a plan of two calls.
use yjdlagent.Prelude.{
  ℕ, ◌≤◌, ◌≡◌, refl, max, Bool, true, false, List, [], ◌∷◌, String, length, str_eq, ◌||◌,
}
use yjdlagent.Json.{Json, Fields, bool, num, text, fields, dict, arr, items}
use yjdlagent.Errors.{ok, err, agent_error}
use yjdlagent.Python.{Ensures}
use yjdlagent.Workflow.Consistency.{failed}
use yjdlagent.Workflow.Planning.{
  PlannedCall, normalize_catalog, plan_map, budget_of, tool_not_found, version_mismatch,
}
use yjdlagent.Workflow.Planning.Names.{IsCatalog, normalize_catalog-IsCatalog}
use yjdlagent.Workflow.Planning.Budget.{ArePlanned, total_records, plan_map-ArePlanned}

abbrev any_schema : Json → Bool
any_schema j = true

abbrev tool : String → Bool → Json
tool name side_effect = dict (
    ("name", text name)
    ∷ ("sideEffect", bool side_effect)
    ∷ ("timeoutMs", num 5000)
    ∷ ("inputSchema", dict [])
    ∷ ("outputSchema", dict [])
    ∷ [])

abbrev catalog : String → List Json → Fields
catalog version tools = fields (("version", text version) ∷ ("tools", arr (items tools)) ∷ [])

abbrev two_tools : Fields
two_tools = catalog "2026-08-21.1" (tool "queryMapPoints" false ∷ tool "queryMapLines" false ∷ [])

takes_two_tools : normalize_catalog any_schema two_tools ≡ ok two_tools
unfolding normalize_catalog
takes_two_tools = refl

refuses_repeated :
    normalize_catalog any_schema
      (catalog "2026-08-21.1" (tool "queryMapLines" false ∷ tool "queryMapLines" false ∷ []))
    ≡ failed "Tool Catalog 工具名缺失或重复"
unfolding normalize_catalog
refuses_repeated = refl

refuses_side_effect :
    normalize_catalog any_schema (catalog "2026-08-21.1" (tool "queryMapPoints" true ∷ []))
    ≡ failed "v1 禁止加载有副作用的 Tool"
unfolding normalize_catalog
refuses_side_effect = refl

refuses_version :
    normalize_catalog any_schema (catalog "2026-01-01" [])
    ≡ err (agent_error (version_mismatch (text "2026-01-01")))
unfolding normalize_catalog
refuses_version = refl

normalize_catalog-IsCatalog_example :
    Ensures (IsCatalog any_schema two_tools) (normalize_catalog any_schema two_tools)
normalize_catalog-IsCatalog_example = normalize_catalog-IsCatalog any_schema two_tools

abbrev is_query : String → Bool
is_query name = str_eq name "queryMapPoints" || str_eq name "queryMapLines"

abbrev any_arguments : String → Fields → Bool
any_arguments name arguments = true

abbrev by_name : ℕ → String → String
by_name ordinal name = name

abbrev planned : String → ℕ → PlannedCall
planned name n = record {
  tool_name = name;
  arguments = fields (("layerId", num 1) ∷ ("outFields", arr (items [])) ∷ []);
  record_count = n;
}

abbrev two_calls : List PlannedCall
two_calls = planned "queryMapPoints" 200 ∷ planned "queryMapLines" 10 ∷ []

plans_two :
    plan_map is_query any_arguments by_name 50 two_calls
    ≡ ok (
        record {
          tool_call_id = "queryMapPoints";
          tool_name = "queryMapPoints";
          arguments = fields (
              ("layerId", num 1)
              ∷ ("returnGeometry", bool true)
              ∷ ("resultRecordCount", num 25)
              ∷ []);
        }
        ∷ record {
          tool_call_id = "queryMapLines";
          tool_name = "queryMapLines";
          arguments = fields (
              ("layerId", num 1)
              ∷ ("returnGeometry", bool true)
              ∷ ("resultRecordCount", num 10)
              ∷ []);
        }
        ∷ [])
unfolding plan_map
plans_two = refl

refuses_tool :
    plan_map is_query any_arguments by_name 50 (planned "dropTable" 1 ∷ [])
    ≡ err (agent_error tool_not_found)
unfolding plan_map
refuses_tool = refl

plan_map-ArePlanned_example :
    Ensures
      (λ cs.
        ArePlanned (budget_of 50 two_calls) two_calls cs
        × (total_records cs ≤ max 50 (length two_calls)))
      (plan_map is_query any_arguments by_name 50 two_calls)
plan_map-ArePlanned_example = plan_map-ArePlanned is_query any_arguments by_name 50 two_calls
