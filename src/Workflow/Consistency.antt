-- ===== src/Workflow/Consistency.antt =====
-- app/agent/workflow.py: `validate_tool_result_consistency`, and the error that the nodes raise.
use yjdlagent.Prelude.{
  ℕ, suc, Bool, true, false, not, Option, none, some, String, ltb, ◌&&◌, str_eq, if◌then◌else◌,
}
use yjdlagent.Json.{Json, Fields, null, text, arr, nil, cons, get_field}
use yjdlagent.Errors.{AgentError, no_details, Result, ok, err, agent_error}
use yjdlagent.Python.{ℤ, pos, negsuc, Numbers, or_default, int_of, equal}

abbrev pub execution_failed : String → Bool → AgentError
execution_failed message retryable = record {
  code = "TOOL_EXECUTION_FAILED";
  message = message;
  status_code = 500;
  retryable = retryable;
  details = no_details;
  retry_count = 0;
}

abbrev pub failed : {A : Type 0} → String → Result A
failed message = err (agent_error (execution_failed message false))

abbrev is_list : Json → Bool
is_list (arr xs) = true
is_list _ = false

-- the length of a value that is a list
abbrev size : Json → ℕ
size (arr nil) = 0
size (arr (cons x xs)) = suc (size (arr xs))
size _ = 0

-- `n < m`
abbrev pub below : ℤ → ℕ → Bool
below (pos n) m = ltb n m
below (negsuc n) m = true

module _ (py : Numbers) where
  abbrev same : Option Json → Option Json → Bool
  same none none = true
  same none (some w) = equal py null w
  same (some v) none = equal py v null
  same (some v) (some w) = equal py v w

  abbrev is_text : String → Option Json → Bool
  is_text s none = false
  is_text s (some v) = equal py v (text s)

  unfoldable pub check_total : Json → Result ℤ → Result (Unit {0})
  check_total features (err e) = err e
  check_total features (ok total) =
      if below total (size features) then failed "Tool 返回的 total 与 features 不一致" else ok tt

  -- `validate_tool_result_consistency`
  unfoldable pub check_consistency : String → Fields → Fields → Result (Unit {0})
  unfolding equal check_total get_field
  check_consistency tool_name arguments result =
      if str_eq tool_name "searchHousingCandidates"
      then ok tt
      else if not (same (get_field "layerId" result) (get_field "layerId" arguments))
      then failed "Tool 返回图层与调用参数不一致"
      else if str_eq tool_name "queryMapPoints"
          && not (is_text "point" (get_field "geometryType" result))
      then failed "点 Tool 返回了非点几何"
      else if str_eq tool_name "queryMapLines"
          && not (is_text "polyline" (get_field "geometryType" result))
      then failed "线 Tool 返回了非线几何"
      else if not (is_list (or_default (arr nil) (get_field "features" result)))
      then failed "Tool 返回的 total 与 features 不一致"
      else check_total (or_default (arr nil) (get_field "features" result))
          (elim (get_field "total" result) [ none ↦ ok (negsuc 0) | some t ↦ int_of py t ])
