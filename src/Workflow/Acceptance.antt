-- ===== src/Workflow/Acceptance.antt =====
-- app/agent/workflow.py: which response of a tool `execute_map_tools` takes as its result.
use yjdlagent.Prelude.{Bool, true, false, not, Option, none, some, String, if◌then◌else◌}
use yjdlagent.Json.{Json, Fields, text, obj, get_field, truthy}
use yjdlagent.Errors.{
  AgentError, no_details, Result, ok, err, agent_error, key_error, attribute_error,
}
use yjdlagent.Python.{Numbers, or_default, text_of, equal}
use yjdlagent.Tools.{data_of}
use yjdlagent.Workflow.Consistency.{execution_failed, check_consistency}
use yjdlagent.Workflow.Results.{ToolCall}

-- The catalog: which tools it has, and whether a result fits the output schema of a tool.
pub record Catalog : Type 0 where
  pub has_tool : String → Bool
  pub accepts : String → Fields → Bool

-- what a tool sent, as far as the node reads it
pub record Accepted : Type 0 where
  pub answer : Fields
  pub result : Fields

module _ (py : Numbers) (catalog : Catalog) where
  abbrev is_text : String → Option Json → Bool
  is_text s none = false
  is_text s (some v) = equal py v (text s)

  abbrev is_set : Option Json → Bool
  is_set none = false
  is_set (some v) = truthy v

  abbrev details_of : Option Json → Json
  details_of (some (obj fs)) = obj fs
  details_of _ = no_details

  unfoldable pub reported : Option Json → Fields → Json → AgentError
  unfolding get_field truthy equal
  reported status error code =
      let retryable = is_set (get_field "retryable" error) in
      record {
        code = text_of py code;
        message = text_of py (or_default (text "地图 Tool 未成功完成") (get_field "message" error));
        status_code = if retryable then 503 else if is_text "REJECTED" status then 400 else 500;
        retryable = retryable;
        details = details_of (get_field "details" error);
        retry_count = 0;
      }

  abbrev unreported : Option Json → AgentError
  unreported status = execution_failed "地图 Tool 未成功完成" (is_text "FAILED" status)

  abbrev with_code : Option Json → Fields → Option Json → AgentError
  with_code status error none = unreported status
  with_code status error (some code) =
      if truthy code then reported status error code else unreported status

  -- the error of a response without a result
  unfoldable pub tool_error : Fields → AgentError
  unfolding get_field reported
  tool_error answer = elim (get_field "error" answer) [
    | some (obj error) ↦ with_code (get_field "status" answer) error (get_field "code" error)
    | _ ↦ unreported (get_field "status" answer)
  ]

  abbrev when_done : Fields → Bool → Option Json → Result Accepted
  when_done answer true (some (obj result)) = ok (record { answer = answer; result = result })
  when_done answer done result = err (agent_error (tool_error answer))

  -- `status != "SUCCEEDED" or not isinstance(data.get("result"), dict)`
  unfoldable pub read_answer : Json → Result Accepted
  unfolding tool_error get_field equal
  read_answer (obj answer) =
      when_done answer (is_text "SUCCEEDED" (get_field "status" answer)) (get_field "result" answer)
  read_answer _ = err attribute_error

  abbrev schema_error : AgentError
  schema_error = execution_failed "Tool 返回结果不符合 Catalog Schema" true

  abbrev then_kept : Accepted → Result (Unit {0}) → Result Accepted
  then_kept a (ok u) = ok a
  then_kept a (err e) = err e

  -- `tools.validate_result` and `validate_tool_result_consistency`
  abbrev validated : ToolCall → Result Accepted → Result Accepted
  validated call (err e) = err e
  validated call (ok a) =
      if not (catalog.has_tool call.tool_name)
      then err (key_error call.tool_name)
      else if not (catalog.accepts call.tool_name a.result)
      then err (agent_error schema_error)
      else then_kept a (check_consistency py call.tool_name call.arguments a.result)

  unfoldable pub accept : ToolCall → Fields → Result Accepted
  unfolding read_answer check_consistency data_of
  accept call response = validated call (read_answer (data_of response))
