-- ===== src/Workflow/Execution.antt =====
-- app/agent/workflow.py: `execute_map_tools`. The answers of the tools come from app/tools/spring_client.py, and the schemas of the catalog are a parameter.
pub mod Balance
use Prim.Native.String.{◌++◌ as cat}
use yjdlagent.Prelude.{
  ℕ, Bool, true, false, not, Option, none, some, List, [], ◌∷◌, ◌++◌, String, ◌==◌, ◌&&◌, ◌||◌,
  if◌then◌else◌, str_eq,
}
use yjdlagent.Json.{Json, Fields, null, bool, num, text, arr, obj, end, dict, get_field, truthy}
use yjdlagent.Errors.{
  AgentError, no_details, Result, ok, err, Exception, agent_error, key_error, attribute_error,
  type_error,
}
use yjdlagent.Python.{ℤ, pos_part, Numbers, or_default, get_of, int_of, text_of, equal, dedupe}
use yjdlagent.Store.Schema.{Db, ToolStatus}
use yjdlagent.Store.Transaction.{Call}
use yjdlagent.Store.Metrics.{record_tool_started, record_tool_completed}
use yjdlagent.Tools.{Response, data_of}
use yjdlagent.Workflow.Acceptance.{Catalog, Accepted, accept}
use yjdlagent.Workflow.HousingMap.{HousingMap, build_housing_search_map_result}
use yjdlagent.Workflow.Consistency.{execution_failed, failed, check_consistency}
use yjdlagent.Workflow.Results.{ToolCall, MapResult, build_map_result}

-- What `writer` sends: `tool.started` and `tool.completed`.
pub data Emission : Type 0 where
  started : String → String → Emission
  completed : String → String → ToolStatus → ℕ → Emission

-- What the node changes beside its variables.
pub record Journal : Type 0 where
  pub db : Db
  pub emitted : List Emission

abbrev pub M : Type 0 → Type 0
M A = Journal → Result A × Journal

abbrev pub continue : {A B : Type 0} → Result A × Journal → (A → M B) → Result B × Journal
continue (ok a, j) f = f a j
continue (err e, j) f = (err e, j)

infixl 5 ◌>>=◌ ◌>>◌
abbrev pub ◌>>=◌ : {A B : Type 0} → M A → (A → M B) → M B
◌>>=◌ m f j = continue (m j) f

abbrev pub ◌>>◌ : {A B : Type 0} → M A → M B → M B
m >> n = m >>= λ _. n

abbrev pub pure : {A : Type 0} → A → M A
pure a j = (ok a, j)

abbrev pub lift : {A : Type 0} → Result A → M A
lift r j = (r, j)

abbrev pub stored : {A : Type 0} → Journal → Result A × Db → Result A × Journal
stored j (r, db) = (r, record j { db = db })

abbrev pub in_store : {A : Type 0} → Call A → M A
in_store call j = stored j (call j.db)

abbrev pub emit : Emission → M (Unit {0})
emit e j = (ok tt, record j { emitted = j.emitted ++ e ∷ [] })

-- What a call meets: the response of the tool, the readings of the clock of the store, and the
-- milliseconds since the call has started.
pub record Reply : Type 0 where
  pub response : Response
  pub started_at : ℕ
  pub completed_at : ℕ
  pub elapsed : ℕ

-- The variables of the loop.
pub record Progress : Type 0 where
  pub outputs : List Fields
  pub successful : List ToolCall
  pub warnings : List String
  pub last_error : Option AgentError

abbrev pub rejected_codes : ℕ → Bool
rejected_codes code = code == 400 || code == 403 || code == 422

module _ (py : Numbers) (digest : Json → String) (catalog : Catalog) (run_id : String) where
  -- response.get("_agentMetrics", {}).get("retryCount", 0)
  abbrev pub retry_count_in : Option Json → Result Json
  retry_count_in none = ok (num 0)
  retry_count_in (some (obj metrics)) = ok (or_default (num 0) (get_field "retryCount" metrics))
  retry_count_in (some _) = err attribute_error

  abbrev pub retry_count_of : Fields → Result Json
  retry_count_of response = retry_count_in (get_field "_agentMetrics" response)

  abbrev pub int_or_raise : Result Json → Result ℤ
  int_or_raise (ok j) = int_of py j
  int_or_raise (err e) = err e

  abbrev pub report : ToolCall → ToolStatus → ℕ → ℕ → Option String → ℕ → M (Unit {0})
  report call status duration retries code now =
      in_store (record_tool_completed now run_id call.tool_call_id status duration retries code)
      >> emit (completed call.tool_call_id call.tool_name status duration)

  -- the rest of the `try` block after the validation
  unfoldable pub succeed : ToolCall → Reply → Fields → Accepted → Progress → M Progress
  unfolding get_field record_tool_completed
  succeed call reply response a p = lift (int_or_raise (retry_count_of response)) >>= λ retries.
      lift (int_of py (or_default (num reply.elapsed) (get_field "durationMs" a.answer)))
      >>= λ duration.
          report call ToolStatus.succeeded (pos_part duration) (pos_part retries) none
            reply.completed_at
          >> pure (record p {
            outputs = p.outputs ++ a.result ∷ [];
            successful = p.successful ++ call ∷ [];
          })

  -- `except AgentError`
  unfoldable pub give_up : ToolCall → Reply → AgentError → Progress → M Progress
  unfolding record_tool_completed
  give_up call reply e p =
      report call (if rejected_codes e.status_code then ToolStatus.rejected else ToolStatus.failed)
        reply.elapsed e.retry_count (some e.code) reply.completed_at
      >> pure (record p {
        warnings = p.warnings ++ cat call.tool_name (cat " 未完成：" e.message) ∷ [];
        last_error = some e;
      })

  abbrev pub answered : ToolCall → Reply → Fields → Progress → Result Accepted → M Progress
  answered call reply response p (ok a) = succeed call reply response a p
  answered call reply response p (err (agent_error e)) = give_up call reply e p
  answered call reply response p (err e) = lift (err e)

  abbrev pub respond : ToolCall → Reply → Progress → Response → M Progress
  respond call reply p (ok response) =
      answered call reply response p (accept py catalog call response)
  respond call reply p (err (agent_error e)) = give_up call reply e p
  respond call reply p (err e) = lift (err e)

  -- the body of the loop
  unfoldable pub run_call : ToolCall → Reply → Progress → M Progress
  unfolding record_tool_started succeed give_up accept
  run_call call reply p =
      in_store (
        record_tool_started digest reply.started_at run_id call.tool_call_id call.tool_name
          (obj call.arguments))
      >> emit (started call.tool_call_id call.tool_name)
      >> respond call reply p reply.response

  -- `for call in state["tool_plan"]`, each with what it meets
  unfoldable pub run_calls : List (ToolCall × Reply) → Progress → M Progress
  unfolding run_call
  run_calls [] p = pure p
  run_calls ((call, reply) ∷ rest) p = run_call call reply p >>= run_calls rest

  abbrev pub no_progress : Progress
  no_progress = record { outputs = []; successful = []; warnings = []; last_error = none }

-- A map result of layers, or of a housing search.
pub data MapOutcome : Type 0 where
  layers : MapResult → MapOutcome
  candidates : HousingMap → MapOutcome

-- `whole` is the integer that a literal other than a natural number writes.
module _ (py : Numbers) (digest : Json → String) (catalog : Catalog) (run_id : String)
    (whole : String → Option ℤ) where
  abbrev run_plan : List (ToolCall × Reply) → Progress → M Progress
  run_plan = run_calls py digest catalog run_id

  abbrev none_succeeded : Option AgentError → Exception
  none_succeeded none = agent_error (execution_failed "没有 Tool 成功完成" false)
  none_succeeded (some e) = agent_error e

  abbrev noted : List String → MapOutcome → MapOutcome
  noted ws (layers m) = layers (record m { warnings = dedupe (ws ++ m.warnings) })
  noted ws (candidates m) = candidates (record m { warnings = dedupe (ws ++ m.warnings) })

  abbrev with_warnings : List String → Result MapOutcome → Result MapOutcome
  with_warnings ws (ok m) = ok (noted ws m)
  with_warnings ws (err e) = err e

  abbrev as_layers : Result MapResult → Result MapOutcome
  as_layers (ok m) = ok (layers m)
  as_layers (err e) = err e

  abbrev as_candidates : Result HousingMap → Result MapOutcome
  as_candidates (ok m) = ok (candidates m)
  as_candidates (err e) = err e

  -- The first output of a housing search; every successful call has kept an output.
  abbrev first_map : ToolCall → List Fields → Result MapOutcome
  first_map call (result ∷ rest) =
      as_candidates (build_housing_search_map_result py whole call.tool_call_id result)
  first_map call [] = err type_error

  unfoldable pub conclude : Bool → String → Progress → Result MapOutcome
  unfolding build_map_result build_housing_search_map_result
  conclude housing_search query_id p = elim p.successful [
    | [] ↦ err (none_succeeded p.last_error)
    | c ∷ cs ↦ with_warnings p.warnings (
        if housing_search
        then first_map c p.outputs
        else as_layers (build_map_result py query_id (c ∷ cs) p.outputs))
  ]

  -- The map result of the node.
  unfoldable pub execute_map_tools : Bool → String → List (ToolCall × Reply) → M MapOutcome
  unfolding run_calls conclude
  execute_map_tools housing_search query_id plan =
      run_plan plan (no_progress py digest catalog run_id) >>= λ p.
      lift (conclude housing_search query_id p)
