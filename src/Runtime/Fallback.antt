-- ===== src/Runtime/Fallback.antt =====
-- app/agent/runtime.py: `_complete_with_answer_fallback`, which ends a run with a written answer when only the
-- language model of the answer has failed.
use yjdlagent.Prelude.{
  ℕ, Bool, true, false, not, Option, none, some, List, [], ◌∷◌, String, str_eq, ◌||◌, if◌then◌else◌,
}
use yjdlagent.Json.{Json, Fields, text, get, get_field, truthy}
use yjdlagent.Errors.{AgentError, Result, ok, err}
use yjdlagent.Python.{Numbers}
use yjdlagent.Store.Transaction.{Call}
use yjdlagent.Runtime.Calls.{◌>>=◌, ◌>>◌, pure, lift}
use yjdlagent.Runtime.Answer.{pieces}
use yjdlagent.Runtime.Endings.{send_deltas}
use yjdlagent.Workflow.Answering.{concise_map_result_answer, degraded}
use yjdlagent.Workflow.References.{concise_rag_result_answer}

-- What it reads of the aggregate and writes to it; `none` is a map result that is no dict.
pub record Aggregate : Type 0 where
  pub map_result : Option Fields
  pub citations : List Json
  pub retrieval_results : List Json
  pub answer : String
  pub warnings : List String

abbrev is_set : Option Json → Bool
is_set none = false
is_set (some v) = truthy v

-- error.details.get("operation") == "answer"
abbrev pub is_answer_failure : AgentError → Bool
is_answer_failure e = elim (get "operation" e.details) [
  | some (text s) ↦ str_eq s "answer"
  | _ ↦ false
]

-- the map result, if it has sets or overlays
abbrev pub shown_result : Option Fields → Option Fields
shown_result none = none
shown_result (some m) =
    if is_set (get_field "resultSets" m) || is_set (get_field "overlays" m) then some m else none

module _ (py : Numbers) where
  abbrev some_answer : Result String → Result (Option String)
  some_answer (ok answer) = ok (some answer)
  some_answer (err e) = err e

  abbrev answer_from : Aggregate → Option Fields → List Json → Result (Option String)
  answer_from a (some m) citations = some_answer (concise_map_result_answer py m)
  answer_from a none [] = ok none
  answer_from a none (c ∷ cs) = some_answer (concise_rag_result_answer py a.retrieval_results)

  -- The answer, if there is evidence for one.
  unfoldable pub fallback_answer : AgentError → Aggregate → Result (Option String)
  unfolding get get_field truthy concise_map_result_answer concise_rag_result_answer
  fallback_answer e a =
      if not (is_answer_failure e)
      then ok none
      else answer_from a (shown_result a.map_result) a.citations

  -- `none` is the result False, which changes nothing.
  abbrev sent : (ℕ → ℕ) → String → Aggregate → Option String → Call (Bool × Aggregate)
  sent clock run_id a none = pure (false, a)
  sent clock run_id a (some answer) =
      send_deltas clock 0 run_id (pieces answer)
      >> pure (true, record a { answer = answer; warnings = degraded a.warnings })

  unfoldable pub complete_with_answer_fallback :
      (ℕ → ℕ) → String → Aggregate → AgentError → Call (Bool × Aggregate)
  unfolding fallback_answer pieces send_deltas
  complete_with_answer_fallback clock run_id a e =
      lift (fallback_answer e a) >>= sent clock run_id a
