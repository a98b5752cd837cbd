-- ===== src/Tools.antt =====
-- app/tools/spring_client.py: `invoke_with_recovery`, which calls a tool of the map service, and asks
-- for the state of the call before it calls again. What the service answers is a parameter: one
-- `Exchange` for each attempt. Times are milliseconds since the start.
pub mod Attempts
pub mod Recovery
mod Examples
use yjdlagent.Prelude.{
  ℕ, zero, suc, ◌+◌, ◌*◌, ◌^◌, Bool, true, false, not, Option, none, some, List, [], ◌∷◌, String,
  ltb, leb, ◌&&◌, ◌||◌, str_eq, if◌then◌else◌,
}
use yjdlagent.Json.{
  Json, Fields, null, bool, num, real, text, iso, arr, obj, end, field, dict, get_field,
}
use yjdlagent.Errors.{
  AgentError, Result, ok, err, Exception, agent_error, attribute_error, type_error,
}

-- A dict that the service sent, or what `invoke` or `execution` raises.
abbrev pub Response : Type 0
Response = Result Fields

pub data Status : Type 0 where
  found : Fields → Status
  timed_out : Status
  raised : Exception → Status

-- What an attempt meets: the answer to the call, the time before the state of the call is asked
-- for, the answer to that, and the time after it.
pub record Exchange : Type 0 where
  pub invoked : Response
  pub asked_at : ℕ
  pub status : Status
  pub answered_at : ℕ

-- response[key] = value
unfoldable pub put_field : String → Json → Fields → Fields
put_field k v end = field k v end
put_field k v (field j w fs) = if str_eq j k then field j v fs else field j w (put_field k v fs)

abbrev pub metrics_of : ℕ → Json
metrics_of attempt = dict (("retryCount", num attempt) ∷ [])

abbrev pub with_metrics : ℕ → Fields → Fields
with_metrics attempt r = put_field "_agentMetrics" (metrics_of attempt) r

abbrev pub is_non_retryable : String → Bool
is_non_retryable code =
    str_eq code "INVALID_BUFFER_DISTANCE"
    || str_eq code "INVALID_HOUSING_SEARCH_ARGUMENT"
    || str_eq code "TOOL_CALL_CONFLICT"

-- `not exc.retryable or exc.code in NON_RETRYABLE_TOOL_CODES`
abbrev pub gives_up : AgentError → Bool
gives_up e = not e.retryable || is_non_retryable e.code

-- `status in {"SUCCEEDED", "FAILED", "REJECTED"}`, which raises for a list and a dict
unfoldable pub is_final : Option Json → Result Bool
is_final none = ok false
is_final (some (text s)) = ok (str_eq s "SUCCEEDED" || str_eq s "FAILED" || str_eq s "REJECTED")
is_final (some (arr xs)) = err type_error
is_final (some (obj fs)) = err type_error
is_final (some _) = ok false

-- `data.get("status")`
unfoldable pub status_of : Json → Result (Option Json)
unfolding get_field
status_of (obj fs) = ok (get_field "status" fs)
status_of _ = err attribute_error

-- `execution.get("data", execution)`
unfoldable pub data_of : Fields → Json
unfolding get_field
data_of fs = elim (get_field "data" fs) [ none ↦ obj fs | some d ↦ d ]

abbrev pub final_of : Result (Option Json) → Result Bool
final_of (ok s) = is_final s
final_of (err e) = err e

unfoldable pub has_ended : Fields → Result Bool
unfolding status_of data_of is_final
has_ended execution = final_of (status_of (data_of execution))

-- How an attempt ends: by a result, or by another attempt; `spent` ends the loop by `break`.
pub data Attempt : Type 0 where
  returns : Fields → Attempt
  raises : Exception → Attempt
  spent : AgentError → Attempt
  again : AgentError → Attempt

-- the state of the call is known, or the next attempt is due
abbrev pub after_state : ℕ → Fields → AgentError → Result Bool → Attempt
after_state attempt execution e (ok true) = returns (with_metrics attempt execution)
after_state attempt execution e (ok false) = again e
after_state attempt execution e (err x) = raises x

-- the two `except` clauses of the question for the state
unfoldable pub after_status : ℕ → AgentError → Status → Attempt
unfolding has_ended put_field
after_status attempt e (found execution) = after_state attempt execution e (has_ended execution)
after_status attempt e timed_out = again e
after_status attempt e (raised (agent_error s)) =
    if not (str_eq s.code "EXECUTION_NOT_FOUND") && not s.retryable
    then raises (agent_error s)
    else again e
after_status attempt e (raised x) = raises x

-- `max_recovery_seconds` is `limit`.
unfoldable pub attempt_once : ℕ → ℕ → Exchange → Response → Attempt
unfolding after_status put_field
attempt_once limit attempt x (ok response) = returns (with_metrics attempt response)
attempt_once limit attempt x (err (agent_error e)) =
    if gives_up e
    then raises (agent_error e)
    else if leb limit x.asked_at
    then spent e
    else after_status attempt e x.status
attempt_once limit attempt x (err e) = raises e

-- 0.25 * 2 ** attempt seconds
abbrev pub delay_of : ℕ → ℕ
delay_of attempt = 250 * 2 ^ attempt

-- What comes of a call, how often the tool was called, and the delays between the calls.
pub record Recovered : Type 0 where
  pub outcome : Response
  pub calls : ℕ
  pub delays : List ℕ

abbrev pub exhausted : ℕ → AgentError → Exception
exhausted attempt e = agent_error (record e { retry_count = attempt })

abbrev pub ended : ℕ → Response → Recovered
ended attempt r = record { outcome = r; calls = suc attempt; delays = [] }

abbrev pub delayed : ℕ → Recovered → Recovered
delayed d r = record r { delays = d ∷ r.delays }

-- `remaining < self.timeout_seconds + delay`
abbrev pub too_late : ℕ → ℕ → ℕ → Exchange → Bool
too_late limit timeout attempt x = ltb limit (x.answered_at + timeout + delay_of attempt)

-- `for attempt in range(max_retries + 1)`, with `left` attempts after this one
unfoldable pub recover_from : ℕ → ℕ → (ℕ → Exchange) → ℕ → ℕ → Recovered
unfolding attempt_once
recover_from limit timeout service zero attempt =
    elim (attempt_once limit attempt (service attempt) (service attempt).invoked) [
      | returns r ↦ ended attempt (ok r)
      | raises x ↦ ended attempt (err x)
      | spent e ↦ ended attempt (err (exhausted attempt e))
      | again e ↦ ended attempt (err (exhausted attempt e))
    ]
recover_from limit timeout service (suc left) attempt =
    elim (attempt_once limit attempt (service attempt) (service attempt).invoked) [
      | returns r ↦ ended attempt (ok r)
      | raises x ↦ ended attempt (err x)
      | spent e ↦ ended attempt (err (exhausted attempt e))
      | again e ↦
          let rest = recover_from limit timeout service left (suc attempt) in
          if too_late limit timeout attempt (service attempt)
          then ended attempt (err (exhausted attempt e))
          else delayed (delay_of attempt) rest
    ]

unfoldable pub invoke_with_recovery : ℕ → ℕ → ℕ → (ℕ → Exchange) → Recovered
unfolding recover_from
invoke_with_recovery limit timeout max_retries service =
    recover_from limit timeout service max_retries 0
