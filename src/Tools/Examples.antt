-- ===== src/Tools/Examples.antt =====
-- A tool that fails once and then answers, and one that stays down.
use yjdlagent.Prelude.{ℕ, ◌≡◌, refl, true, if◌then◌else◌, ◌==◌, [], ◌∷◌}
use yjdlagent.Json.{Fields, text, fields}
use yjdlagent.Errors.{AgentError, no_details, ok, err, agent_error}
use yjdlagent.Tools.{Exchange, timed_out, found, with_metrics, put_field, invoke_with_recovery}
use yjdlagent.Tools.Recovery.{Recovers, invoke_with_recovery-Recovers}

abbrev unavailable : AgentError
unavailable = record {
  code = "TOOL_TIMEOUT";
  message = "Spring Tool response timed out";
  status_code = 503;
  retryable = true;
  details = no_details;
  retry_count = 0;
}

abbrev answer : Fields
answer = fields (("status", text "SUCCEEDED") ∷ [])

abbrev second_time : ℕ → Exchange
second_time n = record {
  invoked = if n == 0 then err (agent_error unavailable) else ok answer;
  asked_at = 100;
  status = timed_out;
  answered_at = 5100;
}

answers_second :
    invoke_with_recovery 400000 125000 2 second_time
    ≡ record { outcome = ok (with_metrics 1 answer); calls = 2; delays = 250 ∷ [] }
unfolding invoke_with_recovery put_field
answers_second = refl

-- the call went through, though its answer was lost
abbrev lost_answer : ℕ → Exchange
lost_answer n = record {
  invoked = err (agent_error unavailable);
  asked_at = 100;
  status = found answer;
  answered_at = 200;
}

called_once : (invoke_with_recovery 400000 125000 2 lost_answer).calls ≡ 1
unfolding invoke_with_recovery
called_once = refl

invoke_with_recovery-Recovers_example :
    Recovers 400000 125000 second_time 0 2 (invoke_with_recovery 400000 125000 2 second_time)
invoke_with_recovery-Recovers_example = invoke_with_recovery-Recovers 400000 125000 2 second_time
