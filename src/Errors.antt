-- ===== src/Errors.antt =====
-- app/agent/errors.py, the exceptions of the standard library and of the database driver that the
-- modelled code raises or catches, and the result of code that may raise.
use yjdlagent.Prelude.{ℕ, String, Bool, true, false, []}
use yjdlagent.Json.{Json, bool, text, dict}
use mathlib.Core.List.{◌∷◌}

pub record AgentError : Type 0 where
  pub code : String
  pub message : String
  pub status_code : ℕ
  pub retryable : Bool
  pub details : Json
  -- set by the recovery of a tool call
  pub retry_count : ℕ

abbrev pub no_details : Json
no_details = dict []

-- `AgentError.to_dict`
unfoldable pub to_dict : AgentError → Json
to_dict e = dict (
    ("code", text e.code)
    ∷ ("message", text e.message)
    ∷ ("retryable", bool e.retryable)
    ∷ ("details", e.details)
    ∷ [])

abbrev pub message_conflict_error : AgentError
message_conflict_error = record {
  code = "MESSAGE_CONFLICT";
  message = "同一 messageId 不能用于不同的请求内容";
  status_code = 409;
  retryable = false;
  details = no_details;
  retry_count = 0;
}

abbrev pub run_not_found_error : AgentError
run_not_found_error = record {
  code = "RUN_NOT_FOUND";
  message = "Run 不存在或不属于当前身份";
  status_code = 404;
  retryable = false;
  details = no_details;
  retry_count = 0;
}

abbrev pub event_history_expired_error : AgentError
event_history_expired_error = record {
  code = "EVENT_HISTORY_EXPIRED";
  message = "请求的事件历史已超过保留窗口";
  status_code = 410;
  retryable = false;
  details = no_details;
  retry_count = 0;
}

pub data Exception : Type 0 where
  agent_error : AgentError → Exception
  runtime_error : String → Exception
  value_error : String → Exception
  key_error : String → Exception
  -- sqlite3.IntegrityError: a violated PRIMARY KEY or UNIQUE constraint
  integrity_error : Exception
  -- sqlite3.OperationalError, and whether `is_sqlite_busy_error` holds of it
  operational_error : Bool → Exception
  -- `x.get` of a value that is no dict, and a list or dict in a set
  attribute_error : Exception
  type_error : Exception

pub data Result {ℓ} (A : Type ℓ) : Type ℓ where
  ok : A → Result A
  err : Exception → Result A

abbrev pub is_err {ℓ} : {A : Type ℓ} → Result A → Bool
is_err (ok a) = false
is_err (err e) = true

-- an exception that is no `AgentError`
abbrev pub IsForeign : Exception → Type 0
IsForeign (agent_error e) = ⊥
IsForeign e = Unit
