-- ===== src/Quota.antt =====
-- app/agent/quota.py: the local quota gate (the branches with `self.redis is None`): request rates,
-- counters of queued and active runs, and daily tokens. The lock makes each method one step.
-- Instants are milliseconds of the monotonic clock, and costs are in the unit of the budget.
pub mod Window
pub mod Tokens
mod Examples
use Prim.Native.String.{◌++◌ as cat}
use yjdlagent.Prelude.{
  ℕ, suc, ◌+◌, ◌-◌, ◌/◌, Bool, true, false, Option, none, some, List, [], ◌∷◌, ◌++◌, String, ltb,
  leb, ◌==◌, not, ◌&&◌, length, str_eq, if◌then◌else◌, max,
}
use yjdlagent.Json.{Json, dict, num}
use yjdlagent.Errors.{AgentError, Result, ok, err, agent_error, no_details}
use yjdlagent.Table.{first, select}

-- the settings that the gate reads
pub record Limits : Type 0 where
  pub user_rate_per_minute : ℕ
  pub tenant_rate_per_minute : ℕ
  pub tenant_active_runs : ℕ
  pub tenant_queue_runs : ℕ
  pub run_max_tokens : ℕ
  pub tenant_daily_tokens : ℕ
  pub tenant_daily_budget : ℕ

pub record Reservation : Type 0 where
  pub reservation_id : String
  pub tenant_id : String
  pub user_id : String
  pub run_id : String
  pub token_limit : ℕ
  pub created_at : ℕ

-- The dicts with default 0, or an empty deque, are functions.
pub record Quota : Type 0 where
  pub requests : String → List ℕ
  pub active : String → ℕ
  pub queued : String → ℕ
  pub daily_tokens : String → String → ℕ
  pub reserved_tokens : String → String → ℕ
  pub reservations : List Reservation

abbrev pub no_quota : Quota
no_quota = record {
  requests = λ k. [];
  active = λ t. 0;
  queued = λ t. 0;
  daily_tokens = λ t d. 0;
  reserved_tokens = λ t d. 0;
  reservations = [];
}

-- d[k] = v
abbrev pub put {ℓ} : {V : Type ℓ} → String → V → (String → V) → String → V
put k v f j = if str_eq k j then v else f j

-- d[(t, day)] = v
abbrev pub put₂ : String → String → ℕ → (String → String → ℕ) → String → String → ℕ
put₂ t day v f u e = if str_eq t u && str_eq day e then v else f u e

abbrev pub refusal : String → String → Bool → Json → AgentError
refusal code message retryable details = record {
  code = code;
  message = message;
  status_code = 429;
  retryable = retryable;
  details = details;
  retry_count = 0;
}

-- 60 seconds
abbrev pub window : ℕ
window = 60000

-- `while bucket and bucket[0] <= now - 60: bucket.popleft()`
unfoldable pub expire : ℕ → List ℕ → List ℕ
expire now [] = []
expire now (t ∷ ts) = if leb (t + window) now then expire now ts else t ∷ ts

-- max(1, int(60 - (now - bucket[0]))). The bucket is not empty: the settings want a positive limit.
abbrev pub retry_after : ℕ → List ℕ → ℕ
retry_after now [] = 1
retry_after now (t ∷ ts) = max 1 ((t + window - now) / 1000)

abbrev pub rate_limited : ℕ → List ℕ → AgentError
rate_limited now bucket =
    refusal "RATE_LIMITED" "请求频率超过限制" true
      (dict (("retryAfter", num (retry_after now bucket)) ∷ []))

-- `_rate_check`; the popped entries stay popped beside an error
unfoldable pub rate_check : String → ℕ → ℕ → Quota → Result (Unit {0}) × Quota
unfolding expire
rate_check key limit now q =
    let bucket = expire now (q.requests key) in
    if leb limit (length bucket)
    then (
      err (agent_error (rate_limited now bucket)),
      record q { requests = put key bucket q.requests },
    )
    else (ok tt, record q { requests = put key (bucket ++ now ∷ []) q.requests })

abbrev pub user_key : String → String → String
user_key tenant_id user_id = cat "user:" (cat tenant_id (cat ":" user_id))

abbrev pub tenant_key : String → String
tenant_key tenant_id = cat "tenant:" tenant_id

abbrev pub queue_full : AgentError
queue_full = refusal "RUN_QUEUE_FULL" "租户 Run 队列已满" true no_details

abbrev pub quota_exceeded : AgentError
quota_exceeded = refusal "TOKEN_QUOTA_EXCEEDED" "租户 Token 配额已用尽" false no_details

abbrev pub budget_exceeded : AgentError
budget_exceeded = refusal "COST_BUDGET_EXCEEDED" "租户费用预算已用尽" false no_details

abbrev pub is_for : String → Reservation → Bool
is_for run_id r = str_eq r.run_id run_id

-- The admission after the two rate checks.
unfoldable pub admit : Limits → ℕ → String → Reservation → Quota → Result Reservation × Quota
admit l now day r q =
    let tenant = r.tenant_id in
    if leb l.tenant_active_runs (q.active tenant) && leb l.tenant_queue_runs (q.queued tenant)
    then (err (agent_error queue_full), q)
    else if leb l.tenant_queue_runs (q.queued tenant)
    then (err (agent_error queue_full), q)
    else if ltb l.tenant_daily_tokens
        (q.daily_tokens tenant day + q.reserved_tokens tenant day + l.run_max_tokens)
    then (err (agent_error quota_exceeded), q)
    else (
      ok r,
      record q {
        reservations = q.reservations ++ r ∷ [];
        queued = put tenant (q.queued tenant + 1) q.queued;
        reserved_tokens =
            put₂ tenant day (q.reserved_tokens tenant day + r.token_limit) q.reserved_tokens;
      },
    )

-- the rest of a method after a check that may raise
abbrev pub and_then :
    {A : Type 0} → Result (Unit {0}) × Quota → (Quota → Result A × Quota) → Result A × Quota
and_then (ok u, q) f = f q
and_then (err e, q) f = (err e, q)

unfoldable pub reserve_new :
    Limits → ℕ → String → String → String → String → String → Quota → Result Reservation × Quota
unfolding rate_check admit
reserve_new l now day uuid tenant_id user_id run_id q =
    and_then (rate_check (user_key tenant_id user_id) l.user_rate_per_minute now q) λ q₁.
      and_then (rate_check (tenant_key tenant_id) l.tenant_rate_per_minute now q₁) λ q₂.
        admit l now day
          (record {
            reservation_id = uuid;
            tenant_id = tenant_id;
            user_id = user_id;
            run_id = run_id;
            token_limit = l.run_max_tokens;
            created_at = now;
          })
          q₂

-- `reserve`, at the instant `now` of the day `day`, where `uuid4()` gives `uuid`
unfoldable pub reserve :
    Limits → ℕ → String → String → String → String → String → Quota → Result Reservation × Quota
unfolding reserve_new first
reserve l now day uuid tenant_id user_id run_id q = elim (first (is_for run_id) q.reservations) [
  | some existing ↦ (ok existing, q)
  | none ↦ reserve_new l now day uuid tenant_id user_id run_id q
]

unfoldable pub activate : Option Reservation → Quota → Quota
activate none q = q
activate (some r) q =
    if ltb 0 (q.queued r.tenant_id)
    then record q {
      queued = put r.tenant_id (q.queued r.tenant_id - 1) q.queued;
      active = put r.tenant_id (q.active r.tenant_id + 1) q.active;
    }
    else q

-- `mark_active`
unfoldable pub mark_active : String → Quota → Quota
unfolding activate first
mark_active run_id q = activate (first (is_for run_id) q.reservations) q

-- self._reservations.pop(run_id, None)
unfoldable pub pop : String → List Reservation → List Reservation
unfolding select
pop run_id rs = select (λ (r : Reservation). not (is_for run_id r)) rs

-- the charge of `settle` after the reservation is popped
unfoldable pub charge : Limits → String → ℕ → ℕ → String → Quota → Result (Unit {0}) × Quota
charge l tenant total_tokens cost day q =
    if ltb l.tenant_daily_tokens (q.daily_tokens tenant day + total_tokens)
    then (err (agent_error quota_exceeded), q)
    else (
      if not (l.tenant_daily_budget == 0) && ltb l.tenant_daily_budget cost
          then err (agent_error budget_exceeded)
          else ok tt,
      record q {
        daily_tokens = put₂ tenant day (q.daily_tokens tenant day + total_tokens) q.daily_tokens;
      },
    )

unfoldable pub settle_row :
    Limits → ℕ → ℕ → String → String → Option Reservation → Quota → Result (Unit {0}) × Quota
unfolding charge pop
settle_row l total_tokens cost day run_id none q = (ok tt, q)
settle_row l total_tokens cost day run_id (some r) q =
    let tenant = r.tenant_id in
    charge l tenant total_tokens cost day (record q {
      reservations = pop run_id q.reservations;
      active = put tenant (q.active tenant - 1) q.active;
      reserved_tokens =
          put₂ tenant day (q.reserved_tokens tenant day - r.token_limit) q.reserved_tokens;
    })

-- `settle`
unfoldable pub settle : Limits → ℕ → ℕ → String → String → Quota → Result (Unit {0}) × Quota
unfolding settle_row first
settle l total_tokens cost day run_id q =
    settle_row l total_tokens cost day run_id (first (is_for run_id) q.reservations) q

unfoldable pub release_row : String → String → Option Reservation → Quota → Quota
unfolding pop
release_row day run_id none q = q
release_row day run_id (some r) q =
    let tenant = r.tenant_id in
    record q {
      reservations = pop run_id q.reservations;
      reserved_tokens =
          put₂ tenant day (q.reserved_tokens tenant day - r.token_limit) q.reserved_tokens;
      queued = put tenant (q.queued tenant - 1) q.queued;
      active = put tenant (q.active tenant - 1) q.active;
    }

-- `release`
unfoldable pub release : String → String → Quota → Quota
unfolding release_row first
release day run_id q = release_row day run_id (first (is_for run_id) q.reservations) q
