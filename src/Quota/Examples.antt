-- ===== src/Quota/Examples.antt =====
-- The gate on small inputs, and the theorems about it at such inputs.
use yjdlagent.Prelude.{
  ◌≡◌, refl, true, false, List, [], ◌∷◌, ◌++◌, String, length, leb, str_eq, arith, if◌then◌else◌,
}
use yjdlagent.Errors.{is_err}
use yjdlagent.Quota.{Quota, Limits, no_quota, put, rate_check, reserve, mark_active, settle}
use yjdlagent.Quota.Window.{recent, rate_check-window}
use yjdlagent.Quota.Tokens.{IsBalanced}
use yjdlagent.Quota.Tokens.Days.{
  QuotaOp, reserving, activating, settling, quota_step, quota_run, quota_step, quota_run-IsBalanced,
  IsBalanced-no_quota,
}

abbrev small : Limits
small = record {
  user_rate_per_minute = 2;
  tenant_rate_per_minute = 3;
  tenant_active_runs = 2;
  tenant_queue_runs = 2;
  run_max_tokens = 100;
  tenant_daily_tokens = 250;
  tenant_daily_budget = 0;
}

-- one request long ago, and two in the last minute
abbrev busy : Quota
busy = record no_quota { requests = put "user:t:u" (1000 ∷ 70000 ∷ 80000 ∷ []) (λ k. []) }

refuses_third : is_err (rate_check "user:t:u" 2 90000 busy).0 ≡ true
unfolding rate_check
refuses_third = refl

rate_check-window_example :
    (is_err (rate_check "user:t:u" 2 90000 busy).0
      ≡ leb 2 (length (recent 90000 (busy.requests "user:t:u"))))
    × ((rate_check "user:t:u" 2 90000 busy).1.requests "user:t:u"
        ≡ recent 90000 (busy.requests "user:t:u")
          ++ (if leb 2 (length (recent 90000 (busy.requests "user:t:u"))) then [] else 90000 ∷ []))
    × ((other : String)
        → str_eq "user:t:u" other ≡ false
        → (rate_check "user:t:u" 2 90000 busy).1.requests other ≡ busy.requests other)
rate_check-window_example =
    rate_check-window "user:t:u" 2 90000 busy
      ((omega arith, (omega arith, tt)), ((omega arith, tt), (tt, tt)))

abbrev one_day : List QuotaOp
one_day =
    reserving 1000 "r1" "t" "u" "run1"
    ∷ activating "run1"
    ∷ reserving 2000 "r2" "t" "u" "run2"
    ∷ settling 80 0 "run1"
    ∷ []

one_day_tokens : (quota_run small "2026-01-01" no_quota one_day).daily_tokens "t" "2026-01-01" ≡ 80
unfolding quota_run quota_step reserve mark_active settle
one_day_tokens = refl

quota_run-IsBalanced_example :
    IsBalanced small "2026-01-01" (quota_run small "2026-01-01" no_quota one_day)
quota_run-IsBalanced_example =
    quota_run-IsBalanced small "2026-01-01" one_day no_quota
      (IsBalanced-no_quota small "2026-01-01")
