-- ===== src/Quota/Tokens/Days.antt =====
-- app/agent/quota.py: any calls of the gate on one day.
use yjdlagent.Prelude.{
  ℕ, ◌≡◌, refl, Option, none, some, List, [], ◌∷◌, String, arith, Bool-cases, Option-cases, inl,
  inr, ltb,
}
use yjdlagent.Errors.{Result, ok, err}
use yjdlagent.Table.{first, row_count}
use yjdlagent.Table.Laws.{first-row_count}
use yjdlagent.Quota.{
  and_then, Limits, Reservation, Quota, no_quota, rate_check, user_key, tenant_key, is_for, admit,
  reserve, activate, mark_active, settle, release,
}
use yjdlagent.Quota.Tokens.{
  IsBalanced, IsBalanced-same, rate_check-SameAccounts, IsBalanced-admit, IsBalanced-settle_row,
  IsBalanced-release_row,
}

pub data QuotaOp : Type 0 where
  reserving : ℕ → String → String → String → String → QuotaOp
  activating : String → QuotaOp
  settling : ℕ → ℕ → String → QuotaOp
  releasing : String → QuotaOp

unfoldable pub quota_step : Limits → String → QuotaOp → Quota → Quota
quota_step l day (reserving now uuid t u k) q = (reserve l now day uuid t u k q).1
quota_step l day (activating k) q = mark_active k q
quota_step l day (settling tokens cost k) q = (settle l tokens cost day k q).1
quota_step l day (releasing k) q = release day k q

unfoldable pub quota_run : Limits → String → Quota → List QuotaOp → Quota
quota_run l day q [] = q
quota_run l day q (op ∷ ops) = quota_run l day (quota_step l day op q) ops

-- `reserve` past the look-up: each check may raise, and then only the rates have changed.
admit_after :
    (l : Limits) (now : ℕ) (day : String) (r : Reservation) (x : Result (Unit {0}) × Quota)
    → IsBalanced l day x.1
    → row_count (is_for r.run_id) x.1.reservations ≡ 0
    → IsBalanced l day (and_then x (λ q₂. admit l now day r q₂)).1
admit_after l now day r (ok u, q) b new = IsBalanced-admit l now day r q new b
admit_after l now day r (err e, q) b new = b

checks_after :
    (l : Limits) (now : ℕ) (day : String) (r : Reservation) (x : Result (Unit {0}) × Quota)
    → IsBalanced l day x.1
    → row_count (is_for r.run_id) x.1.reservations ≡ 0
    → IsBalanced l day
        (and_then x λ q₁.
          and_then
            (rate_check (tenant_key r.tenant_id) l.tenant_rate_per_minute now q₁)
            λ q₂. admit l now day r q₂).1
checks_after l now day r (ok u, q) b new =
    let s = rate_check-SameAccounts (tenant_key r.tenant_id) l.tenant_rate_per_minute now day q in
    admit_after l now day r (rate_check (tenant_key r.tenant_id) l.tenant_rate_per_minute now q)
      (IsBalanced-same l day q _ s b) (rw s.reservations new)
checks_after l now day r (err e, q) b new = b

IsBalanced-reserve :
    (l : Limits) (now : ℕ) (day uuid tenant user k : String) (q : Quota)
    → IsBalanced l day q
    → IsBalanced l day (reserve l now day uuid tenant user k q).1
unfolding reserve
IsBalanced-reserve l now day uuid tenant user k q b =
    elim (Option-cases (first (is_for k) q.reservations)) [
      | inl e ↦
          let s = rate_check-SameAccounts (user_key tenant user) l.user_rate_per_minute now day q in
          rw (e, reserve)
            (checks_after l now day
              (record {
                reservation_id = uuid;
                tenant_id = tenant;
                user_id = user;
                run_id = k;
                token_limit = l.run_max_tokens;
                created_at = now;
              })
              (rate_check (user_key tenant user) l.user_rate_per_minute now q)
              (IsBalanced-same l day q _ s b)
              (rw s.reservations (first-row_count (is_for k) q.reservations e)))
      | inr (r, e) ↦ rw (e, reserve) b
    ]

IsBalanced-activate :
    (l : Limits) (day : String) (o : Option Reservation) (q : Quota)
    → IsBalanced l day q
    → IsBalanced l day (activate o q)
unfolding activate
IsBalanced-activate l day none q b = b
IsBalanced-activate l day (some r) q b = elim (Bool-cases (ltb 0 (q.queued r.tenant_id))) [
  | inl t ↦ rw t (record { unique = b.unique; reserved = b.reserved; used = b.used })
  | inr n ↦ rw n b
]

IsBalanced-step :
    (l : Limits) (day : String) (op : QuotaOp) (q : Quota)
    → IsBalanced l day q
    → IsBalanced l day (quota_step l day op q)
unfolding quota_step mark_active settle release
IsBalanced-step l day (reserving now uuid t u k) q b = IsBalanced-reserve l now day uuid t u k q b
IsBalanced-step l day (activating k) q b =
    IsBalanced-activate l day (first (is_for k) q.reservations) q b
IsBalanced-step l day (settling tokens cost k) q b =
    elim (Option-cases (first (is_for k) q.reservations)) [
      | inl e ↦ rw (e, quota_step, settle) b
      | inr (r, e) ↦ rw (e, quota_step, settle) (IsBalanced-settle_row l day k q b e tokens cost)
    ]
IsBalanced-step l day (releasing k) q b = elim (Option-cases (first (is_for k) q.reservations)) [
  | inl e ↦ rw (e, quota_step, release) b
  | inr (r, e) ↦ rw (e, quota_step, release) (IsBalanced-release_row l day k q b e)
]

-- On one day, after any calls of the gate, from any accounts in balance: every run has at most one
-- reservation, the reserved tokens of every tenant are exactly what its reservations hold, and
-- the tokens that every tenant has used stay within the daily limit.
pub quota_run-IsBalanced :
    (l : Limits) (day : String) (ops : List QuotaOp) (q : Quota)
    → IsBalanced l day q
    → IsBalanced l day (quota_run l day q ops)
unfolding quota_run
quota_run-IsBalanced l day [] q b = b
quota_run-IsBalanced l day (op ∷ ops) q b =
    quota_run-IsBalanced l day ops (quota_step l day op q) (IsBalanced-step l day op q b)

pub IsBalanced-no_quota : (l : Limits) (day : String) → IsBalanced l day no_quota
unfolding row_count
IsBalanced-no_quota l day = record {
  unique = λ k. omega arith;
  reserved = λ t. refl;
  used = λ t. omega arith;
}
