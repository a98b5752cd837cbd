-- ===== src/Quota/Tokens.antt =====
-- app/agent/quota.py: the token accounts of a tenant on one day.
pub mod Days
use yjdlagent.Prelude.{
  ℕ, ◌+◌, ◌-◌, ◌≤◌, ◌<◌, ◌≡◌, refl, Bool, true, false, Option, none, some, List, [], ◌∷◌, ◌++◌,
  String, All, arith, Bool-cases, Option-cases, inl, inr, ltb, leb, str_eq, eq_iff, if◌then◌else◌,
  not, ◌&&◌,
}
use yjdlagent.Errors.{Result, ok, err, is_err}
use yjdlagent.Table.{select, first, row_count}
use yjdlagent.Table.Laws.{row_count-append, first-row_count}
use yjdlagent.Quota.{
  and_then, Limits, Reservation, Quota, no_quota, rate_check, user_key, tenant_key, is_for, admit,
  reserve_new, reserve, activate, mark_active, pop, charge, settle_row, settle, release_row,
  release,
}

-- the tokens that the reservations of a tenant hold
abbrev pub held : String → List Reservation → ℕ
held tenant [] = 0
held tenant (r ∷ rs) =
    if str_eq r.tenant_id tenant then r.token_limit + held tenant rs else held tenant rs

-- Reservations have different runs, the reserved tokens of the day are what they hold, and the
-- used tokens of the day stay within the daily limit.
pub record IsBalanced (l : Limits) (day : String) (q : Quota) : Type 0 where
  pub unique : (k : String) → row_count (is_for k) q.reservations ≤ 1
  pub reserved : (t : String) → q.reserved_tokens t day ≡ held t q.reservations
  pub used : (t : String) → q.daily_tokens t day ≤ l.tenant_daily_tokens

held-append :
    (t : String) (rs : List Reservation) (r : Reservation)
    → held t (rs ++ r ∷ []) ≡ held t rs + (if str_eq r.tenant_id t then r.token_limit else 0)
held-append t [] r = ground arith
held-append t (x ∷ rs) r = ground (arith, held-append t rs r)

row_count-pop :
    (k j : String) (rs : List Reservation)
    → row_count (is_for j) (pop k rs) ≤ row_count (is_for j) rs
unfolding pop row_count
row_count-pop k j [] = omega arith
row_count-pop k j (x ∷ rs) = ground (arith, row_count-pop k j rs)

pop-absent : (k : String) (rs : List Reservation) → row_count (is_for k) rs ≡ 0 → pop k rs ≡ rs
unfolding pop row_count
pop-absent k [] h = refl
pop-absent k (x ∷ rs) h = ground (arith, pop-absent k rs)

-- Popping a run takes away what its reservation holds.
held-pop :
    (t k : String) (rs : List Reservation) {r : Reservation}
    → row_count (is_for k) rs ≤ 1
    → first (is_for k) rs ≡ some r
    → held t (pop k rs) + (if str_eq r.tenant_id t then r.token_limit else 0) ≡ held t rs
unfolding pop row_count first
held-pop t k [] u e = ground arith
held-pop t k (x ∷ rs) {r} u e = elim (Bool-cases (is_for k x)) [
  | inl i ↦ ground (arith, pop-absent k rs)
  | inr n ↦
      let ih : held t (pop k rs) + (if str_eq r.tenant_id t then r.token_limit else 0) ≡ held t rs =
        held-pop t k rs {r = r} (ground arith) (ground arith) in
      ground (arith, ih)
]

-- What a rate check leaves alone.
pub record SameAccounts (day : String) (q q' : Quota) : Type 0 where
  pub reservations : q'.reservations ≡ q.reservations
  pub reserved : (t : String) → q'.reserved_tokens t day ≡ q.reserved_tokens t day
  pub used : (t : String) → q'.daily_tokens t day ≡ q.daily_tokens t day

pub IsBalanced-same :
    (l : Limits) (day : String) (q q' : Quota)
    → SameAccounts day q q'
    → IsBalanced l day q
    → IsBalanced l day q'
IsBalanced-same l day q q' s b = record {
  unique = λ k. rw s.reservations (b.unique k);
  reserved = λ t. rw (s.reserved t, s.reservations) (b.reserved t);
  used = λ t. rw (s.used t) (b.used t);
}

pub rate_check-SameAccounts :
    (key : String) (limit now : ℕ) (day : String) (q : Quota)
    → SameAccounts day q (rate_check key limit now q).1
unfolding rate_check
rate_check-SameAccounts key limit now day q = record {
  reservations = ground arith;
  reserved = λ t. ground arith;
  used = λ t. ground arith;
}

pub IsBalanced-admit :
    (l : Limits) (now : ℕ) (day : String) (r : Reservation) (q : Quota)
    → row_count (is_for r.run_id) q.reservations ≡ 0
    → IsBalanced l day q
    → IsBalanced l day (admit l now day r q).1
unfolding admit
IsBalanced-admit l now day r q new b = record {
  unique = λ k.
      ground
        (arith, b.unique k, row_count-append (is_for k) q.reservations r, eq_iff r.run_id k, new);
  reserved = λ t. ground (
    arith,
    b.reserved t,
    held-append t q.reservations r,
    eq_iff r.tenant_id t,
    (eq_iff day day).1 refl,
  );
  used = λ t. ground (arith, b.used t);
}

module _ (l : Limits) (day : String) (k : String) (q : Quota) (b : IsBalanced l day q)
    {r : Reservation} (found : first (is_for k) q.reservations ≡ some r) where
  -- the reserved tokens once the reservation is popped
  reserved-pop :
      (t : String)
      → (if str_eq r.tenant_id t && str_eq day day
          then q.reserved_tokens r.tenant_id day - r.token_limit
          else q.reserved_tokens t day)
        ≡ held t (pop k q.reservations)
  reserved-pop t = ground (
    arith,
    b.reserved t,
    b.reserved r.tenant_id,
    eq_iff r.tenant_id t,
    (eq_iff day day).1 refl,
    held-pop t k q.reservations (b.unique k) found,
  )

  unique-pop : (j : String) → row_count (is_for j) (pop k q.reservations) ≤ 1
  unique-pop j = omega (arith, row_count-pop k j q.reservations, b.unique j)

  pub IsBalanced-settle_row :
      (tokens cost : ℕ) → IsBalanced l day (settle_row l tokens cost day k (some r) q).1
  unfolding settle_row charge
  IsBalanced-settle_row tokens cost = record {
    unique = λ j. ground (arith, unique-pop j);
    reserved = λ t. ground (arith, reserved-pop t);
    used = λ t. ground (arith, b.used t, b.used r.tenant_id, eq_iff r.tenant_id t);
  }

  pub IsBalanced-release_row : IsBalanced l day (release_row day k (some r) q)
  unfolding release_row
  IsBalanced-release_row = record { unique = unique-pop; reserved = reserved-pop; used = b.used }
