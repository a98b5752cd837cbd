-- ===== src/Quota/Window.antt =====
-- app/agent/quota.py, `_rate_check`: the deque is a sliding window of one minute.
use mathlib.Core.List.{append-nil}
use yjdlagent.Prelude.{
  ℕ, ◌+◌, ◌≤◌, ◌<◌, ◌≡◌, refl, false, List, [], ◌∷◌, ◌++◌, String, All, arith, Bool-cases, inl, inr,
  ltb, leb, length, str_eq, eq_iff, if◌then◌else◌,
}
use yjdlagent.Errors.{is_err}
use yjdlagent.Table.{select}
use yjdlagent.Quota.{Quota, window, expire, rate_check}

-- The instants of a deque, oldest first.
abbrev pub IsAscending : List ℕ → Type 0
IsAscending [] = Unit
IsAscending (t ∷ ts) = All (λ u. t ≤ u) ts × IsAscending ts

-- The instants of the last minute.
abbrev pub recent : ℕ → List ℕ → List ℕ
recent now = select (λ t. ltb now (t + window))

recent-All : (now t : ℕ) (ts : List ℕ) → now < t + window → All (λ u. t ≤ u) ts → recent now ts ≡ ts
unfolding select
recent-All now t [] h a = refl
recent-All now t (u ∷ us) h a = ground (arith, recent-All now t us h a.1, a.0)

-- Dropping the old entries from the front leaves exactly the instants of the last minute.
expire-eq-recent : (now : ℕ) (ts : List ℕ) → IsAscending ts → expire now ts ≡ recent now ts
unfolding expire select
expire-eq-recent now [] a = refl
expire-eq-recent now (t ∷ ts) a = ground (arith, expire-eq-recent now ts a.1, recent-All now t ts)

-- Where the instants of a key's deque ascend, the check refuses exactly when as many requests as
-- the limit were recorded within the last minute. Afterwards the deque holds the requests of the
-- last minute, and the new one behind them if it was accepted; other keys keep theirs.
pub rate_check-window :
    (key : String) (limit now : ℕ) (q : Quota)
    → IsAscending (q.requests key)
    → (is_err (rate_check key limit now q).0 ≡ leb limit (length (recent now (q.requests key))))
      × ((rate_check key limit now q).1.requests key
          ≡ recent now (q.requests key)
            ++ (if leb limit (length (recent now (q.requests key))) then [] else now ∷ []))
      × ((other : String)
          → str_eq key other ≡ false
          → (rate_check key limit now q).1.requests other ≡ q.requests other)
unfolding rate_check
rate_check-window key limit now q a =
    let same = expire-eq-recent now (q.requests key) a in
    elim (Bool-cases (leb limit (length (recent now (q.requests key))))) [
      | inl t ↦ (
        rw (same, t),
        rw (same, t, (eq_iff key key).1 refl, append-nil),
        λ other ne. rw (same, t, ne),
      )
      | inr n ↦ (rw (same, n), rw (same, n, (eq_iff key key).1 refl), λ other ne. rw (same, n, ne))
    ]
