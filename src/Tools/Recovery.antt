-- ===== src/Tools/Recovery.antt =====
-- What `invoke_with_recovery` returns, and how often it calls the tool.
use yjdlagent.Prelude.{
  ℕ, zero, suc, ◌+◌, ◌≤◌, ◌<◌, ◌≡◌, refl, arith, length, ◌⊎◌, ◌==◌, Bool-cases, inl, inr,
}
use yjdlagent.Json.{Fields}
use yjdlagent.Errors.{AgentError, Result, ok, err, Exception}
use yjdlagent.Tools.{
  Exchange, Attempt, returns, raises, spent, again, attempt_once, Recovered, ended, delayed,
  exhausted, delay_of, too_late, recover_from, invoke_with_recovery,
}
use yjdlagent.Tools.Attempts.{IsDue, Due, needed, Outcome, timed, tired, Says, attempt_once-Says}

-- The call ended after attempt `last`, which is none after `most`.
pub record Recovers (limit timeout : ℕ) (service : ℕ → Exchange) (from most : ℕ) (r : Recovered)
    : Type 0 where
  pub last : ℕ
  pub calls : r.calls ≡ suc last
  pub started : from ≤ last
  pub bounded : last ≤ most
  pub pauses : from + length r.delays ≡ last
  pub before : (i : ℕ) → from ≤ i → i < last → Due limit timeout service i
  pub outcome : Outcome limit timeout most last (service last) r.outcome

abbrev Cases : Attempt → Type 0
Cases d =
    ((r : Fields) × (d ≡ returns r))
    ⊎ ((x : Exception) × (d ≡ raises x))
    ⊎ ((e : AgentError) × (d ≡ spent e))
    ⊎ ((e : AgentError) × (d ≡ again e))

Attempt-Cases : (d : Attempt) → Cases d
Attempt-Cases (returns r) = inl (r, refl)
Attempt-Cases (raises x) = inr (inl (x, refl))
Attempt-Cases (spent e) = inr (inr (inl (e, refl)))
Attempt-Cases (again e) = inr (inr (inr (e, refl)))

module _ (limit timeout : ℕ) (service : ℕ → Exchange) where
  -- attempt `n`
  abbrev decided : ℕ → Attempt
  decided n = attempt_once limit n (service n) (service n).invoked

  decided-Says :
      (n most : ℕ) (d : Attempt) → decided n ≡ d → Says limit timeout most n (service n) d
  decided-Says n most d e =
      rw e at (attempt_once-Says limit timeout most n (service n) (service n).invoked refl)

  Recovers-ended :
      (n most : ℕ) (o : Result Fields)
      → n ≤ most
      → Outcome limit timeout most n (service n) o
      → Recovers limit timeout service n most (ended n o)
  Recovers-ended n most o le m = record {
    last = n;
    calls = refl;
    started = omega arith;
    bounded = le;
    pauses = omega arith;
    before = λ i h lt. absurd (omega arith);
    outcome = m;
  }

  Recovers-delayed :
      (n most d : ℕ) (r : Recovered) (e : AgentError)
      → IsDue limit (service n) e
      → (service n).answered_at + needed timeout n ≤ limit
      → Recovers limit timeout service (suc n) most r
      → Recovers limit timeout service n most (delayed d r)
  Recovers-delayed n most d r e due early h = record {
    last = h.last;
    calls = h.calls;
    started = omega (arith, h.started);
    bounded = h.bounded;
    pauses = omega (arith, h.pauses);
    before = λ i le lt. elim (Bool-cases (i == n)) [
      | inl t ↦
          let same : n ≡ i = ground arith in
          let here : Due limit timeout service n = ((e, due), early) in rw same at here
      | inr t ↦ h.before i (ground arith) lt
    ];
    outcome = h.outcome;
  }

  recover_from-Recovers :
      (left n most : ℕ)
      → n + left ≡ most
      → Recovers limit timeout service n most (recover_from limit timeout service left n)
  unfolding recover_from
  recover_from-Recovers zero n most e =
      let says = decided-Says n most in
      elim (Attempt-Cases (decided n)) [
        | inl (r, d) ↦ rw (d, recover_from) (Recovers-ended n most (ok r) (omega arith) (says _ d))
        | inr (inl (x, d)) ↦
            rw (d, recover_from) (Recovers-ended n most (err x) (omega arith) (says _ d))
        | inr (inr (inl (f, d))) ↦
            let (failed, late) = says _ d in
            rw (d, recover_from)
              (Recovers-ended n most (err (exhausted n f)) (omega arith) (timed f failed late))
        | inr (inr (inr (f, d))) ↦
            rw (d, recover_from)
              (Recovers-ended n most (err (exhausted n f)) (omega arith)
                (tired f (says _ d) (inl (omega arith))))
      ]
  recover_from-Recovers (suc left) n most e =
      let says = decided-Says n most in
      elim (Attempt-Cases (decided n)) [
        | inl (r, d) ↦ rw (d, recover_from) (Recovers-ended n most (ok r) (omega arith) (says _ d))
        | inr (inl (x, d)) ↦
            rw (d, recover_from) (Recovers-ended n most (err x) (omega arith) (says _ d))
        | inr (inr (inl (f, d))) ↦
            let (failed, late) = says _ d in
            rw (d, recover_from)
              (Recovers-ended n most (err (exhausted n f)) (omega arith) (timed f failed late))
        | inr (inr (inr (f, d))) ↦ elim (Bool-cases (too_late limit timeout n (service n))) [
          | inl t ↦
              rw (d, t, recover_from)
                (Recovers-ended n most (err (exhausted n f)) (omega arith)
                  (tired f (says _ d) (inr (ground arith))))
          | inr t ↦
              rw (d, t, recover_from)
                (Recovers-delayed n most (delay_of n)
                  (recover_from limit timeout service left (suc n)) f (says _ d) (ground arith)
                  (recover_from-Recovers left (suc n) most (omega arith)))
        ]
      ]

-- The call of a tool ends after at most `max_retries` + 1 calls of the service, with a pause before
-- each call but the first. Each call before the last one had failed with a retryable error that is
-- none of the three that no other call can help, the service knew of no final state of it, and
-- there was time for the pause and another call. The outcome is the response of the last call; its
-- error as it is, if no other call can help or it is no `AgentError`; the final state that the
-- service knows; what the question for the state raises; and otherwise, when the time or the calls
-- are used up, the last error with the number of retries.
pub invoke_with_recovery-Recovers :
    (limit timeout max_retries : ℕ) (service : ℕ → Exchange)
    → Recovers limit timeout service 0 max_retries
        (invoke_with_recovery limit timeout max_retries service)
unfolding invoke_with_recovery
invoke_with_recovery-Recovers limit timeout max_retries service =
    recover_from-Recovers limit timeout service max_retries 0 max_retries (omega arith)
