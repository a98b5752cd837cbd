-- ===== src/Tools/Attempts.antt =====
-- app/tools/spring_client.py, `invoke_with_recovery`: what an attempt comes to, told by the answers that it
-- meets.
use yjdlagent.Prelude.{
  ℕ, ◌+◌, ◌*◌, ◌^◌, ◌≤◌, ◌<◌, ◌≡◌, refl, arith, ◌⊎◌, ◌||◌, leb, Bool, true, false, Bool-cases, inl,
  inr, Option, none, some, String, str_eq, eq_iff,
}
use yjdlagent.Json.{Json, Fields, text, arr, obj}
use yjdlagent.Errors.{AgentError, Result, ok, err, Exception, agent_error, IsForeign}
use yjdlagent.Tools.{
  Response, Status, found, timed_out, raised, Exchange, with_metrics, gives_up, is_final, status_of,
  data_of, final_of, has_ended, Attempt, returns, raises, spent, again, after_state, after_status,
  attempt_once,
}

-- Another call can help.
abbrev pub IsWorth : AgentError → Type 0
IsWorth e =
    (e.retryable ≡ true)
    × (¬ (e.code ≡ "INVALID_BUFFER_DISTANCE"))
    × (¬ (e.code ≡ "INVALID_HOUSING_SEARCH_ARGUMENT"))
    × (¬ (e.code ≡ "TOOL_CALL_CONFLICT"))

-- No other call can help.
abbrev pub IsHopeless : AgentError → Type 0
IsHopeless e =
    (e.retryable ≡ false)
    ⊎ (e.code ≡ "INVALID_BUFFER_DISTANCE")
    ⊎ (e.code ≡ "INVALID_HOUSING_SEARCH_ARGUMENT")
    ⊎ (e.code ≡ "TOOL_CALL_CONFLICT")

abbrev pub IsFinal : Result (Option Json) → Type 0
IsFinal (ok (some (text s))) = (s ≡ "SUCCEEDED") ⊎ (s ≡ "FAILED") ⊎ (s ≡ "REJECTED")
IsFinal _ = ⊥

-- The call has ended in this state.
abbrev pub HasFinal : Fields → Type 0
HasFinal execution = IsFinal (status_of (data_of execution))

-- The service knows of no end of the call.
abbrev pub Unknown : Status → Type 0
Unknown (found execution) = ¬ (HasFinal execution)
Unknown timed_out = Unit
Unknown (raised (agent_error s)) = (s.code ≡ "EXECUTION_NOT_FOUND") ⊎ (s.retryable ≡ true)
Unknown (raised x) = ⊥

-- The question for the state raises.
abbrev pub Raises : Status → Exception → Type 0
Raises (found execution) y = has_ended execution ≡ err y
Raises timed_out y = ⊥
Raises (raised (agent_error s)) y =
    (y ≡ agent_error s) × (¬ (s.code ≡ "EXECUTION_NOT_FOUND")) × (s.retryable ≡ false)
Raises (raised x) y = y ≡ x

-- The call failed with an error after which another one can help.
abbrev pub Failed : Exchange → AgentError → Type 0
Failed x e = (x.invoked ≡ err (agent_error e)) × IsWorth e

-- Another call is due, as far as the errors and the state tell.
abbrev pub IsDue : ℕ → Exchange → AgentError → Type 0
IsDue limit x e = Failed x e × (x.asked_at < limit) × Unknown x.status

-- The time that the pause before the next call and the next call may take.
abbrev pub needed : ℕ → ℕ → ℕ
needed timeout n = timeout + 250 * 2 ^ n

-- Another call is made after attempt `i`.
abbrev pub Due : ℕ → ℕ → (ℕ → Exchange) → ℕ → Type 0
Due limit timeout service i =
    ((e : AgentError) × IsDue limit (service i) e)
    × ((service i).answered_at + needed timeout i ≤ limit)

-- The outcome of the call, whose last attempt was `n`, and met `x`.
pub data Outcome (limit timeout most n : ℕ) (x : Exchange) : Result Fields → Type 0 where
  answered :
      (r : Fields) → x.invoked ≡ ok r → Outcome limit timeout most n x (ok (with_metrics n r))
  hopeless :
      (e : AgentError)
      → x.invoked ≡ err (agent_error e)
      → IsHopeless e
      → Outcome limit timeout most n x (err (agent_error e))
  foreign :
      (y : Exception) → x.invoked ≡ err y → IsForeign y → Outcome limit timeout most n x (err y)
  known :
      (e : AgentError) (execution : Fields)
      → Failed x e
      → x.asked_at < limit
      → x.status ≡ found execution
      → HasFinal execution
      → Outcome limit timeout most n x (ok (with_metrics n execution))
  unknowable :
      (e : AgentError) (y : Exception)
      → Failed x e
      → x.asked_at < limit
      → Raises x.status y
      → Outcome limit timeout most n x (err y)
  timed :
      (e : AgentError)
      → Failed x e
      → limit ≤ x.asked_at
      → Outcome limit timeout most n x (err (agent_error (record e { retry_count = n })))
  tired :
      (e : AgentError)
      → IsDue limit x e
      → (n ≡ most) ⊎ (limit < x.answered_at + needed timeout n)
      → Outcome limit timeout most n x (err (agent_error (record e { retry_count = n })))

-- What an attempt means.
abbrev pub Says : ℕ → ℕ → ℕ → ℕ → Exchange → Attempt → Type 0
Says limit timeout most n x (returns r) = Outcome limit timeout most n x (ok r)
Says limit timeout most n x (raises y) = Outcome limit timeout most n x (err y)
Says limit timeout most n x (spent e) = Failed x e × (limit ≤ x.asked_at)
Says limit timeout most n x (again e) = IsDue limit x e

abbrev FinalSays : Result (Option Json) → Result Bool → Type 0
FinalSays s (ok true) = IsFinal s
FinalSays s (ok false) = ¬ (IsFinal s)
FinalSays s (err y) = Unit

text-FinalSays :
    (s : String)
    → FinalSays
        (ok (some (text s)))
        (ok (str_eq s "SUCCEEDED" || str_eq s "FAILED" || str_eq s "REJECTED"))
text-FinalSays s = elim (Bool-cases (str_eq s "SUCCEEDED")) [
  | inl e ↦ rw e (inl ((eq_iff s "SUCCEEDED").0 e))
  | inr e ↦ elim (Bool-cases (str_eq s "FAILED")) [
    | inl f ↦ rw (e, f) (inr (inl ((eq_iff s "FAILED").0 f)))
    | inr f ↦ elim (Bool-cases (str_eq s "REJECTED")) [
      | inl g ↦ rw (e, f, g) (inr (inr ((eq_iff s "REJECTED").0 g)))
      | inr g ↦
          rw (e, f, g)
            (λ h.
              ground
                (arith, h, e, f, g, eq_iff s "SUCCEEDED", eq_iff s "FAILED", eq_iff s "REJECTED"))
    ]
  ]
]

final_of-FinalSays : (s : Result (Option Json)) → FinalSays s (final_of s)
unfolding is_final
final_of-FinalSays (err y) = tt
final_of-FinalSays (ok none) = λ h. h
final_of-FinalSays (ok (some (text s))) = text-FinalSays s
final_of-FinalSays (ok (some (arr xs))) = tt
final_of-FinalSays (ok (some (obj fs))) = tt
final_of-FinalSays (ok (some _)) = λ h. h

gives_up-IsHopeless : (e : AgentError) → gives_up e ≡ true → IsHopeless e
gives_up-IsHopeless e h = ground (
  arith,
  h,
  eq_iff e.code "INVALID_BUFFER_DISTANCE",
  eq_iff e.code "INVALID_HOUSING_SEARCH_ARGUMENT",
  eq_iff e.code "TOOL_CALL_CONFLICT",
)

gives_up-IsWorth : (e : AgentError) → gives_up e ≡ false → IsWorth e
gives_up-IsWorth e h = ground (
  arith,
  h,
  eq_iff e.code "INVALID_BUFFER_DISTANCE",
  eq_iff e.code "INVALID_HOUSING_SEARCH_ARGUMENT",
  eq_iff e.code "TOOL_CALL_CONFLICT",
)

module _ (limit timeout most n : ℕ) (x : Exchange) where
  after_state-Says :
      (e : AgentError) (execution : Fields) (b : Result Bool)
      → Failed x e
      → x.asked_at < limit
      → x.status ≡ found execution
      → has_ended execution ≡ b
      → FinalSays (status_of (data_of execution)) b
      → Says limit timeout most n x (after_state n execution e b)
  after_state-Says e execution (ok true) f lt s h final = known e execution f lt s final
  after_state-Says e execution (ok false) f lt s h final = (f, lt, rw s final)
  after_state-Says e execution (err y) f lt s h final = unknowable e y f lt (rw s h)

  after_status-Says :
      (e : AgentError) (status : Status)
      → Failed x e
      → x.asked_at < limit
      → x.status ≡ status
      → Says limit timeout most n x (after_status n e status)
  unfolding after_status
  after_status-Says e (found execution) f lt s =
      after_state-Says e execution (has_ended execution) f lt s refl
        (unfold has_ended in final_of-FinalSays (status_of (data_of execution)))
  after_status-Says e timed_out f lt s = (f, lt, rw s tt)
  after_status-Says e (raised (agent_error y)) f lt s =
      elim (Bool-cases (str_eq y.code "EXECUTION_NOT_FOUND")) [
        | inl c ↦ rw c (f, lt, rw s (inl ((eq_iff y.code "EXECUTION_NOT_FOUND").0 c)))
        | inr c ↦ elim (Bool-cases y.retryable) [
          | inl t ↦ rw (c, t) (f, lt, rw s (inr t))
          | inr t ↦
              let other : ¬ (y.code ≡ "EXECUTION_NOT_FOUND") =
                λ h. ground (arith, h, c, eq_iff y.code "EXECUTION_NOT_FOUND") in
              simp (c, t) (unknowable e (agent_error y) f lt (rw s (refl, other, t)))
        ]
      ]
  after_status-Says e (raised y) f lt s = unknowable e y f lt (rw s refl)

  pub attempt_once-Says :
      (response : Response)
      → x.invoked ≡ response
      → Says limit timeout most n x (attempt_once limit n x response)
  unfolding attempt_once
  attempt_once-Says (ok r) eq = answered r eq
  attempt_once-Says (err (agent_error e)) eq = elim (Bool-cases (gives_up e)) [
    | inl g ↦ rw g (hopeless e eq (gives_up-IsHopeless e g))
    | inr g ↦
        let failed : Failed x e = (eq, gives_up-IsWorth e g) in
        elim (Bool-cases (leb limit x.asked_at)) [
          | inl t ↦ rw (g, t) (failed, ground arith)
          | inr t ↦ rw (g, t) (after_status-Says e x.status failed (ground arith) refl)
        ]
  ]
  attempt_once-Says (err y) eq = foreign y eq tt
