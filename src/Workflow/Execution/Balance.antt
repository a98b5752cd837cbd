-- ===== src/Workflow/Execution/Balance.antt =====
-- `execute_map_tools`: every call that is started is completed, and the outputs belong to the calls
-- that have succeeded.
use mathlib.Core.List.{append_assoc, append-nil}
use yjdlagent.Prelude.{
  ℕ, ◌+◌, ◌≡◌, refl, sym, ◌∙◌, List, [], ◌∷◌, ◌++◌, map, String, arith, length, length-append,
  Option, none, some, ◌==◌, ◌⊎◌, inl, inr, Bool-cases,
}
use yjdlagent.Json.{Json, Fields, obj, num, get_field}
use yjdlagent.Table.{row_count}
use yjdlagent.Errors.{AgentError, Result, ok, err, Exception, agent_error, IsForeign}
use yjdlagent.Python.{int_of, or_default, Numbers, pos_part}
use yjdlagent.Store.Schema.{Db, ToolStatus}
use yjdlagent.Store.Metrics.{tool_call_is, record_tool_started, record_tool_completed}
use yjdlagent.Store.Transaction.{connect}
use yjdlagent.Tools.{Response}
use yjdlagent.Workflow.Results.{ToolCall}
use yjdlagent.Workflow.Acceptance.{Catalog, Accepted, accept}
use yjdlagent.Workflow.Execution.{
  int_or_raise, retry_count_in, retry_count_of, Emission, started, completed, Journal, M, Reply,
  Progress, succeed, give_up, answered, respond, run_call, run_calls, continue, stored, emit, pure,
  lift,
}

-- For each call in turn, that it has started and then that it is completed.
abbrev pub Paired : List ToolCall → List Emission → Type 0
Paired [] [] = Unit
Paired (c ∷ cs) (started i n ∷ completed j m status ms ∷ es) =
    ((i ≡ c.tool_call_id) × (n ≡ c.tool_name) × (j ≡ c.tool_call_id) × (m ≡ c.tool_name))
    × Paired cs es
Paired _ _ = ⊥

-- What `n` calls add to the variables of the loop.
pub record Counted (n : ℕ) (p q : Progress) : Type 0 where
  pub aligned : length q.outputs + length p.successful ≡ length q.successful + length p.outputs
  pub accounted :
      length q.successful + length q.warnings ≡ n + length p.successful + length p.warnings

-- An exception of a result is none of a tool.
abbrev AllForeign : {A : Type 0} → Result A → Type 0
AllForeign (ok a) = Unit
AllForeign (err e) = IsForeign e

AllForeign-err :
    {A : Type 0} (m : Result A) (e : Exception) → m ≡ err e → AllForeign m → IsForeign e
AllForeign-err m e eq h = rw eq at h

record_tool_completed-AllForeign :
    (now : ℕ) (run_id call : String) (status : ToolStatus) (ms retries : ℕ) (code : Option String)
    (db : Db)
    → AllForeign (record_tool_completed now run_id call status ms retries code db).0
unfolding record_tool_completed connect
record_tool_completed-AllForeign now run_id call status ms retries code db =
    elim (Bool-cases (row_count (tool_call_is run_id call) db.tool_metrics == 1)) [
      | inl e ↦ rw e tt
      | inr e ↦ rw e tt
    ]

abbrev pub calls_of : List (ToolCall × Reply) → List ToolCall
calls_of plan = map (λ (x : ToolCall × Reply). x.0) plan

module _ (py : Numbers) (digest : Json → String) (catalog : Catalog) (run_id : String) where
  -- Why an exception ends the node: the start of the call cannot be recorded, a number in a response
  -- cannot be read, or it is no `AgentError`.
  pub data Breaks (c : ToolCall) (r : Reply) (e : Exception) : Type 0 where
    unrecorded :
        (db : Db)
        → (record_tool_started digest r.started_at run_id c.tool_call_id c.tool_name
            (obj c.arguments)
            db).0
          ≡ err e
        → Breaks c r e
    no_number : (v : Json) → int_of py v ≡ err e → Breaks c r e
    foreign : IsForeign e → Breaks c r e

  -- One of these calls breaks.
  abbrev pub Broken : List (ToolCall × Reply) → Exception → Type 0
  Broken [] e = ⊥
  Broken ((c, r) ∷ rest) e = Breaks c r e ⊎ Broken rest e

  -- An outcome of the calls of a plan.
  abbrev pub Runs :
      List (ToolCall × Reply) → Progress → Journal → Result Progress × Journal → Type 0
  Runs plan p j (ok q, k) =
      (es : List Emission) × (k.emitted ≡ j.emitted ++ es)
      × Paired (calls_of plan) es
      × Counted (length plan) p q
  Runs plan p j (err e, k) = Broken plan e

  -- what the two ends of a call send
  abbrev Completes : ToolCall → Reply → Progress → Journal → Result Progress × Journal → Type 0
  Completes c r p j (ok q, k) =
      (status : ToolStatus) × (ms : ℕ) × (k.emitted
        ≡ j.emitted ++ completed c.tool_call_id c.tool_name status ms ∷ [])
      × Counted 1 p q
  Completes c r p j (err e, k) = Breaks c r e

  -- The call is recorded, and then told to be completed.
  reported_end :
      (c : ToolCall) (r : Reply) (status : ToolStatus) (ms : ℕ) (p q : Progress) (j : Journal)
      (x : Result (Unit {0}) × Db)
      → AllForeign x.0
      → Counted 1 p q
      → Completes c r p j (
          continue
            (continue (stored j x) (λ _. emit (completed c.tool_call_id c.tool_name status ms)))
            (λ _. pure q))
  reported_end c r status ms p q j (ok u, db) f h = (status, ms, refl, h)
  reported_end c r status ms p q j (err e, db) f h = foreign f

  give_up-Completes :
      (c : ToolCall) (r : Reply) (e : AgentError) (p : Progress) (j : Journal)
      → Completes c r p j (give_up py digest catalog run_id c r e p j)
  unfolding give_up
  give_up-Completes c r e p j =
      reported_end c r _ r.elapsed p _ j _
        (record_tool_completed-AllForeign r.completed_at run_id c.tool_call_id _ r.elapsed
          e.retry_count (some e.code) j.db)
        (record {
          aligned = omega arith;
          accounted = omega (arith, length-append p.warnings (_ ∷ []));
        })

  lifted :
      {A : Type 0} (c : ToolCall) (r : Reply) (p : Progress) (j : Journal) (m : Result A)
      (f : A → M Progress)
      → ((e : Exception) → m ≡ err e → Breaks c r e)
      → ((a : A) → Completes c r p j (f a j))
      → Completes c r p j (continue (lift m j) f)
  lifted c r p j (ok a) f b h = h a
  lifted c r p j (err e) f b h = b e refl

  retries-Breaks :
      (c : ToolCall) (r : Reply) (x : Result Json) (e : Exception)
      → AllForeign x
      → int_or_raise py digest catalog run_id x ≡ err e
      → Breaks c r e
  retries-Breaks c r (ok v) e f eq = no_number v eq
  retries-Breaks c r (err x) e f eq = foreign (AllForeign-err (err x) e eq f)

  retry_count_in-AllForeign :
      (metrics : Option Json) → AllForeign (retry_count_in py digest catalog run_id metrics)
  retry_count_in-AllForeign none = tt
  retry_count_in-AllForeign (some (obj metrics)) = tt
  retry_count_in-AllForeign (some _) = tt

  succeed-Completes :
      (c : ToolCall) (r : Reply) (response : Fields) (a : Accepted) (p : Progress) (j : Journal)
      → Completes c r p j (succeed py digest catalog run_id c r response a p j)
  unfolding succeed
  succeed-Completes c r response a p j =
      let q = record p {
        outputs = p.outputs ++ a.result ∷ [];
        successful = p.successful ++ c ∷ [];
      } in
      let counted : Counted 1 p q = record {
        aligned =
            omega
              (arith, length-append p.outputs (a.result ∷ []), length-append p.successful (c ∷ []));
        accounted = omega (arith, length-append p.successful (c ∷ []));
      } in
      let retried = retry_count_of py digest catalog run_id response in
      lifted c r p j (int_or_raise py digest catalog run_id retried) _
        (λ e eq.
          retries-Breaks c r retried e
            (retry_count_in-AllForeign (get_field "_agentMetrics" response)) eq)
        λ retries.
          lifted c r p j (int_of py (or_default (num r.elapsed) (get_field "durationMs" a.answer)))
            _ (λ e eq. no_number _ eq)
            λ duration.
              reported_end c r ToolStatus.succeeded (pos_part duration) p q j _
                (record_tool_completed-AllForeign r.completed_at run_id c.tool_call_id
                  ToolStatus.succeeded (pos_part duration) (pos_part retries) none j.db)
                counted

  answered-Completes :
      (c : ToolCall) (r : Reply) (response : Fields) (p : Progress) (j : Journal)
      (x : Result Accepted)
      → Completes c r p j (answered py digest catalog run_id c r response p x j)
  answered-Completes c r response p j (ok a) = succeed-Completes c r response a p j
  answered-Completes c r response p j (err (agent_error e)) = give_up-Completes c r e p j
  answered-Completes c r response p j (err e) = foreign tt

  respond-Completes :
      (c : ToolCall) (r : Reply) (p : Progress) (j : Journal) (x : Response)
      → Completes c r p j (respond py digest catalog run_id c r p x j)
  respond-Completes c r p j (ok response) =
      answered-Completes c r response p j (accept py catalog c response)
  respond-Completes c r p j (err (agent_error e)) = give_up-Completes c r e p j
  respond-Completes c r p j (err e) = foreign tt

  -- The two events of a call.
  abbrev pair_of : ToolCall → ToolStatus → ℕ → List Emission
  pair_of c status ms =
      started c.tool_call_id c.tool_name ∷ completed c.tool_call_id c.tool_name status ms ∷ []

  abbrev pub RunsOne : ToolCall → Reply → Progress → Journal → Result Progress × Journal → Type 0
  RunsOne c r p j (ok q, k) =
      (status : ToolStatus) × (ms : ℕ) × (k.emitted ≡ j.emitted ++ pair_of c status ms)
      × Counted 1 p q
  RunsOne c r p j (err e, k) = Breaks c r e

  started_first :
      (c : ToolCall) (r : Reply) (p : Progress) (j k : Journal) (x : Result Progress × Journal)
      → k.emitted ≡ j.emitted ++ started c.tool_call_id c.tool_name ∷ []
      → Completes c r p k x
      → RunsOne c r p j x
  started_first c r p j k (ok q, l) e (status, ms, f, h) =
      (status, ms, f ∙ rw (e, append_assoc) refl, h)
  started_first c r p j k (err e, l) eq h = h

  run_started :
      (c : ToolCall) (r : Reply) (p : Progress) (j : Journal) (x : Result (Unit {0}) × Db)
      → ((e : Exception) → x.0 ≡ err e → Breaks c r e)
      → RunsOne c r p j (
          continue
            (continue (stored j x) (λ _. emit (started c.tool_call_id c.tool_name)))
            (λ _. respond py digest catalog run_id c r p r.response))
  run_started c r p j (ok u, db) b =
      let k : Journal = record {
        db = db;
        emitted = j.emitted ++ started c.tool_call_id c.tool_name ∷ [];
      } in
      started_first c r p j k _ refl (respond-Completes c r p k r.response)
  run_started c r p j (err e, db) b = b e refl

  run_call-RunsOne :
      (c : ToolCall) (r : Reply) (p : Progress) (j : Journal)
      → RunsOne c r p j (run_call py digest catalog run_id c r p j)
  unfolding run_call
  run_call-RunsOne c r p j = run_started c r p j _ (λ e eq. unrecorded j.db eq)

  then_rest :
      (c : ToolCall) (x : Reply) (rest : List (ToolCall × Reply)) (status : ToolStatus) (ms : ℕ)
      (p q : Progress) (j k : Journal) (y : Result Progress × Journal)
      → k.emitted ≡ j.emitted ++ pair_of c status ms
      → Counted 1 p q
      → Runs rest q k y
      → Runs ((c, x) ∷ rest) p j y
  then_rest c x rest status ms p q j k (ok r, l) e h (es, f, paired, g) = (
    pair_of c status ms ++ es,
    f ∙ rw (e, append_assoc) refl,
    ((refl, refl, refl, refl), paired),
    record {
      aligned = omega (arith, h.aligned, g.aligned);
      accounted = omega (arith, h.accounted, g.accounted);
    },
  )
  then_rest c x rest status ms p q j k (err e, l) eq h g = inr g

  run_rest :
      (c : ToolCall) (r : Reply) (rest : List (ToolCall × Reply)) (p : Progress) (j : Journal)
      (x : Result Progress × Journal) (f : Progress → M Progress)
      → RunsOne c r p j x
      → ((q : Progress) (k : Journal) → Runs rest q k (f q k))
      → Runs ((c, r) ∷ rest) p j (continue x f)
  run_rest c r rest p j (ok q, k) f (status, ms, e, h) g =
      then_rest c r rest status ms p q j k (f q k) e h (g q k)
  run_rest c r rest p j (err e, k) f one g = inl one

-- For every call of the plan in turn, `tool.started` is sent and then `tool.completed`, with the same
-- id and name; then as many outputs are kept as calls have succeeded, and every call has either
-- succeeded or left a warning. The node ends before only by an exception of one of the calls that
-- is no `AgentError`, or comes of recording its start or of reading a number in its response: an
-- error that a tool answers with does not end it.
pub run_calls-Runs :
    (py : Numbers) (digest : Json → String) (catalog : Catalog) (run_id : String)
    (plan : List (ToolCall × Reply)) (p : Progress) (j : Journal)
    → Runs py digest catalog run_id plan p j (run_calls py digest catalog run_id plan p j)
unfolding run_calls
run_calls-Runs py digest catalog run_id [] p j =
    ([], sym (append-nil j.emitted), tt, record { aligned = omega arith; accounted = omega arith })
run_calls-Runs py digest catalog run_id ((c, r) ∷ rest) p j =
    run_rest py digest catalog run_id c r rest p j _ _
      (run_call-RunsOne py digest catalog run_id c r p j)
      (λ q k. run_calls-Runs py digest catalog run_id rest q k)
