-- ===== src/Workflow/Planning/Budget.antt =====
-- app/agent/workflow.py, `plan_map`: the calls of a plan, and how many records they ask for.
use native.Mathlib.Nat.{mul-div-le, suc-mul, mul-one}
use yjdlagent.Prelude.{
  ◌∙◌, ℕ, suc, ◌+◌, ◌*◌, ◌/◌, ◌≤◌, ◌≡◌, refl, min, max, Bool, true, false, Option, none, some, List,
  [], ◌∷◌, String, arith, length, leb, Bool-cases, inl, inr, str_eq, eq_iff, if◌then◌else◌,
}
use yjdlagent.Json.{Json, Fields, bool, num, end, field, get_field}
use yjdlagent.Python.{Ensures, Ensures-map, Ensures-bind, str_eq-sym}
use yjdlagent.Tools.{put_field}
use yjdlagent.Workflow.Results.{ToolCall}
use yjdlagent.Workflow.Planning.{
  PlannedCall, drop_field, arguments_within, plan_call, plan_calls, budget_of, plan_map,
}

put-get :
    (j k : String) (v : Json) (fs : Fields)
    → get_field j (put_field k v fs) ≡ (if str_eq k j then some v else get_field j fs)
unfolding put_field get_field
put-get j k v end = refl
put-get j k v (field l w fs) = elim (Bool-cases (str_eq l k)) [
  | inl e ↦
      let same : l ≡ k = (eq_iff l k).0 e in
      rw (e, same) (elim (Bool-cases (str_eq k j)) [ inl f ↦ rw f refl | inr f ↦ rw f refl ])
  | inr e ↦ elim (Bool-cases (str_eq l j)) [
    | inl f ↦
        let same : l ≡ j = (eq_iff l j).0 f in
        let other : str_eq k j ≡ false = str_eq-sym k j (rw same at e) in rw (e, other, f) refl
    | inr f ↦ rw (e, f) (put-get j k v fs)
  ]
]

drop-get : (k : String) (fs : Fields) → get_field k (drop_field k fs) ≡ none
unfolding drop_field get_field
drop-get k end = refl
drop-get k (field l w fs) = elim (Bool-cases (str_eq l k)) [
  | inl e ↦ rw e (drop-get k fs)
  | inr e ↦ rw (e, e) (drop-get k fs)
]

-- the number of records that a call asks for
abbrev pub records_of : ToolCall → Option Json
records_of call = get_field "resultRecordCount" call.arguments

-- A call as it was planned, within a budget.
pub record IsPlanned (budget : ℕ) (planned : PlannedCall) (call : ToolCall) : Type 0 where
  pub named : call.tool_name ≡ planned.tool_name
  pub with_geometry : get_field "returnGeometry" call.arguments ≡ some (bool true)
  pub all_fields : get_field "outFields" call.arguments ≡ none
  pub limited : records_of call ≡ some (num (min planned.record_count budget))

abbrev pub ArePlanned : ℕ → List PlannedCall → List ToolCall → Type 0
ArePlanned budget [] [] = Unit
ArePlanned budget [] (c ∷ cs) = ⊥
ArePlanned budget (p ∷ ps) [] = ⊥
ArePlanned budget (p ∷ ps) (c ∷ cs) = IsPlanned budget p c × ArePlanned budget ps cs

abbrev count_of : Option Json → ℕ
count_of (some (num n)) = n
count_of _ = 0

-- how many records the calls ask for together
abbrev pub total_records : List ToolCall → ℕ
total_records [] = 0
total_records (c ∷ cs) = count_of (records_of c) + total_records cs

total_records-bound :
    (budget : ℕ) (ps : List PlannedCall) (cs : List ToolCall)
    → ArePlanned budget ps cs
    → total_records cs ≤ length ps * budget
total_records-bound budget [] [] h = omega arith
total_records-bound budget [] (c ∷ cs) h = absurd h
total_records-bound budget (p ∷ ps) [] h = absurd h
total_records-bound budget (p ∷ ps) (c ∷ cs) (h, hs) =
    let here : count_of (records_of c) ≤ budget = rw h.limited (omega arith) in
    let rest = total_records-bound budget ps cs hs in
    omega (arith, here, rest, suc-mul (length ps) budget)

budget-bound :
    (limit : ℕ) (ps : List PlannedCall) → length ps * budget_of limit ps ≤ max limit (length ps)
budget-bound limit ps =
    let n = length ps in
    elim (Bool-cases (leb (limit / n) 1)) [
      | inl e ↦
          let small : max 1 (limit / n) ≡ 1 = ground arith in rw small (omega (arith, mul-one n))
      | inr e ↦
          let large : max 1 (limit / n) ≡ limit / n = ground arith in
          rw large (omega (arith, mul-div-le limit n))
    ]

module _ (has_tool : String → Bool) (accepts : String → Fields → Bool)
    (tool_call_id : ℕ → String → String) where
  plan_call-IsPlanned :
      (budget ordinal : ℕ) (p : PlannedCall)
      → Ensures (IsPlanned budget p) (plan_call has_tool accepts tool_call_id budget ordinal p)
  unfolding plan_call arguments_within
  plan_call-IsPlanned budget ordinal p = elim (Bool-cases (has_tool p.tool_name)) [
    | inr e ↦ rw e tt
    | inl e ↦ elim (Bool-cases (accepts p.tool_name (arguments_within budget p))) [
      | inr f ↦ rw (e, f) tt
      | inl f ↦
          let fs = drop_field "outFields" p.arguments in
          let gs = put_field "returnGeometry" (bool true) fs in
          let count = num (min p.record_count budget) in
          rw (e, f)
            (record {
              named = refl;
              with_geometry =
                  put-get "returnGeometry" "resultRecordCount" count gs
                  ∙ put-get "returnGeometry" "returnGeometry" (bool true) fs;
              all_fields =
                  put-get "outFields" "resultRecordCount" count gs
                  ∙ put-get "outFields" "returnGeometry" (bool true) fs
                  ∙ drop-get "outFields" p.arguments;
              limited = put-get "resultRecordCount" "resultRecordCount" count gs;
            })
    ]
  ]

  plan_calls-ArePlanned :
      (budget ordinal : ℕ) (ps : List PlannedCall)
      → Ensures (ArePlanned budget ps) (plan_calls has_tool accepts tool_call_id budget ordinal ps)
  unfolding plan_calls
  plan_calls-ArePlanned budget ordinal [] = tt
  plan_calls-ArePlanned budget ordinal (p ∷ ps) =
      Ensures-bind (IsPlanned budget p) (ArePlanned budget (p ∷ ps))
        (plan_call has_tool accepts tool_call_id budget ordinal p) _
        (plan_call-IsPlanned budget ordinal p)
        (λ c h.
          Ensures-bind (ArePlanned budget ps) (ArePlanned budget (p ∷ ps))
            (plan_calls has_tool accepts tool_call_id budget (suc ordinal) ps) _
            (plan_calls-ArePlanned budget (suc ordinal) ps) (λ cs hs. (h, hs)))

  -- A plan that is accepted has the planned calls, in order, each with geometry, all fields and at
  -- most the number of records that was planned; together they ask for at most `map_result_limit`
  -- records, or for one each where there are more calls than that.
  pub plan_map-ArePlanned :
      (limit : ℕ) (ps : List PlannedCall)
      → Ensures
          (λ cs. ArePlanned (budget_of limit ps) ps cs × (total_records cs ≤ max limit (length ps)))
          (plan_map has_tool accepts tool_call_id limit ps)
  unfolding plan_map
  plan_map-ArePlanned limit ps =
      let budget = budget_of limit ps in
      Ensures-map (ArePlanned budget ps)
        (λ cs. ArePlanned budget ps cs × (total_records cs ≤ max limit (length ps)))
        (plan_calls has_tool accepts tool_call_id budget 0 ps)
        (λ cs h. (h, omega (arith, total_records-bound budget ps cs h, budget-bound limit ps)))
        (plan_calls-ArePlanned budget 0 ps)
