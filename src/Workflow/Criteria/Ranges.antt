-- ===== src/Workflow/Criteria/Ranges.antt =====
-- app/agent/workflow.py, `explicit_road_criteria`: what a threshold has.
use yjdlagent.Prelude.{
  ◌≡◌, refl, true, false, Option, none, some, List, [], ◌∷◌, ◌++◌, String, All, Bool-cases, inl,
  inr,
}
use yjdlagent.Json.{Json}
use yjdlagent.Python.{Ensures, Ensures-bind}
use yjdlagent.Text.Editing.{replace}
use yjdlagent.Workflow.Phrases.{Language, value_of}
use yjdlagent.Workflow.Criteria.{
  Metric, ws_min, gvi_min, noi_max, pattern_of, is_unsupported, in_range, criterion, criterion_of,
  criteria_of, explicit_road_criteria,
}

-- A threshold is a number that the pattern of its metric finds in the query.
pub record IsCriterion (py : Language) (query : String) (c : Metric × Json) : Type 0 where
  pub found : String → String
  pub stands : py.search (pattern_of c.0) true query ≡ some found
  pub supported : is_unsupported c.0 (replace " " "" (found "operator")) ≡ false
  pub within : in_range py c.0 (py.float (found "value")) ≡ true
  pub number : c.1 ≡ value_of py (py.float (found "value"))

-- The metrics of the thresholds, in this order.
pub data Within : List Metric → List (Metric × Json) → Type 0 where
  done : Within [] []
  skip :
      {m : Metric} {ms : List Metric} {cs : List (Metric × Json)}
      → Within ms cs
      → Within (m ∷ ms) cs
  take :
      {m : Metric} {ms : List Metric} {cs : List (Metric × Json)} (v : Json)
      → Within ms cs
      → Within (m ∷ ms) ((m, v) ∷ cs)

module _ (py : Language) (query : String) where
  abbrev pub AreCriteria : List Metric → List (Metric × Json) → Type 0
  AreCriteria ms cs = All (IsCriterion py query) cs × Within ms cs

  -- Thresholds of later metrics may follow.
  abbrev Adds : Metric → List (Metric × Json) → Type 0
  Adds m found =
      (ms : List Metric) (cs : List (Metric × Json))
      → AreCriteria ms cs
      → AreCriteria (m ∷ ms) (found ++ cs)

  criterion_of-Adds :
      (m : Metric) (found : Option (String → String))
      → py.search (pattern_of m) true query ≡ found
      → Ensures (Adds m) (criterion_of py m found)
  unfolding criterion
  criterion_of-Adds m none e = λ ms cs h. (h.0, skip h.1)
  criterion_of-Adds m (some found) e =
      elim (Bool-cases (is_unsupported m (replace " " "" (found "operator")))) [
        | inl f ↦ rw f tt
        | inr f ↦ elim (Bool-cases (in_range py m (py.float (found "value")))) [
          | inl g ↦
              rw (f, g)
                (λ ms cs h. (
                  (
                    record { found = found; stands = e; supported = f; within = g; number = refl },
                    h.0,
                  ),
                  take _ h.1,
                ))
          | inr g ↦ rw (f, g) tt
        ]
      ]

  criteria_of-AreCriteria : (ms : List Metric) → Ensures (AreCriteria ms) (criteria_of py query ms)
  unfolding criteria_of
  criteria_of-AreCriteria [] = (tt, done)
  criteria_of-AreCriteria (m ∷ ms) =
      Ensures-bind (Adds m) (AreCriteria (m ∷ ms))
        (criterion_of py m (py.search (pattern_of m) true query)) _
        (criterion_of-Adds m (py.search (pattern_of m) true query) refl)
        (λ found adds.
          Ensures-bind (AreCriteria ms) (AreCriteria (m ∷ ms)) (criteria_of py query ms) _
            (criteria_of-AreCriteria ms) (λ cs h. adds ms cs h))

  -- Every threshold that `explicit_road_criteria` gives is a number that the pattern of its metric finds in the query, lies in the range of the metric, and does not come with an operator that the code takes for the other bound; no metric occurs twice, and they stand in the order of the table.
  pub explicit_road_criteria-AreCriteria :
      Ensures (AreCriteria (ws_min ∷ gvi_min ∷ noi_max ∷ [])) (explicit_road_criteria py query)
  unfolding explicit_road_criteria
  explicit_road_criteria-AreCriteria = criteria_of-AreCriteria (ws_min ∷ gvi_min ∷ noi_max ∷ [])
