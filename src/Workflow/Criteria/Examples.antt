-- ===== src/Workflow/Criteria/Examples.antt =====
-- A threshold of WS in a query.
use yjdlagent.Prelude.{◌≡◌, refl, true, false, none, some, [], ◌∷◌, String, str_eq, if◌then◌else◌}
use yjdlagent.Json.{num}
use yjdlagent.Errors.{ok}
use yjdlagent.Python.{Ensures}
use yjdlagent.Workflow.Phrases.{Language, ws_min_re}
use yjdlagent.Workflow.Criteria.{ws_min, gvi_min, noi_max, explicit_road_criteria}
use yjdlagent.Workflow.Criteria.Ranges.{AreCriteria, explicit_road_criteria-AreCriteria}

-- the groups of WS>=60, and of WS<60
abbrev groups : String → String → String
groups operator name = if str_eq name "operator" then operator else "60"

-- Every query has a threshold of WS with this operator, and no other one.
abbrev walkable : String → Language
walkable operator = record {
  lower = λ s. s;
  is_digit = λ c. false;
  search = λ p i s. if str_eq p ws_min_re then some (groups operator) else none;
  find_all = λ p i s. [];
  substitute = λ p i r s. s;
  float = λ s. s;
  times = λ s n. s;
  as_int = λ s. some 60;
  le = λ a b. true;
}

at_least : explicit_road_criteria (walkable ">=") "WS>=60" ≡ ok ((ws_min, num 60) ∷ [])
unfolding explicit_road_criteria
at_least = refl

-- An upper bound with < is taken for a lower one.
below : explicit_road_criteria (walkable "<") "WS<60" ≡ ok ((ws_min, num 60) ∷ [])
unfolding explicit_road_criteria
below = refl

explicit_road_criteria-AreCriteria_example :
    Ensures
      (AreCriteria (walkable ">=") "WS>=60" (ws_min ∷ gvi_min ∷ noi_max ∷ []))
      (explicit_road_criteria (walkable ">=") "WS>=60")
explicit_road_criteria-AreCriteria_example =
    explicit_road_criteria-AreCriteria (walkable ">=") "WS>=60"
