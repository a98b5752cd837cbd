-- ===== src/Workflow/HousingMap/Examples.antt =====
-- A housing search with one candidate and one road.
use yjdlagent.Python.Samples.{digits}
use yjdlagent.Prelude.{◌≡◌, refl, none, [], ◌∷◌, List, String}
use yjdlagent.Json.{Json, Fields, num, text, dict, arr, cons, nil, fields}
use yjdlagent.Errors.{ok}
use yjdlagent.Python.{◌>>=◌, Ensures}
use yjdlagent.Workflow.HousingMap.{ShownSet, build_housing_search_map_result}
use yjdlagent.Workflow.HousingMap.Counted.{
  IsHousingMap, build_housing_search_map_result-IsHousingMap,
}

abbrev here : Json
here = arr (cons (num 121) (cons (num 38) nil))

abbrev wgs84 : String × Json
wgs84 = ("spatialReference", dict (("wkid", num 4326) ∷ []))

abbrev answer : Fields
answer = fields (
    (
      "housingCandidates",
      arr (
          cons
            (dict (
              ("layerId", num 3)
              ∷ ("housingId", text "h")
              ∷ ("geometry", dict (("x", num 121) ∷ ("y", num 38) ∷ wgs84 ∷ []))
              ∷ []))
            nil),
    )
    ∷ (
      "roadFeatures",
      arr (
          cons
            (dict (
              ("layerId", num 1)
              ∷ ("roadId", text "r")
              ∷ (
                "geometry",
                dict (("paths", arr (cons (arr (cons here (cons here nil))) nil)) ∷ wgs84 ∷ []),
              )
              ∷ []))
            nil),
    )
    ∷ [])

abbrev names_of : List ShownSet → List String
names_of [] = []
names_of (s ∷ ss) = s.layer_name ∷ names_of ss

two_sets :
    (build_housing_search_map_result digits (λ s. none) "c1" answer >>= λ m.
    ok (names_of m.result_sets))
    ≡ ok ("ZhongShan" ∷ "xigang_1" ∷ [])
unfolding build_housing_search_map_result
two_sets = refl

build_housing_search_map_result-IsHousingMap_example :
    Ensures
      (IsHousingMap digits (λ s. none) answer)
      (build_housing_search_map_result digits (λ s. none) "c1" answer)
build_housing_search_map_result-IsHousingMap_example =
    build_housing_search_map_result-IsHousingMap digits (λ s. none) "c1" answer
