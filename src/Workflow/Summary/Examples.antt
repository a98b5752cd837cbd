-- ===== src/Workflow/Summary/Examples.antt =====
-- The summary of a map result with one set and a value that is none.
use yjdlagent.Prelude.{◌≡◌, refl, false, some, [], ◌∷◌}
use yjdlagent.Json.{Json, Fields, null, bool, num, text, arr, items, fields, dict}
use yjdlagent.Errors.{ok}
use yjdlagent.Workflow.Summary.{summarize_map_result, Settled, summarize_map_result-Settled}

abbrev map_result : Json
map_result = dict (
    ("queryId", text "q1")
    ∷ (
      "resultSets",
      arr (
          items (
            dict (
              ("role", text "PRIMARY_RESULTS")
              ∷ ("layerId", num 3)
              ∷ ("total", num 7)
              ∷ ("features", arr (items (dict [] ∷ [])))
              ∷ [])
            ∷ num 1
            ∷ [])),
    )
    ∷ ("warnings", arr (items (text "w" ∷ [])))
    ∷ [])

abbrev map_summary : Fields
map_summary = fields (
    ("queryId", text "q1")
    ∷ ("querySummary", null)
    ∷ ("appliedFilters", arr (items []))
    ∷ (
      "resultCounts",
      arr (
          items (
            dict (
              ("role", text "PRIMARY_RESULTS")
              ∷ ("layerId", num 3)
              ∷ ("layerName", null)
              ∷ ("geometryType", null)
              ∷ ("total", num 7)
              ∷ ("returned", num 0)
              ∷ ("exceededTransferLimit", bool false)
              ∷ [])
            ∷ [])),
    )
    ∷ ("warnings", arr (items (text "w" ∷ [])))
    ∷ [])

summarizes : summarize_map_result map_result ≡ ok (some map_summary)
unfolding summarize_map_result
summarizes = refl

summarize_map_result-Settled_example : Settled (summarize_map_result map_result)
summarize_map_result-Settled_example = summarize_map_result-Settled map_result
