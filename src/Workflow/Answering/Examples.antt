-- ===== src/Workflow/Answering/Examples.antt =====
-- Answers to a map query, and to a question without evidence.
use yjdlagent.Python.Samples.{digits}
use yjdlagent.Prelude.{◌≡◌, refl, true, some, [], ◌∷◌}
use yjdlagent.Json.{Fields, num, text, dict, arr, cons, nil, end, fields}
use yjdlagent.Errors.{Result, ok}
use yjdlagent.Python.{Ensures}
use yjdlagent.Workflow.Routing.{rag_qa}
use yjdlagent.Workflow.Answering.{
  Citation, Evidence, GroundedAnswer, concise_map_result_answer, compose_answer,
}
use yjdlagent.Workflow.Answering.Cited.{IsComposed, compose_answer-IsComposed}

abbrev seven_roads : Fields
seven_roads = fields (
    ("queryId", text "q")
    ∷ (
      "resultSets",
      arr (
          cons
            (dict (
              ("role", text "PRIMARY_RESULTS")
              ∷ ("geometryType", text "polyline")
              ∷ ("returned", num 7)
              ∷ []))
            nil),
    )
    ∷ [])

roads : concise_map_result_answer digits seven_roads ≡ ok "查询完成：已找到 7 条符合条件的道路，已显示在地图上。"
unfolding concise_map_result_answer
roads = refl

abbrev source : Citation
source = record { ordinal = 1; rest = end }

-- as `route_intent` and a search without results leave the state
abbrev bare : Evidence
bare = record {
  intent = rag_qa;
  conversation_response = "";
  clarification_reason = "";
  retrieval_results = [];
  map_result = some end;
  map_summary = some end;
  citations = [];
  warnings = [];
}

abbrev sure : GroundedAnswer
sure = record { supported = true; answer = "是"; citation_ordinals = 1 ∷ [] }

abbrev agrees : Evidence → Result GroundedAnswer
agrees s = ok sure

compose_answer-IsComposed_example :
    Ensures
      (IsComposed agrees (record bare { citations = source ∷ [] }))
      (compose_answer digits agrees (record bare { citations = source ∷ [] }))
compose_answer-IsComposed_example =
    compose_answer-IsComposed digits agrees (record bare { citations = source ∷ [] })
