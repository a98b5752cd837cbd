-- ===== src/Workflow/Answering.antt =====
-- app/agent/workflow.py: `concise_map_result_answer` and the node `compose_answer`. The answer of the language
-- model, which `complete_json` has checked by `GROUNDED_ANSWER_SCHEMA`, is a parameter.
pub mod Cited
mod Examples
use Prim.Native.String.{◌++◌ as cat}
use yjdlagent.Prelude.{
  ◌+◌, ◌-◌, ℕ, suc, Bool, true, false, not, Option, none, some, List, [], ◌∷◌, ◌++◌, String, ltb,
  ◌==◌, ◌&&◌, ◌||◌, str_eq, if◌then◌else◌,
}
use yjdlagent.Json.{Json, Fields, bool, num, text, arr, obj, nil, end, field, get_field, truthy}
use yjdlagent.Errors.{Result, ok, err}
use yjdlagent.Python.{
  ℤ, pos, negsuc, Numbers, ◌>>=◌, get_of, or_default, iterate, int_of, text_of, dedupe,
}
use yjdlagent.Text.{starts_with}
use yjdlagent.Workflow.Results.{int_text, is_true}
use yjdlagent.Workflow.Summary.{result_sets_of}
use yjdlagent.Workflow.Routing.{Intent, map_query, rag_qa, hybrid, clarify, conversation}

infixl 65 ◌plus◌
abbrev pub ◌plus◌ : ℤ → ℤ → ℤ
pos a plus pos b = pos (a + b)
negsuc a plus negsuc b = negsuc (a + b + 1)
pos a plus negsuc b = if ltb b a then pos (a - b - 1) else negsuc (b - a)
negsuc a plus pos b = if ltb a b then pos (b - a - 1) else negsuc (a - b)

abbrev is_nonzero : ℤ → Bool
is_nonzero (pos n) = not (n == 0)
is_nonzero (negsuc n) = true

-- value == text
abbrev is_named : String → Option Json → Bool
is_named s (some (text t)) = str_eq t s
is_named s _ = false

module _ (py : Numbers) where
  abbrev returned_of : Json → Result ℤ
  returned_of item = get_of "returned" item >>= λ n. int_of py (or_default (num 0) n)

  -- the sum over the sets that a test takes
  unfoldable pub sum_where : (Json → Result Bool) → List Json → Result ℤ
  unfolding get_of
  sum_where test [] = ok (pos 0)
  sum_where test (x ∷ xs) = test x >>= λ taken.
      (if taken then returned_of x else ok (pos 0)) >>= λ n.
      sum_where test xs >>= λ m. ok (n plus m)

  abbrev has_role : String → Json → Result Bool
  has_role role item = get_of "role" item >>= λ r. ok (is_named role r)

  -- "geometryType" is read only of an item with the role
  abbrev is_primary : String → Json → Result Bool
  is_primary geometry_type item = has_role "PRIMARY_RESULTS" item >>= λ primary.
      if primary
      then (get_of "geometryType" item >>= λ t. ok (is_named geometry_type t))
      else ok false

  unfoldable pub is_truncated : List Json → Result Bool
  unfolding get_of truthy
  is_truncated [] = ok false
  is_truncated (x ∷ xs) = get_of "exceededTransferLimit" x >>= λ exceeded.
      if is_true py exceeded then ok true else is_truncated xs

  abbrev qualifier : Bool → String
  qualifier truncated = if truncated then "当前显示前" else "已找到"

  abbrev sentence : String → Bool → ℤ → String → String
  sentence start truncated n rest =
      cat start (cat (qualifier truncated) (cat " " (cat (int_text py n) rest)))

  abbrev housing_sentence : Bool → ℤ → ℤ → String
  housing_sentence truncated houses roads =
      cat (sentence "查询完成：" truncated houses " 个符合条件的候选小区，已显示在地图和左侧结果中。")
        (if is_nonzero roads then cat "同时显示 " (cat (int_text py roads) " 条相关道路。") else "")

  abbrev is_housing_query : Fields → Bool
  is_housing_query m =
      starts_with "housing-" (text_of py (or_default (text "") (get_field "queryId" m)))

  abbrev total_sentence : Fields → List Json → Result String
  total_sentence m sets =
      if is_housing_query m
      then ok "查询完成：暂未找到符合条件的候选小区，您可以在左侧调整筛选条件。"
      else (sum_where (λ x. ok true) sets >>= λ total.
          ok (cat "查询完成：共显示 " (cat (int_text py total) " 个相关地图要素。")))

  abbrev describe : Fields → List Json → ℤ → ℤ → ℤ → ℤ → Bool → Result String
  describe m sets houses points lines roads truncated =
      if is_nonzero houses
      then ok (housing_sentence truncated houses roads)
      else if is_nonzero points && not (is_nonzero lines)
      then ok (sentence "查询完成：" truncated points " 个符合条件的住宅点位，已显示在地图和左侧结果中。")
      else if is_nonzero lines && not (is_nonzero points)
      then ok (sentence "查询完成：" truncated lines " 条符合条件的道路，已显示在地图上。")
      else total_sentence m sets

  unfoldable pub concise_map_result_answer : Fields → Result String
  unfolding result_sets_of sum_where is_truncated get_field starts_with
  concise_map_result_answer m = iterate (result_sets_of m) >>= λ sets.
      sum_where (has_role "HOUSING_CANDIDATES") sets >>= λ houses.
      sum_where (is_primary "point") sets >>= λ points.
      sum_where (is_primary "polyline") sets >>= λ lines.
      sum_where (has_role "CONTRIBUTING_ROADS") sets >>= λ roads.
      is_truncated sets >>= describe m sets houses points lines roads

-- A citation, with the ordinal that an answer names it by.
pub record Citation : Type 0 where
  pub ordinal : ℕ
  pub rest : Fields

-- What `compose_answer` reads of the state; `none` stands for a missing map result, `end` for an empty dict.
pub record Evidence : Type 0 where
  pub intent : Intent
  pub conversation_response : String
  pub clarification_reason : String
  pub retrieval_results : List Json
  pub map_result : Option Fields
  pub map_summary : Option Fields
  pub citations : List Citation
  pub warnings : List String

-- What the model answers, by its schema.
pub record GroundedAnswer : Type 0 where
  pub supported : Bool
  pub answer : String
  pub citation_ordinals : List ℕ

-- The update; `none` stands for a missing key.
pub record Composed : Type 0 where
  pub answer : String
  pub citations : List Citation
  pub warnings : Option (List String)
  pub model_operation : Option String

abbrev pub non_empty : Option Fields → Option Fields
non_empty (some (field k v fs)) = some (field k v fs)
non_empty _ = none

-- a or b
abbrev pub either : Option Fields → Option Fields → Option Fields
either (some m) stored = some m
either none stored = stored

-- `map_result or stored_map_summary`
abbrev pub map_evidence : Evidence → Option Fields
map_evidence s = either (non_empty s.map_result) s.map_summary

abbrev pub missing : Option Fields → Bool
missing none = true
missing (some fs) = false

abbrev pub is_empty : {A : Type 0} → List A → Bool
is_empty [] = true
is_empty (x ∷ xs) = false

-- `evidence.get("resultSets") or evidence.get("resultCounts")`
abbrev pub has_sets : Option Fields → Bool
has_sets none = false
has_sets (some fs) =
    truthy (or_default (bool false) (get_field "resultSets" fs))
    || truthy (or_default (bool false) (get_field "resultCounts" fs))

abbrev pub is_cited : ℕ → List ℕ → Bool
is_cited n [] = false
is_cited n (m ∷ ms) = if m == n then true else is_cited n ms

abbrev pub cited : List ℕ → List Citation → List Citation
cited ordinals [] = []
cited ordinals (c ∷ cs) =
    if is_cited c.ordinal ordinals then c ∷ cited ordinals cs else cited ordinals cs

abbrev pub degraded : List String → List String
degraded warnings = dedupe (warnings ++ "ANSWER_GENERATION_DEGRADED" ∷ [])

abbrev pub plain_answer : Evidence → String → Composed
plain_answer s answer = record {
  answer = answer;
  citations = [];
  warnings = some s.warnings;
  model_operation = none;
}

abbrev pub default_clarification : String
default_clarification = "为了帮您查得更准确，请您补充一项信息：想查的区域、对象（住宅或道路）或具体指标。比如，您可以说“查询中山区房价在 2 万元以内的住宅”。"

abbrev pub no_evidence : String
no_evidence = "这次暂时没有找到足够可靠的资料或地图结果。为了避免给您不准确的回答，我先不下结论。您可以告诉我想查的区域或更具体的条件，我再帮您找一找。"

abbrev pub not_supported : String
not_supported = "这次资料和地图结果还不足以支持一个可靠结论。为了不误导您，我先不作判断。您可以换一种更具体的说法，或告诉我最想了解哪一项，我再继续帮您查。"

module _ (py : Numbers) where
  abbrev pub with_map : Evidence → Option Fields → Result Composed
  with_map s (some m) =
      if has_sets (some m)
      then (concise_map_result_answer py m >>= λ answer.
          ok (record (plain_answer s answer) { warnings = some (degraded s.warnings) }))
      else ok (record (plain_answer s not_supported) { warnings = none })
  with_map s none = ok (record (plain_answer s not_supported) { warnings = none })

  abbrev pub from_model : Evidence → GroundedAnswer → Result Composed
  from_model s m =
      if m.supported
      then ok (record {
        answer = m.answer;
        citations = cited m.citation_ordinals s.citations;
        warnings = none;
        model_operation = some "answer";
      })
      else with_map s (non_empty s.map_result)

  abbrev pub ask : Evidence → (Evidence → Result GroundedAnswer) → Result Composed
  ask s model = model s >>= from_model s

  -- a map query with a map result that is not empty needs no model
  abbrev pub answer_of :
      Evidence → (Evidence → Result GroundedAnswer) → Intent → Option Fields → Result Composed
  answer_of s model map_query (some m) =
      concise_map_result_answer py m >>= λ answer. ok (plain_answer s answer)
  answer_of s model intent _ = ask s model

  abbrev pub compose_from : Evidence → (Evidence → Result GroundedAnswer) → Intent → Result Composed
  compose_from s model conversation = ok (plain_answer s s.conversation_response)
  compose_from s model clarify = ok (
      plain_answer s (
        if str_eq s.clarification_reason "" then default_clarification else s.clarification_reason))
  compose_from s model intent =
      if is_empty s.retrieval_results && missing (map_evidence s)
      then ok (plain_answer s no_evidence)
      else answer_of s model intent (non_empty (map_evidence s))

  unfoldable pub compose_answer : (Evidence → Result GroundedAnswer) → Evidence → Result Composed
  unfolding concise_map_result_answer get_field truthy
  compose_answer model s = compose_from s model s.intent
