-- ===== src/Workflow/Queries.antt =====
-- app/agent/workflow.py: the tests that `route_intent` makes of a query, and `normalize_user_query`.
use Prim.Native.Char.{code}
use yjdlagent.Prelude.{
  Bool, true, false, not, Option, none, some, is_some, List, [], ◌∷◌, ◌++◌, String, ◌&&◌, ◌||◌,
  if◌then◌else◌,
}
use yjdlagent.Table.{any}
use yjdlagent.Text.{is_in}
use yjdlagent.Text.Editing.{replace}
use yjdlagent.Capabilities.{
  housing_aliases, road_aliases, road_only_metric_terms, district_names, knowledge_request_terms,
  any_in, any_lower_in, is_knowledge_request,
}
use yjdlagent.Conversation.Followup.{Audit}
use yjdlagent.Workflow.Phrases.{Language, buffer_distance_re, explicit_price_max}

-- a change of a text, and what is noted of it
abbrev pub normalized_by :
    String → String → String → String → String × List Audit → String × List Audit
normalized_by kind source noted target (query, audit) =
    if is_in source query
    then (
      replace source target query,
      audit ++ record { kind = kind; before = source; after = noted } ∷ [],
    )
    else (query, audit)

abbrev price_normalized : String × List Audit → String × List Audit
price_normalized (query, audit) =
    if is_in "一万五" query
    then (
      replace "一万五" "1.5万" (replace "一万五千" "1.5万" query),
      audit ++ record { kind = "colloquial_price"; before = "一万五"; after = "1.5万" } ∷ [],
    )
    else (query, audit)

abbrev variant : String → String → String × List Audit → String × List Audit
variant source target = normalized_by "variant" source target target

unfoldable pub normalize_user_query : String → String × List Audit
unfolding is_in replace
normalize_user_query query = price_normalized (
    normalized_by "colloquial_distance" "百来米" "100米" "100米" (
      variant "步行指教" "步行指数" (
        variant "步行指树" "步行指数"
          (variant "沙河口去" "沙河口区" (variant "西岗去" "西岗区" (variant "中山去" "中山区" (query, [])))))))

abbrev has_digit : Language → String → Bool
has_digit py String.[] = false
has_digit py (String.◌∷◌ c s) = if py.is_digit (code c) then true else has_digit py s

abbrev map_action_terms : List String
map_action_terms = "筛选" ∷ "查询" ∷ "查找" ∷ "找出" ∷ "显示" ∷ "定位" ∷ "有哪些" ∷ []

abbrev point_filter_terms : List String
point_filter_terms = "房价" ∷ "覆盖度评分" ∷ []

abbrev comparison_terms : List String
comparison_terms = "高于" ∷ "低于" ∷ "不高于" ∷ "不低于" ∷ "大于" ∷ "小于" ∷ "等于" ∷ "<=" ∷ ">=" ∷ "=" ∷ []

module _ (py : Language) where
  abbrev lower_in : List String → String → Bool
  lower_in terms query = any_lower_in py.lower terms (py.lower query)

  unfoldable pub is_frozen_point_map_query : String → Bool
  unfolding any is_in
  is_frozen_point_map_query query =
      any_in district_names query
      && lower_in housing_aliases query
      && lower_in map_action_terms query
      && lower_in point_filter_terms query
      && (lower_in comparison_terms query || has_digit py query)
      && not (lower_in knowledge_request_terms query)

  unfoldable pub is_explicit_road_map_query : String → Bool
  unfolding any is_in
  is_explicit_road_map_query query =
      any_in district_names query
      && lower_in road_aliases query
      && lower_in map_action_terms query
      && any_in ("gvi" ∷ "noi" ∷ "ws" ∷ "shape_length" ∷ []) (py.lower query)
      && (lower_in comparison_terms query || has_digit py query)
      && not (lower_in knowledge_request_terms query)

  abbrev cross_layer_text : String
  cross_layer_text = "您提到的 GVI、NOI、WS归一化是道路指标，不能直接用来判断住宅。请告诉我：您想查住宅，还是想查道路？"

  unfoldable pub cross_layer_clarification : String → Option String
  unfolding is_knowledge_request any is_in
  cross_layer_clarification query =
      if is_knowledge_request py.lower query
      then none
      else if lower_in housing_aliases query && lower_in road_only_metric_terms query
      then some cross_layer_text
      else none

  -- the query means dwellings, by one of four cues
  unfoldable pub means_housing : String → Bool
  unfolding any is_in explicit_price_max
  means_housing query =
      let normalized = py.lower query in
      any_in housing_aliases normalized
      || any_in ("住得" ∷ "住的地方" ∷ "买得起" ∷ "合适住" ∷ "找个地方" ∷ []) normalized
        && any_in ("便利" ∷ "方便" ∷ "预算" ∷ "房价" ∷ "价格" ∷ "万" ∷ "中山区" ∷ "西岗区" ∷ "沙河口区" ∷ []) normalized
      || is_some (explicit_price_max py query)
        && any_in ("便利" ∷ "方便" ∷ "便宜" ∷ "步行" ∷ "路好走" ∷ []) normalized
      || not (any_in road_aliases normalized)
        && any_in ("便宜" ∷ "价格" ∷ "房价" ∷ "预算" ∷ []) normalized
        && any_in ("好走" ∷ "走路" ∷ "方便" ∷ "便利" ∷ "出门" ∷ "省心" ∷ []) normalized

  abbrev convenient_terms : List String
  convenient_terms = "方便" ∷ "住着方便" ∷ "生活方便" ∷ "买得起" ∷ "好走" ∷ "出门" ∷ "省心" ∷ []

  abbrev has_road_evidence : String → Bool
  has_road_evidence query =
      lower_in road_only_metric_terms query
      || any_in ("高 ws" ∷ "很高 ws" ∷ "较高 ws" ∷ "高步行" ∷ "步行指数高" ∷ "步行条件好" ∷ "道路步行" ∷ "步行条件" ∷ [])
          (py.lower query)

  abbrev has_spatial : String → Bool
  has_spatial query =
      any_in ("附近" ∷ "周边" ∷ "道路旁" ∷ "道路边" ∷ "道路周边" ∷ "范围内" ∷ "缓冲范围" ∷ "缓冲区" ∷ []) (py.lower query)
      || is_some (py.search buffer_distance_re true query)

  abbrev has_wish_for_housing : String → Bool
  has_wish_for_housing normalized =
      any_in ("便利" ∷ "价格尽量低" ∷ "房价尽量低" ∷ "便宜一点" ∷ "预算友好" ∷ "新步行" ∷ "好走" ∷ "出门" ∷ "省心" ∷ [])
        normalized
      || any_in convenient_terms normalized

  abbrev has_preference : String → Bool
  has_preference normalized =
      any_in
        ("高一点" ∷ "高一些" ∷ "尽量高" ∷ "高分" ∷ "很高" ∷ "较高" ∷ "便利" ∷ "步行条件" ∷ "步行指数高" ∷ "前 10%" ∷ "前10%"
          ∷ "推荐" ∷ "挑一套" ∷ "挑房" ∷ "尽量低" ∷ "便宜一点" ∷ [])
        normalized
      || any_in convenient_terms normalized

  unfoldable pub is_housing_search_query : String → Bool
  unfolding means_housing any is_in
  is_housing_search_query query =
      let normalized = py.lower query in
      if any_in ("gvi" ∷ "noi" ∷ "绿视率" ∷ "道路噪声" ∷ []) normalized && not (has_digit py query)
      then false
      else means_housing query
        && (has_road_evidence query && (has_spatial query || has_preference normalized)
            || has_wish_for_housing normalized && has_preference normalized)
