-- ===== src/Capabilities.antt =====
-- app/agent/capabilities.py: what the service knows of dwellings and roads, as tables of terms, and the
-- search for them in a query. `lower` is `str.lower`.
use Prim.Native.String.{◌++◌ as cat}
use yjdlagent.Prelude.{Bool, true, false, not, Option, none, some, List, [], ◌∷◌, String, ◌&&◌}
use yjdlagent.Table.{any}
use yjdlagent.Text.{is_in, join}

-- EntityType
pub data EntityType : Type 0 where
  housing : EntityType
  road : EntityType

abbrev pub housing_aliases : List String
housing_aliases = "住宅" ∷ "住房" ∷ "房子" ∷ "房屋" ∷ "小区" ∷ "楼盘" ∷ "居住项目" ∷ "挑房" ∷ "买房" ∷ "购房" ∷ []

abbrev pub housing_filter_fields : List String
housing_filter_fields = "name" ∷ "adname" ∷ "房价" ∷ "覆盖度评分" ∷ []

-- the aliases of the three preferences, one after the other
abbrev pub housing_preference_aliases : List String
housing_preference_aliases =
    "价格尽量低" ∷ "房价尽量低" ∷ "便宜一点" ∷ "便宜点" ∷ "预算友好" ∷ "便利" ∷ "便利度" ∷ "方便" ∷ "生活方便" ∷ "社区便利度" ∷ "省心"
    ∷ "道路步行" ∷ "步行条件" ∷ "周边道路" ∷ "好走" ∷ "走路" ∷ "步行指数" ∷ []

abbrev pub road_aliases : List String
road_aliases = "道路" ∷ "路段" ∷ "街道" ∷ "公路" ∷ []

abbrev pub road_filter_fields : List String
road_filter_fields = "name" ∷ "GVI" ∷ "NOI" ∷ "WS归一化" ∷ "绿视率原始值" ∷ "道路噪声原始值" ∷ []

abbrev pub road_only_metric_terms : List String
road_only_metric_terms =
    "GVI" ∷ "NOI" ∷ "WS" ∷ "WS归一化" ∷ "vegetation" ∷ "noise" ∷ "绿视率" ∷ "绿视率原始值" ∷ "道路噪声" ∷ "道路噪声原始值"
    ∷ "步行指数" ∷ []

abbrev pub district_names : List String
district_names = "中山区" ∷ "西岗区" ∷ "沙河口区" ∷ []

abbrev pub followup_reference_terms : List String
followup_reference_terms =
    "这里面" ∷ "这些" ∷ "其中" ∷ "从中" ∷ "刚才" ∷ "上次" ∷ "上一轮" ∷ "前面的结果" ∷ "其他条件不变" ∷ "其余条件不变" ∷ []

abbrev pub knowledge_request_terms : List String
knowledge_request_terms =
    "知识库" ∷ "解释" ∷ "说明" ∷ "为什么" ∷ "如何" ∷ "怎么" ∷ "怎样" ∷ "怎么算" ∷ "依据" ∷ "定义" ∷ "是什么" ∷ "什么意思" ∷ "何谓"
    ∷ "计算方式" ∷ "计算方法" ∷ "公式" ∷ "含义" ∷ "口径" ∷ "指标介绍" ∷ []

abbrev pub knowledge_map_action_terms : List String
knowledge_map_action_terms = "筛选" ∷ "查找" ∷ "找出" ∷ "显示" ∷ "定位" ∷ "推荐" ∷ "挑选" ∷ "选出" ∷ []

-- any(term in text for term in terms)
abbrev pub any_in : List String → String → Bool
any_in terms text = any (λ (t : String). is_in t text) terms

unfoldable pub router_known_rules : List String
unfolding join
router_known_rules =
    "道路字段中，GVI/NOI 仅为等级；WS归一化为 0-100；绿视率原始值和道路噪声原始值分别对应 vegetation/noise"
    ∷ cat "住宅点可筛选 " (join "、" housing_filter_fields)
    ∷ "住宅推荐支持价格偏好、社区便利度和道路步行偏好；社区便利度映射到 convenience，不是未知字段"
    ∷ cat "道路可筛选 " (join "、" road_filter_fields)
    ∷ "用户明确提供道路字段、运算符和阈值时执行 MAP_QUERY，不自行解释单位或推荐阈值"
    ∷ "行政区与 layerId 的映射必须使用当前运行时 Tool Catalog"
    ∷ []

module _ (lower : String → String) where
  -- any(term.lower() in text for term in terms)
  abbrev pub any_lower_in : List String → String → Bool
  any_lower_in terms text = any (λ (t : String). is_in (lower t) text) terms

  abbrev either : Bool → Bool → Option EntityType
  either true true = none
  either false false = none
  either true false = some housing
  either false true = some road

  unfoldable pub entity_from_text : String → Option EntityType
  unfolding is_in any
  entity_from_text text =
      either (any_lower_in housing_aliases (lower text)) (any_lower_in road_aliases (lower text))

  unfoldable pub has_housing_preference : String → Bool
  unfolding is_in any
  has_housing_preference text = any_lower_in housing_preference_aliases (lower text)

  unfoldable pub is_knowledge_request : String → Bool
  unfolding is_in any
  is_knowledge_request text =
      any_lower_in knowledge_request_terms (lower text)
      && not (any_lower_in knowledge_map_action_terms (lower text))
