-- ===== src/Rag/Contents.antt =====
-- app/rag/chunking.py: `_content_type` and `_table_section_path`, which are told by the text.
use yjdlagent.Prelude.{ℕ, Bool, none, some, List, [], ◌∷◌, String, ◌==◌, ◌||◌, if◌then◌else◌}
use yjdlagent.Table.{any, first}
use yjdlagent.Text.{is_in}

abbrev pub uncertainty_markers : List String
uncertainty_markers =
    "原文疑点" ∷ "原文完整性说明" ∷ "原文数字口径" ∷ "原文方法口径" ∷ "原文如此" ∷ "原文写" ∷ "不自行补写" ∷ "不擅自修正" ∷ []

abbrev pub any_in : List String → String → Bool
any_in terms text = any (λ (t : String). is_in t text) terms

-- `_content_type`
unfoldable pub content_type : String → String
unfolding is_in any
content_type content =
    if is_in "公式:" content || is_in "公式：" content || is_in "∑" content
    then "formula"
    else if any_in uncertainty_markers content
    then "warning"
    else "narrative"

abbrev table_rules : List (String × List String)
table_rules =
    ("步骤 | 原文方法", "3 步行指数计算过程与中间数据" ∷ "3.1 数据处理链" ∷ [])
    ∷ ("交叉口密度区间", "3 步行指数计算过程与中间数据" ∷ "3.2 交叉口密度衰减率" ∷ [])
    ∷ ("原文顺序 | 街道平均长度区间", "3 步行指数计算过程与中间数据" ∷ "3.3 街道长度衰减率" ∷ [])
    ∷ ("基础设施类别 | 权重", "1 研究口径与数据基础" ∷ "1.3 基础设施权重" ∷ [])
    ∷ ("设施 | 平均覆盖率", "4 基础设施覆盖率" ∷ "4.2 六类设施覆盖率数据" ∷ [])
    ∷ ("覆盖率评分区间", "4 基础设施覆盖率" ∷ "4.3 综合覆盖率评分" ∷ [])
    ∷ []

abbrev formula_path : List String
formula_path = "3 步行指数计算过程与中间数据" ∷ "3.4 步行指数公式与评分" ∷ []

abbrev symbols_path : ℕ → List String → List String
symbols_path page_number fallback =
    if page_number == 5
    then formula_path
    else if page_number == 6
    then "4 基础设施覆盖率" ∷ "4.1 含义、公式与计算流程" ∷ []
    else fallback

abbrev symbols_or : ℕ → String → List String → List String
symbols_or page_number markdown fallback =
    if is_in "符号 | 原文含义" markdown then symbols_path page_number fallback else fallback

abbrev special_path : ℕ → String → List String → List String
special_path page_number markdown fallback =
    if is_in "评分区间 | 评价类别" markdown
    then if page_number == 5
      then formula_path
      else if page_number == 8
      then "5 步行指数评价结果" ∷ []
      else symbols_or page_number markdown fallback
    else symbols_or page_number markdown fallback

-- `_table_section_path`
unfoldable pub table_section_path : ℕ → String → List String → List String
unfolding is_in first
table_section_path page_number markdown fallback =
    elim (first (λ (r : String × List String). is_in r.0 markdown) table_rules) [
      | some (marker, path) ↦ path
      | none ↦ special_path page_number markdown fallback
    ]
