-- ===== src/Workflow/References.antt =====
-- app/agent/workflow.py: `concise_rag_result_answer`, the answer to a knowledge question when the language model
-- is not available. The lines are written when all references are chosen.
pub mod Selection
mod Examples
use Prim.Native.String.{◌++◌ as cat}
use yjdlagent.Prelude.{
  ◌+◌, ℕ, suc, Bool, true, false, not, Option, none, some, List, [], ◌∷◌, ◌++◌, String, ltb, leb,
  ◌==◌, ◌&&◌, length, str_eq, if◌then◌else◌,
}
use yjdlagent.Json.{Json, Fields, num, text, arr, obj, nil, truthy}
use yjdlagent.Errors.{Result, ok, err}
use yjdlagent.Python.{ℤ, pos, negsuc, Numbers, ◌>>=◌, get_of, or_default, iterate, int_of, text_of}
use yjdlagent.Text.{strip, join}
use yjdlagent.Workflow.Results.{int_text}
use yjdlagent.Workflow.Candidates.{same_key}

-- The key of a reference: its title, its section and its pages.
pub record Place : Type 0 where
  pub title : String
  pub section_path : List String
  pub page_start : ℤ
  pub page_end : ℤ

abbrev pub same_texts : List String → List String → Bool
same_texts [] [] = true
same_texts [] (t ∷ ts) = false
same_texts (s ∷ ss) [] = false
same_texts (s ∷ ss) (t ∷ ts) = str_eq s t && same_texts ss ts

abbrev pub same_place : Place → Place → Bool
same_place p q =
    str_eq p.title q.title
    && same_texts p.section_path q.section_path
    && same_key p.page_start q.page_start
    && same_key p.page_end q.page_end

-- A reference with the ordinal of its result.
abbrev pub Reference : Type 0
Reference = ℕ × Place

abbrev pub is_seen : Place → List Reference → Bool
is_seen p [] = false
is_seen p ((o, q) ∷ rs) = if same_place q p then true else is_seen p rs

abbrev is_positive : ℤ → Bool
is_positive (pos n) = not (n == 0)
is_positive (negsuc n) = false

-- value or default
abbrev or_else : Option Json → Json → Json
or_else none d = d
or_else (some v) d = if truthy v then v else d

module _ (py : Numbers) where
  abbrev stripped : List Json → List String
  stripped [] = []
  stripped (x ∷ xs) =
      let rest = stripped xs in
      if str_eq (strip (text_of py x)) "" then rest else strip (text_of py x) ∷ rest

  -- int(value or start)
  abbrev int_or : Option Json → ℤ → Result ℤ
  int_or none start = ok start
  int_or (some v) start = if truthy v then int_of py v else ok start

  unfoldable pub place_of : Json → Result Place
  unfolding get_of truthy strip
  place_of result = get_of "title" result >>= λ title. get_of "sectionPath" result >>= λ path.
      iterate (or_default (arr nil) path) >>= λ sections. get_of "pageStart" result >>= λ start.
      int_or start (pos 0) >>= λ page_start. get_of "pageEnd" result >>= λ end.
      int_or end page_start >>= λ page_end. ok (record {
        title = strip (text_of py (or_else title (text "知识库资料")));
        section_path = stripped sections;
        page_start = page_start;
        page_end = page_end;
      })

  -- the loop over the results, with the references so far
  unfoldable pub choose : ℕ → List Reference → List Json → Result (List Reference)
  unfolding place_of
  choose ordinal seen [] = ok seen
  choose ordinal seen (x ∷ xs) = place_of x >>= λ p. elim (is_seen p seen) [
    | true ↦ choose (suc ordinal) seen xs
    | false ↦ elim (length (seen ++ (ordinal, p) ∷ []) == 3) [
      | true ↦ ok (seen ++ (ordinal, p) ∷ [])
      | false ↦ choose (suc ordinal) (seen ++ (ordinal, p) ∷ []) xs
    ]
  ]

  abbrev pages_text : Place → String
  pages_text p =
      if same_key p.page_end p.page_start
      then cat "第 " (cat (int_text py p.page_start) " 页")
      else cat "第 " (cat (int_text py p.page_start) (cat "-" (cat (int_text py p.page_end) " 页")))

  abbrev section_text : List String → String
  section_text [] = "相关章节"
  section_text (s ∷ ss) = join " > " (s ∷ ss)

  abbrev location : Place → String
  location p =
      if is_positive p.page_start
      then cat (section_text p.section_path) (cat "（" (cat (pages_text p) "）"))
      else section_text p.section_path

  abbrev lines_from : ℕ → List Reference → List String
  lines_from n [] = []
  lines_from n ((ordinal, p) ∷ rs) =
      cat (py.decimal n) (
        cat ". 《"
          (cat p.title (cat "》：" (cat (location p) (cat "[" (cat (py.decimal ordinal) "]"))))))
      ∷ lines_from (suc n) rs

  abbrev answer_with : List Reference → String
  answer_with [] = "模型服务暂时繁忙，但知识库检索已经完成。您可以先查看页面中的引用，稍后重试以生成完整解释。"
  answer_with (r ∷ rs) =
      cat "模型服务暂时繁忙，但知识库检索已经完成。以下资料与您的问题直接相关，您可以先查看引用，稍后重试以生成完整解释：\n"
        (join "\n" (lines_from 1 (r ∷ rs)))

  unfoldable pub concise_rag_result_answer : List Json → Result String
  unfolding choose join
  concise_rag_result_answer results =
      choose 1 [] results >>= λ references. ok (answer_with references)
