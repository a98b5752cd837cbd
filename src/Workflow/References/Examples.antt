-- ===== src/Workflow/References/Examples.antt =====
-- Results at one place and at another.
use yjdlagent.Prelude.{◌≡◌, refl, true, false, [], ◌∷◌, ℕ}
use yjdlagent.Json.{Json, num, text, dict, arr, cons, nil}
use yjdlagent.Errors.{ok, err, value_error}
use yjdlagent.Python.{Numbers, pos, Ensures}
use yjdlagent.Workflow.References.{choose, concise_rag_result_answer}
use yjdlagent.Workflow.References.Selection.{IsSelection, choose-results}

abbrev digits : Numbers
digits = record {
  is_finite = λ s. true;
  equals = λ s n. false;
  truncate = λ s. ok (pos 0);
  parse = λ s. err (value_error "invalid literal for int()");
  decimal = λ n. "1";
  str_of = λ j. "1";
}

abbrev page : ℕ → Json
page n = dict (
    ("title", text " 指标 ")
    ∷ ("sectionPath", arr (cons (text "WS") nil))
    ∷ ("pageStart", num n)
    ∷ ("pageEnd", num n)
    ∷ [])

one_place :
    concise_rag_result_answer digits (page 1 ∷ page 1 ∷ [])
    ≡ ok "模型服务暂时繁忙，但知识库检索已经完成。以下资料与您的问题直接相关，您可以先查看引用，稍后重试以生成完整解释：\n1. 《指标》：WS（第 1 页）[1]"
unfolding concise_rag_result_answer
one_place = refl

choose-results_example :
    Ensures
      (IsSelection digits [] (page 1 ∷ page 2 ∷ page 1 ∷ []))
      (choose digits 1 [] (page 1 ∷ page 2 ∷ page 1 ∷ []))
choose-results_example = choose-results digits (page 1 ∷ page 2 ∷ page 1 ∷ [])
