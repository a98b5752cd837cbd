-- ===== src/Workflow/Answering/Cited.antt =====
-- app/agent/workflow.py, `compose_answer`: what an answer cites, and what it rests on.
use yjdlagent.Prelude.{
  ◌≡◌, ◌⊎◌, refl, ℕ, Bool, true, false, Option, none, some, List, [], ◌∷◌, Bool-cases, inl, inr,
  ◌&&◌, if◌then◌else◌,
}
use yjdlagent.Json.{Fields}
use yjdlagent.Errors.{Result, ok}
use yjdlagent.Python.{Numbers, Ensures, Ensures-any, Ensures-bind, Ensures-refl}
use yjdlagent.Workflow.Routing.{Intent, map_query, rag_qa, hybrid, clarify, conversation}
use yjdlagent.Workflow.Answering.{
  concise_map_result_answer, Citation, Evidence, GroundedAnswer, Composed, map_evidence, is_cited,
  cited, degraded, is_empty, missing, non_empty, plain_answer, no_evidence, has_sets, with_map,
  from_model, ask, answer_of, compose_from, compose_answer,
}

-- The citations that the ordinals name, in their order.
pub data Picked (ordinals : List ℕ) : List Citation → List Citation → Type 0 where
  done : Picked ordinals [] []
  keep :
      {c : Citation} {cs ds : List Citation}
      → is_cited c.ordinal ordinals ≡ true
      → Picked ordinals cs ds
      → Picked ordinals (c ∷ cs) (c ∷ ds)
  leave :
      {c : Citation} {cs ds : List Citation}
      → is_cited c.ordinal ordinals ≡ false
      → Picked ordinals cs ds
      → Picked ordinals (c ∷ cs) ds

cited-Picked : (ordinals : List ℕ) (cs : List Citation) → Picked ordinals cs (cited ordinals cs)
cited-Picked ordinals [] = done
cited-Picked ordinals (c ∷ cs) = elim (Bool-cases (is_cited c.ordinal ordinals)) [
  | inl e ↦ rw e (keep e (cited-Picked ordinals cs))
  | inr e ↦ rw e (leave e (cited-Picked ordinals cs))
]

-- The answer is the model's, with the citations that it names.
pub record IsModelAnswer (model : Evidence → Result GroundedAnswer) (s : Evidence) (u : Composed)
    : Type 0 where
  pub given : GroundedAnswer
  pub answered : model s ≡ ok given
  pub supported : given.supported ≡ true
  pub answer : u.answer ≡ given.answer
  pub picked : Picked given.citation_ordinals s.citations u.citations
  pub operation : u.model_operation ≡ some "answer"

abbrev pub HasWarnings : Evidence → Composed → Type 0
HasWarnings s u =
    (u.warnings ≡ none) ⊎ (u.warnings ≡ some s.warnings) ⊎ (u.warnings ≡ some (degraded s.warnings))

-- The answer cites nothing, or it is a supported answer of the model.
abbrev pub IsComposed : (Evidence → Result GroundedAnswer) → Evidence → Composed → Type 0
IsComposed model s u =
    HasWarnings s u × (((u.citations ≡ []) × (u.model_operation ≡ none)) ⊎ IsModelAnswer model s u)

module _ (py : Numbers) (model : Evidence → Result GroundedAnswer) (s : Evidence) where
  with_map-IsComposed : (m : Option Fields) → Ensures (IsComposed model s) (with_map py s m)
  with_map-IsComposed none = (inl refl, inl (refl, refl))
  with_map-IsComposed (some m) = elim (Bool-cases (has_sets (some m))) [
    | inl e ↦ rw e (
        Ensures-any (IsComposed model s) (concise_map_result_answer py m) _
          (λ answer. (inr (inr refl), inl (refl, refl))))
    | inr e ↦ rw e (inl refl, inl (refl, refl))
  ]

  ask-IsComposed : Ensures (IsComposed model s) (ask py s model)
  ask-IsComposed =
      Ensures-bind (λ m. model s ≡ ok m) (IsComposed model s) (model s) (from_model py s)
        (Ensures-refl (model s))
        (λ m e. elim (Bool-cases m.supported) [
          | inl g ↦ rw g (
            inl refl,
            inr (record {
              given = m;
              answered = e;
              supported = g;
              answer = refl;
              picked = cited-Picked m.citation_ordinals s.citations;
              operation = refl;
            }),
          )
          | inr n ↦ rw n (with_map-IsComposed (non_empty s.map_result))
        ])

  supported_answer :
      (m : GroundedAnswer)
      → m.supported ≡ true
      → from_model py s m
        ≡ ok (record {
          answer = m.answer;
          citations = cited m.citation_ordinals s.citations;
          warnings = none;
          model_operation = some "answer";
        })
  supported_answer m p = rw p

  answer_of-IsComposed :
      (i : Intent) (m : Option Fields) → Ensures (IsComposed model s) (answer_of py s model i m)
  answer_of-IsComposed map_query (some m) =
      Ensures-any (IsComposed model s) (concise_map_result_answer py m) _
        (λ answer. (inr (inl refl), inl (refl, refl)))
  answer_of-IsComposed map_query none = ask-IsComposed
  answer_of-IsComposed rag_qa m = ask-IsComposed
  answer_of-IsComposed hybrid m = ask-IsComposed
  answer_of-IsComposed clarify m = ask-IsComposed
  answer_of-IsComposed conversation m = ask-IsComposed

  abbrev unknown : Bool
  unknown = is_empty s.retrieval_results && missing (map_evidence s)

  grounded-IsComposed :
      (i : Intent)
      → Ensures (IsComposed model s) (
          if unknown
          then ok (plain_answer s no_evidence)
          else answer_of py s model i (non_empty (map_evidence s)))
  grounded-IsComposed i = elim (Bool-cases unknown) [
    | inl e ↦ rw e (inr (inl refl), inl (refl, refl))
    | inr e ↦ rw e (answer_of-IsComposed i (non_empty (map_evidence s)))
  ]

  compose_from-IsComposed : (i : Intent) → Ensures (IsComposed model s) (compose_from py s model i)
  compose_from-IsComposed conversation = (inr (inl refl), inl (refl, refl))
  compose_from-IsComposed clarify = (inr (inl refl), inl (refl, refl))
  compose_from-IsComposed map_query = grounded-IsComposed map_query
  compose_from-IsComposed rag_qa = grounded-IsComposed rag_qa
  compose_from-IsComposed hybrid = grounded-IsComposed hybrid

  -- An answer of `compose_answer` cites nothing and names no operation of the model, or it is the answer that the model gives as supported, names the operation `answer`, and cites those citations of the state whose ordinals the model names, in their order. The update leaves the warnings out, keeps those of the state, or adds ANSWER_GENERATION_DEGRADED to them.
  pub compose_answer-IsComposed : Ensures (IsComposed model s) (compose_answer py model s)
  unfolding compose_answer
  compose_answer-IsComposed = compose_from-IsComposed s.intent
