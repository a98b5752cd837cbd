-- ===== src/Workflow/Housing/Node.antt =====
-- app/agent/workflow.py: the node `plan_housing_search`. The answer of the language model, which
-- `complete_json` has checked by `HOUSING_PLAN_SCHEMA`, the test of arguments by the schema of the catalog
-- and `uuid5` are parameters, and so is what tools the catalog has.
use yjdlagent.Prelude.{
  ◌≡◌, ◌⊎◌, sym, refl, ℕ, Bool, true, false, not, Option, none, some, String, Bool-cases, inl, inr,
  if◌then◌else◌,
}
use yjdlagent.Json.{Fields}
use yjdlagent.Errors.{AgentError, no_details, Result, ok, err, agent_error}
use yjdlagent.Python.{◌>>=◌, Ensures, Ensures-any, Ensures-bind, Ensures-refl}
use yjdlagent.Workflow.Results.{ToolCall}
use yjdlagent.Workflow.Phrases.{Language, explicit_buffer_meters}
use yjdlagent.Workflow.Preferences.{Arithmetic}
use yjdlagent.Workflow.Housing.{
  Search, default_search, search_json, normalize_housing_search_arguments, needs_model,
  deterministic_housing_search_arguments,
}
use yjdlagent.Workflow.Housing.Grounded.{IsGrounded, normalize_housing_search_arguments-IsGrounded}

abbrev pub tool_missing : AgentError
tool_missing = record {
  code = "TOOL_NOT_FOUND";
  message = "当前 Tool Catalog 不支持住宅与道路联合查询";
  status_code = 503;
  retryable = true;
  details = no_details;
  retry_count = 0;
}

abbrev pub search_tool : String
search_tool = "searchHousingCandidates"

-- The update of the node: its only call, whose arguments are `search`, and whether `model_operation` is
-- `housing_plan`.
pub record HousingPlan : Type 0 where
  pub call : ToolCall
  pub search : Search
  pub used_model : Bool

module _ (py : Language) (a : Arithmetic) (has_tool : String → Bool)
    (validate : Fields → Result (Unit {0})) (tool_call_id : ℕ → String → String) where
  abbrev pub plan_of : Bool → Search → HousingPlan
  plan_of used_model search = record {
    call = record {
      tool_call_id = tool_call_id 0 search_tool;
      tool_name = search_tool;
      arguments = search_json search;
    };
    search = search;
    used_model = used_model;
  }

  abbrev pub validated : Bool → Search → Result HousingPlan
  validated used_model search =
      validate (search_json search) >>= λ _. ok (plan_of used_model search)

  abbrev pub planned : (String → Result Search) → String → Option Search → Result HousingPlan
  planned complete query (some search) = validated false search
  planned complete query none = complete query >>= λ result.
      normalize_housing_search_arguments py a result query >>= validated true

  unfoldable pub plan_housing_search : (String → Result Search) → String → Result HousingPlan
  unfolding explicit_buffer_meters deterministic_housing_search_arguments search_json
  plan_housing_search complete query = explicit_buffer_meters py query >>= λ distance.
      if not (has_tool search_tool)
      then err (agent_error tool_missing)
      else deterministic_housing_search_arguments py a query >>= planned complete query

  -- What the node gives: one call of the tool, with valid arguments that the query grounds.
  pub record IsPlanned (query : String) (p : HousingPlan) : Type 0 where
    pub known : has_tool search_tool ≡ true
    pub named : p.call.tool_name ≡ search_tool
    pub numbered : p.call.tool_call_id ≡ tool_call_id 0 search_tool
    pub arguments : p.call.arguments ≡ search_json p.search
    pub valid : validate p.call.arguments ≡ ok tt
    pub source : Search
    pub grounded : IsGrounded py a source query p.search
    pub by_model : p.used_model ≡ needs_model py a query
    pub default : (p.used_model ≡ true) ⊎ (source ≡ default_search py a)

  abbrev Determined : String → Option Search → Type 0
  Determined query none = needs_model py a query ≡ true
  Determined query (some s) =
      IsGrounded py a (default_search py a) query s × (needs_model py a query ≡ false)

  deterministic-Determined :
      (query : String)
      → Ensures (Determined query) (deterministic_housing_search_arguments py a query)
  unfolding deterministic_housing_search_arguments
  deterministic-Determined query = elim (Bool-cases (needs_model py a query)) [
    | inl e ↦ rw e e
    | inr e ↦ rw e (
        Ensures-bind (IsGrounded py a (default_search py a) query) (Determined query)
          (normalize_housing_search_arguments py a (default_search py a) query) _
          (normalize_housing_search_arguments-IsGrounded py a (default_search py a) query)
          (λ s h. (h, e)))
  ]

  validated-IsPlanned :
      (used : Bool) (source : Search) (query : String) (s : Search)
      → has_tool search_tool ≡ true
      → IsGrounded py a source query s
      → used ≡ needs_model py a query
      → (used ≡ true) ⊎ (source ≡ default_search py a)
      → Ensures (IsPlanned query) (validated used s)
  validated-IsPlanned used source query s k h e d =
      Ensures-bind (λ u. validate (search_json s) ≡ ok tt) (IsPlanned query)
        (validate (search_json s)) _ (Ensures-refl (validate (search_json s)))
        (λ u v. record {
          known = k;
          named = refl;
          numbered = refl;
          arguments = refl;
          valid = v;
          source = source;
          grounded = h;
          by_model = e;
          default = d;
        })

  planned-IsPlanned :
      (complete : String → Result Search) (query : String) (o : Option Search)
      → has_tool search_tool ≡ true
      → Determined query o
      → Ensures (IsPlanned query) (planned complete query o)
  planned-IsPlanned complete query (some s) k (h, e) =
      validated-IsPlanned false (default_search py a) query s k h (sym e) (inr refl)
  planned-IsPlanned complete query none k e =
      Ensures-any (IsPlanned query) (complete query) _ (λ result.
        Ensures-bind (IsGrounded py a result query) (IsPlanned query)
          (normalize_housing_search_arguments py a result query) _
          (normalize_housing_search_arguments-IsGrounded py a result query)
          (λ s h. validated-IsPlanned true result query s k h (sym e) (inl refl)))

  -- Whatever the model answers, a plan of `plan_housing_search` has one call, with number 0, of the tool `searchHousingCandidates`, which the catalog has; its arguments pass the validation of the catalog and are grounded in the query; and the model is used exactly when the query gives weights or thresholds, otherwise the arguments come of the defaults.
  pub plan_housing_search-IsPlanned :
      (complete : String → Result Search) (query : String)
      → Ensures (IsPlanned query) (plan_housing_search complete query)
  unfolding plan_housing_search
  plan_housing_search-IsPlanned complete query =
      Ensures-any (IsPlanned query) (explicit_buffer_meters py query) _ (λ d.
        elim (Bool-cases (has_tool search_tool)) [
          | inr e ↦ rw e tt
          | inl e ↦ rw e (
              Ensures-bind (Determined query) (IsPlanned query)
                (deterministic_housing_search_arguments py a query) (planned complete query)
                (deterministic-Determined query) (λ o. planned-IsPlanned complete query o e))
        ])
