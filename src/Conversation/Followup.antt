-- ===== src/Conversation/Followup.antt =====
-- How a short query takes over the object and the conditions of the queries before it:
-- `load_business_state` and `contextualize_with_state` of app/agent/conversation_state.py, and
-- `contextualize_followup_query` of app/agent/workflow.py. `lower` is `str.lower`, `general` writes a
-- float by `:g`, and `validate` is the parser of pydantic.
pub mod Extends
mod Examples
use Prim.Native.String.{◌++◌ as cat}
use mathlib.Core.List.{reverse}
use yjdlagent.Prelude.{
  ℕ, Bool, true, false, not, Option, none, some, is_some, List, [], ◌∷◌, ◌++◌, String, str_eq, ◌&&◌,
  ◌||◌, if◌then◌else◌,
}
use yjdlagent.Json.{Json, Fields, null, bool, num, real, text, obj, end, get_field, truthy}
use yjdlagent.Errors.{Result, ok, err}
use yjdlagent.Table.{any}
use yjdlagent.Text.{is_in, join}
use yjdlagent.Text.Editing.{rstrip_chars}
use yjdlagent.Python.{Numbers, ◌>>=◌, or_default, text_of}
use yjdlagent.Capabilities.{
  EntityType, housing, road, housing_aliases, road_aliases, district_names,
  followup_reference_terms, any_in, any_lower_in, entity_from_text, has_housing_preference,
  is_knowledge_request,
}
use yjdlagent.Conversation.Context.{State}

-- An entry of the audit of a query.
pub record Audit : Type 0 where
  pub kind : String
  pub before : String
  pub after : String

abbrev payload_of : Json → Fields
payload_of (obj wrapper) = elim (get_field "state" wrapper) [ some (obj fs) ↦ fs | _ ↦ end ]
payload_of _ = end

unfoldable pub load_business_state : (Fields → Result State) → Json → Result State
unfolding get_field
load_business_state validate wrapper = validate (payload_of wrapper)

-- the characters that `query.rstrip` takes off
abbrev pub closing : String
closing = "，,。！？!? "

-- a clause, if its test holds
abbrev clause_if : Bool → String → List String
clause_if true clause = clause ∷ []
clause_if false clause = []

abbrev is_enabled : Option Json → Bool
is_enabled (some (obj fs)) = elim (get_field "enabled" fs) [ none ↦ false | some v ↦ truthy v ]
is_enabled _ = false

-- `_preference_clauses`
unfoldable pub preference_clauses : Fields → List String
unfolding get_field truthy
preference_clauses preferences =
    clause_if (is_enabled (get_field "price" preferences)) "房价尽量低"
    ++ clause_if (is_enabled (get_field "convenience" preferences)) "社区便利度稍高"
    ++ clause_if (is_enabled (get_field "roadWalkability" preferences)) "道路步行条件稍高"

module _ (lower : String → String) (general : String → String) (py : Numbers) where
  abbrev number_text : Json → String
  number_text (real s) = general s
  number_text j = text_of py j

  -- a bound of the price before, unless the query has a new one
  abbrev price_clause : String → Option Json → Bool → List String
  price_clause label none inherited = []
  price_clause label (some null) inherited = []
  price_clause label (some price) inherited = clause_if inherited (cat label (number_text price))

  -- whether the query leaves a bound of the price as it is, where `terms` name that bound
  abbrev leaves_price : String → List String → Bool
  leaves_price query terms =
      not (any_in terms query)
      && (any_in ("其他条件不变" ∷ "其余条件不变" ∷ []) query || not (any_in ("房价" ∷ "价格" ∷ "预算" ∷ []) query))

  abbrev entity_clause : Option EntityType → Option EntityType → List String
  entity_clause (some explicit) before = []
  entity_clause none (some housing) = "查询对象为住宅小区" ∷ []
  entity_clause none before = "查询对象为道路" ∷ []

  unfoldable pub clauses_of : String → State → List String
  unfolding entity_from_text any is_in get_field has_housing_preference preference_clauses
  clauses_of query s =
      entity_clause (entity_from_text lower query) s.entity_context.entity_type
      ++ (if any_in district_names query then [] else s.entity_context.districts)
      ++ price_clause "房价不低于" (get_field "priceMin" s.query_context.hard_filters)
          (leaves_price query ("不低于" ∷ "至少" ∷ "最低" ∷ "下限" ∷ "以上" ∷ "元起" ∷ []))
      ++ price_clause "房价不高于" (get_field "priceMax" s.query_context.hard_filters)
          (leaves_price query ("不超过" ∷ "不高于" ∷ "最高" ∷ "上限" ∷ "以内" ∷ "以下" ∷ "之内" ∷ []))
      ++ (if has_housing_preference lower query
          then []
          else preference_clauses s.query_context.preferences)

  abbrev other_entity : Option EntityType → Option EntityType → Bool
  other_entity (some housing) (some housing) = false
  other_entity (some road) (some road) = false
  other_entity explicit before = true

  -- the query names an object of its own
  abbrev pub names_other : String → State → Bool
  names_other query s =
      is_some (entity_from_text lower query)
      && (not (any_in followup_reference_terms query)
          || other_entity (entity_from_text lower query) s.entity_context.entity_type)

  -- the query refers to the query before it
  abbrev pub refers : String → Bool
  refers query =
      any_in followup_reference_terms query
      || any_in district_names query
      || has_housing_preference lower query

  -- "not previous.last_successful_query" fails
  abbrev pub last_query : State → Option String
  last_query s = elim s.entity_context.entity_type [
    | none ↦ none
    | some t ↦ elim s.query_context.last_successful_query [
      | none ↦ none
      | some q ↦ if str_eq q "" then none else some q
    ]
  ]

  abbrev pub unchanged : String → String × List Audit
  unchanged query = (query, [])

  abbrev pub composed : String → List String → String
  composed query clauses = cat (rstrip_chars closing query) (cat "；沿用上一轮已提交条件：" (join "，" clauses))

  abbrev pub inherit : String → String → List String → String × List Audit
  inherit query previous [] = unchanged query
  inherit query previous (c ∷ cs) = (
    composed query (c ∷ cs),
    record {
      kind = "conversation_query_state_inheritance";
      before = previous;
      after = composed query (c ∷ cs);
    }
        ∷ [],
  )

  abbrev pub inherit_from : String → List String → Option String → String × List Audit
  inherit_from query clauses none = unchanged query
  inherit_from query clauses (some previous) = inherit query previous clauses

  unfoldable pub contextualize_with_state : String → State → String × List Audit
  unfolding clauses_of entity_from_text has_housing_preference is_knowledge_request rstrip_chars
      join any is_in
  contextualize_with_state query s =
      if is_knowledge_request lower query
      then unchanged query
      else if names_other query s
      then unchanged query
      else if not (refers query)
      then unchanged query
      else inherit_from query (clauses_of query s) (last_query s)

  -- `_explicit_map_entity` of a value of a dict that may be missing
  abbrev entity_at : String → Fields → Option EntityType
  entity_at k fs = entity_from_text lower (text_of py (or_default (text "") (get_field k fs)))

  abbrev or_entity : Option EntityType → Option EntityType → Option EntityType
  or_entity none later = later
  or_entity (some t) later = some t

  abbrev summary_entity : Option Json → Option EntityType
  summary_entity (some (obj fs)) = entity_at "querySummary" fs
  summary_entity _ = none

  -- the object of an entry of the memory: of its query, its map summary or its answer
  unfoldable pub memory_entity : Json → Option EntityType
  unfolding entity_from_text get_field
  memory_entity (obj m) =
      or_entity (entity_at "query" m)
        (or_entity (summary_entity (get_field "mapSummary" m)) (entity_at "answer" m))
  memory_entity _ = none

  abbrev entity_name : EntityType → String
  entity_name housing = "住宅"
  entity_name road = "道路"

  abbrev suffix_of : EntityType → String
  suffix_of housing = "住宅小区"
  suffix_of road = "道路"

  abbrev pub with_entity : String → EntityType → String × List Audit
  with_entity query entity = (
    cat (rstrip_chars closing query) (cat "，查询对象为" (suffix_of entity)),
    record {
      kind = "conversation_entity_inheritance";
      before = entity_name entity;
      after = entity_name entity;
    }
        ∷ [],
  )

  -- the loop over the memory, from its last entry
  unfoldable pub from_memory : String → List Json → String × List Audit
  unfolding memory_entity rstrip_chars
  from_memory query [] = unchanged query
  from_memory query (m ∷ ms) = elim (memory_entity m) [
    | none ↦ from_memory query ms
    | some entity ↦ with_entity query entity
  ]

  abbrev pub or_memory : String → List Json → String × List Audit → String × List Audit
  or_memory query memory (contextualized, a ∷ audit) = (contextualized, a ∷ audit)
  or_memory query memory (contextualized, []) =
      if not (any_in district_names query)
      then unchanged query
      else if any_lower_in lower (housing_aliases ++ road_aliases) (lower query)
      then unchanged query
      else from_memory query (reverse memory)

  unfoldable pub contextualize_followup_query :
      (Fields → Result State) → String → List Json → Json → Result (String × List Audit)
  unfolding load_business_state contextualize_with_state from_memory any is_in
  contextualize_followup_query validate query memory state =
      load_business_state validate state >>= λ s.
      ok (or_memory query memory (contextualize_with_state query s))
