-- ===== src/Conversation/Followup/Extends.antt =====
-- What becomes of a query that follows another one.
use Prim.Native.String.{◌++◌ as cat}
use mathlib.Core.List.{reverse}
use yjdlagent.Prelude.{
  ◌≡◌, ◌⊎◌, refl, Option, none, some, List, [], ◌∷◌, ◌++◌, String, Bool-cases, Option-cases, inl,
  inr,
}
use yjdlagent.Json.{Json, Fields}
use yjdlagent.Errors.{Result}
use yjdlagent.Text.Editing.{rstrip_chars}
use yjdlagent.Python.{Numbers, Ensures, Ensures-any}
use yjdlagent.Capabilities.{
  housing_aliases, road_aliases, district_names, any_in, any_lower_in, is_knowledge_request,
}
use yjdlagent.Conversation.Context.{State}
use yjdlagent.Conversation.Followup.{
  Audit, closing, load_business_state, clauses_of, names_other, refers, last_query, inherit,
  inherit_from, contextualize_with_state, memory_entity, from_memory, or_memory,
  contextualize_followup_query,
}

-- The query stays as it is and nothing is noted, or it gets an addition at its end, behind which
-- stand no closing characters, and one entry is noted.
abbrev pub Extends : String → String × List Audit → Type 0
Extends query (result, audit) =
    ((result ≡ query) × (audit ≡ []))
    ⊎ ((addition : String) × (a : Audit) × (result ≡ cat (rstrip_chars closing query) addition)
        × (audit ≡ a ∷ []))

module _ (lower : String → String) (general : String → String) (py : Numbers) where
  inherit-Extends :
      (query previous : String) (clauses : List String)
      → Extends query (inherit lower general py query previous clauses)
  inherit-Extends query previous [] = inl (refl, refl)
  inherit-Extends query previous (c ∷ cs) = inr (_, _, refl, refl)

  inherit_from-Extends :
      (query : String) (clauses : List String) (previous : Option String)
      → Extends query (inherit_from lower general py query clauses previous)
  inherit_from-Extends query clauses none = inl (refl, refl)
  inherit_from-Extends query clauses (some previous) = inherit-Extends query previous clauses

  with_state-Extends :
      (query : String) (s : State)
      → Extends query (contextualize_with_state lower general py query s)
  unfolding contextualize_with_state
  with_state-Extends query s = elim (Bool-cases (is_knowledge_request lower query)) [
    | inl e ↦ rw e (inl (refl, refl))
    | inr e ↦ elim (Bool-cases (names_other lower general py query s)) [
      | inl f ↦ rw (e, f) (inl (refl, refl))
      | inr f ↦ elim (Bool-cases (refers lower general py query)) [
        | inr g ↦ rw (e, f, g) (inl (refl, refl))
        | inl g ↦
            rw (e, f, g)
              (inherit_from-Extends query (clauses_of lower general py query s)
                (last_query lower general py s))
      ]
    ]
  ]

  from_memory-Extends :
      (query : String) (memory : List Json)
      → Extends query (from_memory lower general py query memory)
  unfolding from_memory
  from_memory-Extends query [] = inl (refl, refl)
  from_memory-Extends query (m ∷ ms) = elim (Option-cases (memory_entity lower general py m)) [
    | inl e ↦ rw (e, from_memory) (from_memory-Extends query ms)
    | inr (t, e) ↦ rw (e, from_memory) (inr (_, _, refl, refl))
  ]

  or_memory-Extends :
      (query : String) (memory : List Json) (r : String × List Audit)
      → Extends query r
      → Extends query (or_memory lower general py query memory r)
  or_memory-Extends query memory (result, a ∷ audit) h = h
  or_memory-Extends query memory (result, []) h = elim (Bool-cases (any_in district_names query)) [
    | inr e ↦ rw e (inl (refl, refl))
    | inl e ↦
        elim (Bool-cases (any_lower_in lower (housing_aliases ++ road_aliases) (lower query))) [
          | inl f ↦ rw (e, f) (inl (refl, refl))
          | inr f ↦ rw (e, f) (from_memory-Extends query (reverse memory))
        ]
  ]

-- A follow-up is the query as it was, with nothing noted, or the query without its closing
-- punctuation and with an addition at its end, with one entry in the audit: no part of what the user has
-- written is dropped but closing punctuation, whatever the state and the memory are.
pub contextualize_followup_query-Extends :
    (lower : String → String) (general : String → String) (py : Numbers)
    (validate : Fields → Result State) (query : String) (memory : List Json) (state : Json)
    → Ensures
        (Extends query)
        (contextualize_followup_query lower general py validate query memory state)
unfolding contextualize_followup_query
contextualize_followup_query-Extends lower general py validate query memory state =
    Ensures-any (Extends query) (load_business_state validate state) _ (λ s.
      or_memory-Extends lower general py query memory _
        (with_state-Extends lower general py query s))
