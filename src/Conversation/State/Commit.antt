-- ===== src/Conversation/State/Commit.antt =====
-- app/agent/conversation_state.py, `build_committed_state`: what a turn leaves of the state before it.
use yjdlagent.Prelude.{
  ℕ, zero, suc, ◌-◌, ◌≤◌, ◌≡◌, refl, sym, ap, Bool, true, false, Option, none, some, List, [], ◌∷◌,
  ◌++◌, String, arith, drop, take, length, length-append, Bool-cases, inl, inr, str_eq, ◌||◌, ◌⊎◌,
  ltb, if◌then◌else◌,
}
use yjdlagent.Errors.{Result, ok, err}
use yjdlagent.Python.{ℤ, ◌>>=◌, Ensures, Ensures-bind, Ensures-any}
use yjdlagent.Text.{len, slice_to}
use yjdlagent.Text.Lengths.{len-slice_to}
use yjdlagent.Workflow.Results.{ToolCall}
use yjdlagent.Conversation.Context.{EntityContext, Digest, State, Turn}
use yjdlagent.Conversation.State.{
  Parts, last_of, with_turn, housing_parts, point_parts, parts_of, with_query, with_parts,
  is_map_query, with_plan, build_committed_state, map_result_reference, as_dict,
  districts_from_query,
}

-- the tools whose calls are remembered
abbrev pub is_remembered : String → Bool
is_remembered name =
    str_eq name "searchHousingCandidates"
    || str_eq name "queryMapPoints"
    || str_eq name "queryMapLines"

-- The call that the next turn can refer to: the first one of a map query, for such a tool.
abbrev pub reusable : Option String → List ToolCall → Option ToolCall
reusable intent [] = none
reusable intent (call ∷ calls) =
    if is_map_query intent then if is_remembered call.tool_name then some call else none else none

-- What is remembered of a turn.
abbrev pub entry_of : Turn → Digest
entry_of turn = record {
  query = slice_to 500 turn.query;
  answer = slice_to 800 turn.answer;
  route = elim turn.intent [ none ↦ "" | some intent ↦ intent ];
}

-- The history after a turn: the newest entries before it, and its own. Nothing is forgotten before
-- there are 12 entries.
pub record IsHistory (turn : Turn) (before after : List Digest) : Type 0 where
  pub forgotten : List Digest
  pub kept : List Digest
  pub split : before ≡ forgotten ++ kept
  pub extended : after ≡ kept ++ entry_of turn ∷ []
  pub limited : length after ≤ 12
  pub filled : (forgotten ≡ []) ⊎ (length after ≡ 12)
  pub short : (len (entry_of turn).query ≤ 500) × (len (entry_of turn).answer ≤ 800)

abbrev pub business_only : Turn → EntityContext → EntityContext
business_only turn c = record c { business_object_ids = turn.business_object_ids }

-- The contexts after a turn: those before it, or those of its call.
abbrev pub Replaced : Turn → State → State → Option ToolCall → Type 0
Replaced turn before after none =
    (after.query_context ≡ before.query_context)
    × (after.entity_context ≡ business_only turn before.entity_context)
Replaced turn before after (some call) =
    (after.query_context.last_successful_query ≡ some turn.query)
    × (after.query_context.tool_name ≡ some call.tool_name)
    × (after.query_context.tool_arguments ≡ call.arguments)
    × (after.entity_context.business_object_ids ≡ turn.business_object_ids)

pub record IsCommitted (before : State) (turn : Turn) (after : State) : Type 0 where
  pub history : IsHistory turn before.history_digest after.history_digest
  pub summary : (after.summary ≡ slice_to 2000 turn.answer) × (len after.summary ≤ 2000)
  pub map : after.map_context ≡ turn.map_context
  pub contexts : Replaced turn before after (reusable turn.intent turn.tool_plan)

take-drop : {A : Type 0} (n : ℕ) (xs : List A) → take n xs ++ drop n xs ≡ xs
take-drop zero xs = refl
take-drop (suc n) [] = refl
take-drop (suc n) (x ∷ xs) = ap (λ l. x ∷ l) (take-drop n xs)

length-drop : {A : Type 0} (n : ℕ) (xs : List A) → length (drop n xs) ≡ length xs - n
length-drop zero xs = omega arith
length-drop (suc n) [] = omega arith
length-drop (suc n) (x ∷ xs) = omega (arith, length-drop n xs)

drop-snoc :
    {A : Type 0} (n : ℕ) (xs : List A) (x : A)
    → n ≤ length xs
    → drop n (xs ++ x ∷ []) ≡ drop n xs ++ x ∷ []
drop-snoc zero xs x h = refl
drop-snoc (suc n) [] x h = absurd (omega arith)
drop-snoc (suc n) (y ∷ xs) x h = drop-snoc n xs x (omega arith)

last_of-IsHistory :
    (turn : Turn) (before : List Digest)
    → IsHistory turn before (last_of 12 (before ++ entry_of turn ∷ []))
last_of-IsHistory turn before =
    let entry = entry_of turn in
    let n = length (before ++ entry ∷ []) - 12 in
    let size = length-append before (entry ∷ []) in
    let left = length-drop n (before ++ entry ∷ []) in
    record {
      forgotten = take n before;
      kept = drop n before;
      split = sym (take-drop n before);
      extended = drop-snoc n before entry (omega (arith, size));
      limited = omega (arith, left, size);
      filled = elim (Bool-cases (ltb (length before) 12)) [
        | inl few ↦
            let nothing : n ≡ 0 = ground (arith, size) in inl (ap (λ k. take k before) nothing)
        | inr many ↦ inr (ground (arith, left, size))
      ];
      short = (len-slice_to 500 turn.query, len-slice_to 800 turn.answer);
    }

with_turn-IsHistory :
    (turn : Turn) (s : State) → IsHistory turn s.history_digest (with_turn turn s).history_digest
unfolding with_turn
with_turn-IsHistory turn s = last_of-IsHistory turn s.history_digest

with_turn-summary :
    (turn : Turn) (s : State)
    → ((with_turn turn s).summary ≡ slice_to 2000 turn.answer)
      × (len (with_turn turn s).summary ≤ 2000)
unfolding with_turn
with_turn-summary turn s = (refl, len-slice_to 2000 turn.answer)

-- the contexts are as they were
unchanged-IsCommitted :
    (before : State) (turn : Turn)
    → reusable turn.intent turn.tool_plan ≡ none
    → IsCommitted before turn (with_turn turn before)
unchanged-IsCommitted before turn e = record {
  history = with_turn-IsHistory turn before;
  summary = with_turn-summary turn before;
  map = unfold with_turn in refl;
  contexts = rw e (unfold with_turn in (refl, refl));
}

-- parts are there for the tools that are remembered, and only for them
abbrev Fits : Bool → Option Parts → Type 0
Fits true none = ⊥
Fits true (some p) = Unit
Fits false none = Unit
Fits false (some p) = ⊥

kept_parts-Fits : (r : Result Parts) → Ensures (Fits true) (r >>= λ p. ok (some p))
kept_parts-Fits (ok p) = tt
kept_parts-Fits (err e) = tt

module _ (as_int : String → Option ℤ) where
  with_query-IsCommitted :
      (before : State) (turn : Turn) (call : ToolCall) (p : Parts)
      → reusable turn.intent turn.tool_plan ≡ some call
      → Ensures (IsCommitted before turn) (with_query as_int turn call (with_turn turn before) p)
  unfolding with_query
  with_query-IsCommitted before turn call p e =
      Ensures-any (IsCommitted before turn) (map_result_reference turn.map_result) _ (λ ref.
        Ensures-any (IsCommitted before turn) (as_dict p.hard_filters) _ (λ filters.
          Ensures-any (IsCommitted before turn) (as_dict p.preferences) _ (λ preferences. record {
            history = with_turn-IsHistory turn before;
            summary = with_turn-summary turn before;
            map = unfold with_turn in refl;
            contexts = rw e (refl, refl, refl, refl);
          })))

  parts_of-Fits :
      (query : String) (call : ToolCall)
      → Ensures (Fits (is_remembered call.tool_name)) (parts_of as_int query call)
  unfolding parts_of
  parts_of-Fits query call =
      let districts = districts_from_query query in
      elim (Bool-cases (str_eq call.tool_name "searchHousingCandidates")) [
        | inl e ↦ rw e (kept_parts-Fits (housing_parts as_int districts call.arguments))
        | inr e ↦ elim (Bool-cases (str_eq call.tool_name "queryMapPoints")) [
          | inl f ↦ rw (e, f) (kept_parts-Fits (point_parts as_int districts call.arguments))
          | inr f ↦ elim (Bool-cases (str_eq call.tool_name "queryMapLines")) [
            | inl g ↦ rw (e, f, g) tt
            | inr g ↦ rw (e, f, g) tt
          ]
        ]
      ]

  with_parts-IsCommitted :
      (before : State) (turn : Turn) (call : ToolCall) (b : Bool) (o : Option Parts)
      → reusable turn.intent turn.tool_plan ≡ (if b then some call else none)
      → Fits b o
      → Ensures (IsCommitted before turn) (with_parts as_int turn call (with_turn turn before) o)
  with_parts-IsCommitted before turn call true none e h = absurd h
  with_parts-IsCommitted before turn call true (some p) e h =
      with_query-IsCommitted before turn call p e
  with_parts-IsCommitted before turn call false none e h = unchanged-IsCommitted before turn e
  with_parts-IsCommitted before turn call false (some p) e h = absurd h

  with_plan-IsCommitted :
      (before : State) (turn : Turn) (plan : List ToolCall)
      → turn.tool_plan ≡ plan
      → Ensures (IsCommitted before turn) (with_plan as_int turn (with_turn turn before) plan)
  with_plan-IsCommitted before turn [] e = unchanged-IsCommitted before turn (rw e refl)
  with_plan-IsCommitted before turn (call ∷ calls) e =
      elim (Bool-cases (is_map_query turn.intent)) [
        | inr f ↦ rw f (unchanged-IsCommitted before turn (rw (e, f) refl))
        | inl f ↦ rw f (
            Ensures-bind (Fits (is_remembered call.tool_name)) (IsCommitted before turn)
              (parts_of as_int turn.query call) _ (parts_of-Fits turn.query call)
              (λ o h.
                with_parts-IsCommitted before turn call (is_remembered call.tool_name) o
                  (rw (e, f) refl) h))
      ]

-- A state that is committed has at most 12 entries of history: the newest ones before the turn, of
-- which none is dropped before there are 12, and one of the turn, with its query cut to 500 and its
-- answer to 800 characters; the answer, cut to 2000 characters, as summary; and the map of the
-- request. The first call of a map query, if it is for one of the three tools, replaces the
-- reusable query, its tool and its arguments; otherwise the query and the entities stay as they were,
-- but for the business objects of the request.
pub build_committed_state-IsCommitted :
    (as_int : String → Option ℤ) (before : State) (turn : Turn)
    → Ensures (IsCommitted before turn) (build_committed_state as_int before turn)
unfolding build_committed_state
build_committed_state-IsCommitted as_int before turn =
    with_plan-IsCommitted as_int before turn turn.tool_plan refl
