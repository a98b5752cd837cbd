-- ===== src/Store/Replay.antt =====
-- app/agent/store.py: the reads of runs and events, `get_run`, `list_nonterminal_runs`,
-- `list_events`, `has_tool_event` and `pending_tool_calls`.
use yjdlagent.Prelude.{
  ℕ, ◌+◌, ◌-◌, ◌*◌, Bool, false, not, Option, none, some, List, [], ◌∷◌, String, ltb, ◌&&◌, ◌||◌,
  str_eq, opt_eq, if◌then◌else◌, min,
}
use yjdlagent.Json.{text, get}
use yjdlagent.Errors.{
  Result, ok, err, agent_error, run_not_found_error, event_history_expired_error,
}
use yjdlagent.Clock.{second, iso_le, iso_rank}
use yjdlagent.Table.{select, first, any, order_by}
use yjdlagent.Store.Schema.{Run, nonterminal, Event, Db, has_id, of_run}

abbrev found : Option Run → Result Run
found none = err (agent_error run_not_found_error)
found (some r) = ok r

unfoldable pub get_run : String → String → String → Db → Result Run
unfolding first
get_run run_id tenant_id user_id db = found (
    first (λ (r : Run). has_id run_id r && str_eq r.tenant_id tenant_id && str_eq r.user_id user_id)
      db.runs)

unfoldable pub get_run_unscoped : String → Db → Result Run
unfolding first
get_run_unscoped run_id db = found (first (has_id run_id) db.runs)

unfoldable pub list_nonterminal_runs : Db → List Run
unfolding select order_by
list_nonterminal_runs db =
    order_by (λ (r : Run). iso_rank r.created_at) (select nonterminal db.runs)

-- run_id = ? AND created_at >= cutoff
abbrev pub retained : String → ℕ → Event → Bool
retained run_id cutoff e = of_run run_id e && iso_le cutoff e.created_at

-- SELECT MIN(sequence)
unfoldable pub min_sequence : List Event → Option ℕ
min_sequence [] = none
min_sequence (e ∷ es) = elim (min_sequence es) [
  | none ↦ some e.sequence
  | some n ↦ some (min e.sequence n)
]

-- the two tests before the rows are read
abbrev pub history_lost : Option ℕ → ℕ → ℕ → Bool
history_lost none last_sequence after_sequence = ltb after_sequence last_sequence
history_lost (some earliest) last_sequence after_sequence = ltb (after_sequence + 1) earliest

unfoldable pub replay : String → ℕ → ℕ → Run → List Event → Result (List Event)
unfolding select min_sequence order_by iso_le
replay run_id after_sequence cutoff run events =
    if history_lost (min_sequence (select (retained run_id cutoff) events)) run.last_sequence
      after_sequence
    then err (agent_error event_history_expired_error)
    else ok (
        order_by (λ (e : Event). e.sequence)
          (select (λ (e : Event). retained run_id cutoff e && ltb after_sequence e.sequence)
            events))

-- The cutoff is `now` less the retention, and the epoch where that would be before it.
unfoldable pub list_events : ℕ → ℕ → String → ℕ → Db → Result (List Event)
unfolding replay first
list_events retention now run_id after_sequence db = elim (first (has_id run_id) db.runs) [
  | none ↦ err (agent_error run_not_found_error)
  | some run ↦ replay run_id after_sequence (now - retention * second) run db.events
]

-- json.loads(data_json).get("payload", {}).get("toolCallId"), where it is a text
unfoldable pub payload_text : String → Event → Option String
unfolding get
payload_text key e = elim (get "payload" e.data_json) [
  | none ↦ none
  | some payload ↦ elim (get key payload) [ some (text id) ↦ some id | _ ↦ none ]
]

abbrev pub is_tool_event : String → Bool
is_tool_event name = str_eq name "tool.started" || str_eq name "tool.completed"

unfoldable pub has_tool_event : String → String → String → Db → Bool
unfolding any payload_text
has_tool_event run_id event_name tool_call_id db =
    if is_tool_event event_name
    then any
        (λ (e : Event).
          of_run run_id e
          && str_eq e.event_name event_name
          && opt_eq (payload_text "toolCallId" e) (some tool_call_id))
        db.events
    else false

-- A pending call: its id and the name of its tool.
pub record ToolCall : Type 0 where
  pub tool_call_id : String
  pub tool_name : Option String

-- started[tool_call_id] = payload: an old key keeps its place
unfoldable pub put_call : ToolCall → List ToolCall → List ToolCall
put_call c [] = c ∷ []
put_call c (d ∷ ds) = if str_eq d.tool_call_id c.tool_call_id then c ∷ ds else d ∷ put_call c ds

-- `if not tool_call_id: continue`
abbrev pub tool_call_of : Event → Option ToolCall
tool_call_of e = elim (payload_text "toolCallId" e) [
  | none ↦ none
  | some id ↦
      if str_eq id ""
      then none
      else some (record { tool_call_id = id; tool_name = payload_text "toolName" e })
]

-- The dict `started` after the events, in their order.
unfoldable pub started_calls : List Event → List ToolCall → List ToolCall
unfolding put_call payload_text
started_calls [] calls = calls
started_calls (e ∷ es) calls = elim (tool_call_of e) [
  | none ↦ started_calls es calls
  | some c ↦
      started_calls es (if str_eq e.event_name "tool.started" then put_call c calls else calls)
]

-- `tool_call_id in completed`
abbrev pub completes : ToolCall → Event → Bool
completes c e =
    not (str_eq e.event_name "tool.started")
    && opt_eq (payload_text "toolCallId" e) (some c.tool_call_id)

unfoldable pub pending_tool_calls : String → Db → List ToolCall
unfolding started_calls any select order_by
pending_tool_calls run_id db =
    let rows =
      order_by (λ (e : Event). e.sequence)
        (select (λ (e : Event). of_run run_id e && is_tool_event e.event_name) db.events) in
    select (λ (c : ToolCall). not (any (completes c) rows)) (started_calls rows [])
