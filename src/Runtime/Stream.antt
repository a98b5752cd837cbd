-- ===== src/Runtime/Stream.antt =====
-- app/agent/runtime.py: `stream_events`, which sends the events of a run until it has ended, and
-- `status_data`. The JSON text of a value and of a number are `json.dumps` and `str`, parameters, and
-- so is the number of bytes of a text in UTF-8.
pub mod Complete
use Prim.Native.String.{◌++◌ as cat}
use yjdlagent.Prelude.{
  ℕ, ◌+◌, Bool, true, false, Option, none, some, List, [], ◌∷◌, ◌++◌, String, leb, ◌&&◌, str_eq,
  if◌then◌else◌,
}
use yjdlagent.Json.{Json, null, text, num, iso, dict, truthy}
use yjdlagent.Errors.{Result, ok, err, Exception}
use yjdlagent.Store.Schema.{
  Db, Run, Event, Status, queued, running, succeeded, failed, cancelled, terminal,
}
use yjdlagent.Store.Replay.{get_run, list_events}
use yjdlagent.Store.Metrics.{record_sse_stream}
use yjdlagent.Runtime.Calls.{logged}

-- The local variables of the loop, and what was yielded, with the events that were sent.
pub record Stream : Type 0 where
  pub last_sequence : ℕ
  pub bytes_sent : ℕ
  pub heartbeat_at : ℕ
  pub chunks : List String
  pub events : List Event

-- How a round ends.
pub data Round : Type 0 where
  goes_on : Stream → Round
  completed : Stream → Round
  raised : Exception → Stream → Round

-- What a round reads: the store twice, the clock of the store, and that of the loop.
pub record Moment : Type 0 where
  pub listed : Db
  pub checked : Db
  pub now : ℕ
  pub loop_time : ℕ

module _ (json_text : Json → String) (decimal : ℕ → String) (byte_count : String → ℕ) where
  -- EventRecord.to_sse
  unfoldable pub to_sse : Event → String
  to_sse e = cat "id: " (
      cat (cat e.event_id.0 (cat ":" (decimal e.event_id.1)))
        (cat "\nevent: " (cat e.event_name (cat "\ndata: " (cat (json_text e.data_json) "\n\n")))))

  abbrev yielded : String → Stream → Stream
  yielded chunk s = record s {
    bytes_sent = s.bytes_sent + byte_count chunk;
    chunks = s.chunks ++ chunk ∷ [];
  }

  -- the inner loop
  unfoldable pub send_events : List Event → Stream → Stream
  unfolding to_sse
  send_events [] s = s
  send_events (e ∷ es) s =
      send_events es
        (record (yielded (to_sse e) s) { last_sequence = e.sequence; events = s.events ++ e ∷ [] })

  -- the heartbeat, where it is due
  unfoldable pub beat : ℕ → ℕ → Stream → Stream
  beat interval time s =
      if leb s.heartbeat_at time
      then record (yielded ": heartbeat\n\n" s) { heartbeat_at = time + interval }
      else s

  unfoldable pub after_events : ℕ → ℕ → Result Run → Stream → Round
  unfolding beat
  after_events interval time (err e) s = raised e s
  after_events interval time (ok run) s =
      if terminal run && leb run.last_sequence s.last_sequence
      then completed s
      else goes_on (beat interval time s)

  -- the body of `while True`
  unfoldable pub stream_round : ℕ → ℕ → String → String → String → Moment → Stream → Round
  unfolding send_events after_events list_events get_run
  stream_round retention interval run_id tenant_id user_id m s =
      elim (list_events retention m.now run_id s.last_sequence m.listed) [
        | err e ↦ raised e s
        | ok es ↦
            after_events interval m.loop_time (get_run run_id tenant_id user_id m.checked)
              (send_events es s)
      ]

  -- The rounds, until the stream ends or the client goes away after the last moment.
  unfoldable pub rounds : ℕ → ℕ → String → String → String → List Moment → Stream → String × Stream
  rounds retention interval run_id tenant_id user_id [] s = ("DISCONNECTED", s)
  rounds retention interval run_id tenant_id user_id (m ∷ ms) s =
      let next = rounds retention interval run_id tenant_id user_id ms in
      elim (stream_round retention interval run_id tenant_id user_id m s) [
        | goes_on s' ↦ next s'
        | completed s' ↦ ("COMPLETED", s')
        | raised e s' ↦ ("FAILED", s')
      ]

  -- the loop of `stream_events`, and the metrics that its `finally` block records
  unfoldable pub stream_loop :
      ℕ → ℕ → String → String → String → ℕ → ℕ → List Moment → Stream × (ℕ → ℕ → Db → Db)
  unfolding rounds record_sse_stream
  stream_loop retention interval run_id tenant_id user_id after_sequence started ms =
      let outcome = rounds retention interval run_id tenant_id user_id ms (record {
        last_sequence = after_sequence;
        bytes_sent = 0;
        heartbeat_at = started + interval;
        chunks = [];
        events = [];
      }) in
      (
        outcome.1,
        λ now duration_ms db.
            logged
              (record_sse_stream now run_id after_sequence outcome.1.last_sequence duration_ms
                outcome.1.bytes_sent outcome.0)
              db,
      )

  -- `stream_events`, which first reads the run of the user
  unfoldable pub stream_events :
      ℕ
      → ℕ
      → String
      → String
      → String
      → ℕ
      → ℕ
      → Db
      → List Moment
      → Result (Stream × (ℕ → ℕ → Db → Db))
  unfolding stream_loop get_run
  stream_events retention interval run_id tenant_id user_id after_sequence started db ms =
      elim (get_run run_id tenant_id user_id db) [
        | err e ↦ err e
        | ok run ↦
            ok (stream_loop retention interval run_id tenant_id user_id after_sequence started ms)
      ]

abbrev status_text : Status → String
status_text queued = "QUEUED"
status_text running = "RUNNING"
status_text succeeded = "SUCCEEDED"
status_text failed = "FAILED"
status_text cancelled = "CANCELLED"

abbrev or_null : Option Json → Json
or_null none = null
or_null (some j) = j

-- run.answer or ""
abbrev answer_or_empty : Option Json → Json
answer_or_empty none = text ""
answer_or_empty (some j) = if truthy j then j else text ""

unfoldable pub completed_data : Run → Json
unfolding truthy
completed_data run = dict (
    ("status", text "SUCCEEDED")
    ∷ ("answer", answer_or_empty run.answer)
    ∷ ("citations", run.citations)
    ∷ ("warnings", run.warnings)
    ∷ [])

abbrev completed_of : Run → Status → Json
completed_of run succeeded = completed_data run
completed_of run _ = null

unfoldable pub status_data : Run → Json
unfolding completed_data
status_data run = dict (
    ("runId", text run.run_id)
    ∷ ("status", text (status_text run.status))
    ∷ ("lastSequence", num run.last_sequence)
    ∷ ("createdAt", iso run.created_at)
    ∷ ("updatedAt", iso run.updated_at)
    ∷ ("completed", completed_of run run.status)
    ∷ ("error", or_null run.error)
    ∷ [])
