-- ===== src/Store/Trace/Queue.antt =====
-- The queue of open runs stays within the limit that `create_or_attach` is given.
use yjdlagent.Prelude.{
  ℕ, ◌≤◌, ◌≡◌, refl, true, false, Option, none, some, List, [], ◌∷◌, String, All, arith,
}
use native.Mathlib.Nat.{le_refl, le_trans}
use yjdlagent.Json.{Fields}
use yjdlagent.Table.{row_count, first}
use yjdlagent.Table.Laws.{row_count-update_le, row_count-append, All-imp}
use yjdlagent.Store.Schema.{Db, Run, Event, empty_db, nonterminal, has_id}
use yjdlagent.Store.Transaction.{settle}
use yjdlagent.Store.Create.{
  Submission, queue_full, create_new, attach_or, insert_run, create_or_attach_once,
  create_or_attach, run_of, new_run, dependency, state_version,
}
use yjdlagent.Store.Change.{WellFormed, Change, stays, creates, reassigns, appends}
use yjdlagent.Store.Trace.{
  Op, create, claim, renew, release, append, complete, remember, tool_started, tool_completed,
  orchestrated, sse_ended, staged, settled, is_create, step, execute,
}
use yjdlagent.Store.Trace.Invariant.{step-Change, step-WellFormed, empty-WellFormed}
use yjdlagent.Store.Ledger.{advance}

advance_open :
    (now : ℕ) (event_name : String) (payload : Fields) (route : Option String) (r : Run)
    → nonterminal (advance now event_name payload route r) ≡ true
    → nonterminal r ≡ true
unfolding advance
advance_open now event_name payload route r h = ground arith

All-of : {P : Run → Type 0} → ((r : Run) → P r) → (rs : List Run) → All P rs
All-of h [] = tt
All-of h (r ∷ rs) = (h r, All-of h rs)

Change-queue :
    {rs rs' : List Run} {es es' : List Event}
    → Change false rs es rs' es'
    → row_count nonterminal rs' ≤ row_count nonterminal rs
Change-queue stays = le_refl _
Change-queue {rs} (creates r g new live zero_seq dep) = cc
Change-queue {rs} (reassigns p f h) =
    row_count-update_le p nonterminal f rs (All-imp (λ r i t _. i t) rs h.open_only)
Change-queue {rs} (appends now event_name payload route run found live) =
    row_count-update_le (has_id run.run_id) nonterminal (advance now event_name payload route) rs
      (All-of (λ r _. advance_open now event_name payload route r) rs)

attach_or-queue :
    (now : ℕ) (k : String) (s : Submission) (n most : ℕ) (o : Option Run) (db : Db)
    → n ≤ most
    → row_count nonterminal db.runs ≤ most
    → row_count nonterminal (settle db (attach_or now k s (some n) o db)).1.runs ≤ most
unfolding attach_or create_new insert_run queue_full
attach_or-queue now k s n most (some x) db le h = ground arith
attach_or-queue now k s n most none db le h = ground (
  arith,
  row_count-append nonterminal db.runs
      (new_run now k s (dependency s.scope db) (state_version s.scope db)),
)

-- What a call may do to the queue: a creation is given a limit of at most `most`.
abbrev pub IsLimited : ℕ → Op → Type 0
IsLimited most (create now k s none) = ⊥
IsLimited most (create now k s (some n)) = n ≤ most
IsLimited most _ = Unit

quiet :
    (op : Op) (db : Db) (most : ℕ)
    → is_create op ≡ false
    → WellFormed db.runs db.events
    → row_count nonterminal db.runs ≤ most
    → row_count nonterminal (step op db).runs ≤ most
quiet op db most same w h = le_trans (Change-queue (rw same at (step-Change op db w))) h

step-queue :
    (op : Op) (db : Db) (most : ℕ)
    → IsLimited most op
    → WellFormed db.runs db.events
    → row_count nonterminal db.runs ≤ most
    → row_count nonterminal (step op db).runs ≤ most
step-queue (create now k s none) db most l w h = absurd l
step-queue (create now k s (some n)) db most l w h =
    unfold step create_or_attach create_or_attach_once in
    attach_or-queue now k s n most (first (run_of s.scope s.message_id) db.runs) db l h
step-queue (claim wk seconds now later) db most l w h = quiet _ db most refl w h
step-queue (renew k wk seconds g now later) db most l w h = quiet _ db most refl w h
step-queue (release k wk requeue g now) db most l w h = quiet _ db most refl w h
step-queue (append now k name payload route) db most l w h = quiet _ db most refl w h
step-queue (complete now k o limit state) db most l w h = quiet _ db most refl w h
step-queue (remember now s q a route m limit k) db most l w h = quiet _ db most refl w h
step-queue (tool_started digest now k call name arguments) db most l w h = quiet _ db most refl w h
step-queue (tool_completed now k call status ms retries code) db most l w h =
    quiet _ db most refl w h
step-queue (orchestrated now k ms status code) db most l w h = quiet _ db most refl w h
step-queue (sse_ended now k from last ms bytes status) db most l w h = quiet _ db most refl w h
step-queue (staged now k span) db most l w h = quiet _ db most refl w h
step-queue (settled row) db most l w h = quiet _ db most refl w h

execute_from-queue :
    (ops : List Op) (db : Db) (most : ℕ)
    → All (IsLimited most) ops
    → WellFormed db.runs db.events
    → row_count nonterminal db.runs ≤ most
    → row_count nonterminal (execute db ops).runs ≤ most
unfolding execute
execute_from-queue [] db most l w h = h
execute_from-queue (op ∷ ops) db most l w h =
    execute_from-queue ops (step op db) most l.1 (step-WellFormed op db w)
      (step-queue op db most l.0 w h)

-- Where every creation is given a limit of at most `most`, at most that many runs are open after
-- any calls from an empty store.
pub queue_bound :
    (ops : List Op) (most : ℕ)
    → All (IsLimited most) ops
    → row_count nonterminal (execute empty_db ops).runs ≤ most
queue_bound ops most l =
    execute_from-queue ops empty_db most l empty-WellFormed (unfold row_count in omega arith)
