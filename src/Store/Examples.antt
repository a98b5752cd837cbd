-- ===== src/Store/Examples.antt =====
-- Runs of the store on small inputs, and the theorems about it at such inputs.
mod Messages
mod Retries
use yjdlagent.Prelude.{◌≤◌, ◌≡◌, refl, true, false, none, some, List, [], ◌∷◌, ◌++◌, All, arith}
use yjdlagent.Json.{dict, text, end, arr, nil}
use yjdlagent.Errors.{ok}
use yjdlagent.Table.{row_count, first, any}
use yjdlagent.Store.Schema.{queued, running, cancelled, Run, Scope, empty_db, nonterminal, has_id}
use yjdlagent.Store.Create.{Submission, create_or_attach}
use yjdlagent.Store.Lease.{claimable, lease_over, claim_next_run, renew_lease, release_lease}
use yjdlagent.Store.Lease.Claims.{Claimed, claim_next_run-some, claim_next_run-none}
use yjdlagent.Store.Ledger.{append_event, advance}
use yjdlagent.Store.Change.{WellFormed}
use yjdlagent.Store.Trace.{Op, create, claim, append, step, execute}
use yjdlagent.Store.Trace.Invariant.{execute-WellFormed}
use yjdlagent.Store.Trace.Rows.{Follows, execute-Follows}
use yjdlagent.Store.Trace.Fencing.{stale_lease_fenced, after_claim}
use yjdlagent.Store.Trace.Progress.{claim_progress}
use yjdlagent.Store.Trace.Queue.{queue_bound}

abbrev pub harbour : Scope
harbour = record { tenant_id = "t"; user_id = "u"; conversation_id = "c" }

abbrev pub question : Submission
question = record {
  scope = harbour;
  message_id = "m1";
  trace_id = "trace";
  request = dict (("query", text "walkability") ∷ []);
  request_hash = "h1";
}

abbrev pub follow_up : Submission
follow_up = record question { message_id = "m2"; request_hash = "h2" }

abbrev pub two_runs : List Op
two_runs = create 1500000 "run1" question (some 5) ∷ create 1600000 "run2" follow_up (some 5) ∷ []

abbrev pub finished : List Op
finished =
    create 1500000 "run1" question (some 5)
    ∷ claim "w1" 30 1700000 1700001
    ∷ append 1800000 "run1" "run.cancelled" end none
    ∷ []

-- the first run as it is created, and as a worker claims it
abbrev pub queued_run : Run
queued_run = record {
  run_id = "run1";
  conversation_id = "c";
  message_id = "m1";
  tenant_id = "t";
  user_id = "u";
  trace_id = "trace";
  status = queued;
  request_hash = "h1";
  request = dict (("query", text "walkability") ∷ []);
  last_sequence = 0;
  route = none;
  answer = none;
  citations = arr nil;
  warnings = arr nil;
  error = none;
  created_at = 1500000;
  updated_at = 1500000;
  lease_owner = none;
  lease_until = none;
  lease_generation = 0;
  depends_on_run_id = none;
  base_state_version = 0;
}

abbrev pub claimed_run : Run
claimed_run = record queued_run {
  status = running;
  updated_at = 1700000;
  lease_owner = some "w1";
  lease_until = some 31700001;
  lease_generation = 1;
}

abbrev pub cancelled_run : Run
cancelled_run = record queued_run {
  status = cancelled;
  last_sequence = 1;
  updated_at = 1800000;
  lease_generation = 1;
}

abbrev pub reclaimed_run : Run
reclaimed_run = record claimed_run {
  updated_at = 40000001;
  lease_owner = some "w2";
  lease_until = some 70000002;
  lease_generation = 2;
}

-- two runs wait in one conversation, and the first can be claimed
claims_first :
    (claim_next_run "w1" 30 1700000 1700001 (execute empty_db two_runs)).0 ≡ ok (some claimed_run)
unfolding claim_next_run execute step create_or_attach
claims_first = refl

-- while the lease lasts nothing can be claimed; the second run waits for the first
claims_nothing :
    (claim_next_run "w2" 30 1700000 1700001
      (execute empty_db (two_runs ++ claim "w1" 30 1700000 1700001 ∷ []))).0
    ≡ ok none
unfolding claim_next_run execute step create_or_attach
claims_nothing = refl

claims_again :
    (claim_next_run "w2" 30 40000001 40000002
      (after_claim "w1" 30 1700000 1700001 (execute empty_db two_runs) [])).0
    ≡ ok (some reclaimed_run)
unfolding claim_next_run execute step create_or_attach
claims_again = refl

pub ends_cancelled : first (has_id "run1") (execute empty_db finished).runs ≡ some cancelled_run
unfolding execute step create_or_attach claim_next_run append_event first advance
ends_cancelled = refl

execute-WellFormed_example :
    WellFormed (execute empty_db two_runs).runs (execute empty_db two_runs).events
execute-WellFormed_example = execute-WellFormed two_runs

execute-Follows_example :
    (b : Run) × (first (has_id "run1") (execute (execute empty_db finished) two_runs).runs ≡ some b)
    × Follows cancelled_run b
execute-Follows_example =
    execute-Follows two_runs (execute empty_db finished) "run1" (execute-WellFormed finished)
      ends_cancelled

claim_next_run-some_example :
    (old : Run) × Claimed "w1" 30 1700000 1700001
      (execute empty_db two_runs)
      (claim_next_run "w1" 30 1700000 1700001 (execute empty_db two_runs)).1
      old
      claimed_run
claim_next_run-some_example =
    claim_next_run-some "w1" 30 1700000 1700001 (execute empty_db two_runs)
      (execute-WellFormed two_runs).unique_ids claims_first

claim_next_run-none_example :
    (any
        (claimable 1700000 (execute empty_db (two_runs ++ claim "w1" 30 1700000 1700001 ∷ [])).runs)
        (execute empty_db (two_runs ++ claim "w1" 30 1700000 1700001 ∷ [])).runs
      ≡ false)
    × ((claim_next_run "w2" 30 1700000 1700001
          (execute empty_db (two_runs ++ claim "w1" 30 1700000 1700001 ∷ []))).1
        ≡ execute empty_db (two_runs ++ claim "w1" 30 1700000 1700001 ∷ []))
claim_next_run-none_example =
    claim_next_run-none "w2" 30 1700000 1700001
      (execute empty_db (two_runs ++ claim "w1" 30 1700000 1700001 ∷ []))
      (execute-WellFormed (two_runs ++ claim "w1" 30 1700000 1700001 ∷ [])).unique_ids
      claims_nothing

stale_lease_fenced_example :
    let final =
      after_claim "w2" 30 40000001 40000002
        (after_claim "w1" 30 1700000 1700001 (execute empty_db two_runs) [])
        [] in
    (renew_lease "run1" "w1" 30 (some 1) 40000003 40000004 final ≡ (ok false, final))
    × (release_lease "run1" "w1" true (some 1) 40000003 final ≡ (ok false, final))
stale_lease_fenced_example =
    stale_lease_fenced (execute empty_db two_runs) "w1" "w2" 30 30 1700000 40000001 1700001 40000002
      [] [] (execute-WellFormed two_runs) claims_first claims_again refl 30 40000003 40000004 true

some_run_open : any nonterminal (execute empty_db two_runs).runs ≡ true
unfolding any execute step create_or_attach
some_run_open = refl

leases_over :
    All
      (λ r. nonterminal r ≡ true → lease_over 1700000 r.lease_until ≡ true)
      (execute empty_db two_runs).runs
unfolding execute step create_or_attach
leases_over = ((λ _. refl), ((λ _. refl), tt))

claim_progress_example :
    (r : Run) × ((claim_next_run "w1" 30 1700000 1700001 (execute empty_db two_runs)).0
      ≡ ok (some r))
claim_progress_example = claim_progress two_runs "w1" 30 1700000 1700001 some_run_open leases_over

queue_bound_example : row_count nonterminal (execute empty_db two_runs).runs ≤ 5
queue_bound_example = queue_bound two_runs 5 (omega arith)
