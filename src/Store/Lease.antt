-- ===== src/Store/Lease.antt =====
-- app/agent/store.py: `claim_next_run`, `renew_lease` and `release_lease`. A worker holds a run by
-- a lease that ends at an instant, and each claim raises the generation of the lease.
pub mod Claims
use yjdlagent.Prelude.{
  ℕ, ◌+◌, ◌*◌, Bool, true, false, Option, none, some, List, [], ◌∷◌, String, ◌==◌, ◌&&◌, opt_eq,
  if◌then◌else◌,
}
use yjdlagent.Errors.{ok}
use yjdlagent.Clock.{second, iso_le}
use yjdlagent.Table.{first, row_count, any, update}
use yjdlagent.Store.Schema.{Status, queued, running, Run, terminal, nonterminal, has_id, scope_of}
use yjdlagent.Store.Create.{state_version}
use yjdlagent.Store.Transaction.{Body, Call, connect}

-- lease_until IS NULL OR lease_until <= now
abbrev pub lease_over : ℕ → Option ℕ → Bool
lease_over now none = true
lease_over now (some until) = iso_le until now

-- depends_on_run_id IS NULL OR depends_on_run_id IN (SELECT run_id ... terminal)
abbrev pub dependency_done : List Run → Option String → Bool
dependency_done runs none = true
dependency_done runs (some d) = any (λ (r : Run). terminal r && has_id d r) runs

abbrev pub claimable : ℕ → List Run → Run → Bool
claimable now runs r =
    nonterminal r && lease_over now r.lease_until && dependency_done runs r.depends_on_run_id

-- ORDER BY created_at LIMIT 1
unfoldable pub oldest : (Run → Bool) → List Run → Option Run
oldest p [] = none
oldest p (r ∷ rs) = elim (oldest p rs) [
  | none ↦ if p r then some r else none
  | some s ↦ if p r && iso_le r.created_at s.created_at then some r else some s
]

-- The assignments of the UPDATE.
unfoldable pub lease_to : String → ℕ → ℕ → ℕ → Run → Run
lease_to worker_id now until version r = record r {
  status = running;
  lease_owner = some worker_id;
  lease_until = some until;
  lease_generation = r.lease_generation + 1;
  updated_at = now;
  base_state_version = version;
}

unfoldable pub claim_row : String → ℕ → ℕ → Option Run → Body (Option Run)
unfolding lease_to state_version update
claim_row worker_id now until none db = ok (none, db)
claim_row worker_id now until (some row) db =
    let assign = lease_to worker_id now until (state_version (scope_of row) db) in
    let runs = update (has_id row.run_id) assign db.runs in
    ok (first (has_id row.run_id) runs, record db { runs = runs })

-- `now` and `later` are the two readings of the clock.
unfoldable pub claim_next_run : String → ℕ → ℕ → ℕ → Call (Option Run)
unfolding claim_row oldest connect iso_le any
claim_next_run worker_id lease_seconds now later = connect λ db.
    claim_row worker_id now (later + lease_seconds * second)
      (oldest (claimable now db.runs) db.runs) db

-- the clause ` AND lease_generation = ?`, if a generation is given
abbrev pub generation_is : Option ℕ → Run → Bool
generation_is none r = true
generation_is (some g) r = r.lease_generation == g

abbrev pub is_running : Status → Bool
is_running running = true
is_running _ = false

-- WHERE run_id = ? AND lease_owner = ? AND status = 'RUNNING' [AND lease_generation = ?]
abbrev pub renewable : String → String → Option ℕ → Run → Bool
renewable run_id worker_id generation r =
    has_id run_id r
    && opt_eq r.lease_owner (some worker_id)
    && is_running r.status
    && generation_is generation r

unfoldable pub renew_lease : String → String → ℕ → Option ℕ → ℕ → ℕ → Call Bool
unfolding connect update row_count
renew_lease run_id worker_id lease_seconds generation now later = connect λ db.
    let p = renewable run_id worker_id generation in
    ok (
      row_count p db.runs == 1,
      record db {
        runs =
            update p
              (λ (r : Run). record r {
                lease_until = some (now + lease_seconds * second);
                updated_at = later;
              })
              db.runs;
      },
    )

-- WHERE run_id = ? AND lease_owner = ? AND status IN ('QUEUED', 'RUNNING') [AND ...]
abbrev pub releasable : String → String → Option ℕ → Run → Bool
releasable run_id worker_id generation r =
    has_id run_id r
    && opt_eq r.lease_owner (some worker_id)
    && nonterminal r
    && generation_is generation r

unfoldable pub release_lease : String → String → Bool → Option ℕ → ℕ → Call Bool
unfolding connect update row_count
release_lease run_id worker_id requeue generation now = connect λ db.
    let p = releasable run_id worker_id generation in
    ok (
      row_count p db.runs == 1,
      record db {
        runs =
            update p
              (λ (r : Run). record r {
                status = if requeue then queued else r.status;
                lease_owner = none;
                lease_until = none;
                updated_at = now;
              })
              db.runs;
      },
    )
