-- ===== src/Store/Trace/Fencing.antt =====
-- A worker whose run was claimed again can neither renew nor release the lease that it lost.
use yjdlagent.Prelude.{ℕ, ◌+◌, ◌≤◌, ◌≡◌, sym, ◌∙◌, Bool, false, some, List, String, arith}
use yjdlagent.Errors.{ok}
use yjdlagent.Table.{first, row_count}
use yjdlagent.Table.Laws.{All-unique, All-imp, All-row_count, update-none}
use yjdlagent.Store.Schema.{Db, Run, has_id}
use yjdlagent.Store.Lease.{claim_next_run, renewable, renew_lease, releasable, release_lease}
use yjdlagent.Store.Lease.Claims.{claim_next_run-some}
use yjdlagent.Store.Change.{WellFormed}
use yjdlagent.Store.Trace.{Op, claim, step, execute}
use yjdlagent.Store.Trace.Invariant.{step-WellFormed, execute_from-WellFormed}
use yjdlagent.Store.Trace.Rows.{execute-Follows}

module _ (k w : String) (g : ℕ) (db : Db) (unique : row_count (has_id k) db.runs ≤ 1) {c : Run}
    (row : first (has_id k) db.runs ≡ some c) (newer : g + 1 ≤ c.lease_generation) where
  -- no row has the id and the old generation
  not_renewable : row_count (renewable k w (some g)) db.runs ≡ 0
  not_renewable =
      All-row_count (renewable k w (some g)) db.runs (
        All-imp (λ x same. ground (arith, same)) db.runs (All-unique (has_id k) db.runs unique row))

  not_releasable : row_count (releasable k w (some g)) db.runs ≡ 0
  not_releasable =
      All-row_count (releasable k w (some g)) db.runs (
        All-imp (λ x same. ground (arith, same)) db.runs (All-unique (has_id k) db.runs unique row))

  renew_refused :
      (seconds now later : ℕ) → renew_lease k w seconds (some g) now later db ≡ (ok false, db)
  unfolding renew_lease
  renew_refused seconds now later = rw (not_renewable, update-none _ _ db.runs not_renewable)

  release_refused :
      (requeue : Bool) (now : ℕ) → release_lease k w requeue (some g) now db ≡ (ok false, db)
  unfolding release_lease
  release_refused requeue now = rw (not_releasable, update-none _ _ db.runs not_releasable)

abbrev pub after_claim : String → ℕ → ℕ → ℕ → Db → List Op → Db
after_claim w seconds now later db ops = execute (claim_next_run w seconds now later db).1 ops

after_claim-WellFormed :
    (w : String) (seconds now later : ℕ) (db : Db) (ops : List Op)
    → WellFormed db.runs db.events
    → WellFormed
        (after_claim w seconds now later db ops).runs
        (after_claim w seconds now later db ops).events
unfolding step
after_claim-WellFormed w seconds now later db ops wf =
    execute_from-WellFormed ops (claim_next_run w seconds now later db).1
      (step-WellFormed (claim w seconds now later) db wf)

-- The row of a claimed run after any further calls: its generation is at least the claimed one.
claimed_generation :
    (w : String) (seconds now later : ℕ) (db : Db) (ops : List Op) {r : Run}
    → WellFormed db.runs db.events
    → (claim_next_run w seconds now later db).0 ≡ ok (some r)
    → (b : Run) × (first (has_id r.run_id) (after_claim w seconds now later db ops).runs ≡ some b)
      × (r.lease_generation ≤ b.lease_generation)
unfolding step
claimed_generation w seconds now later db ops wf h =
    let (old, c) = claim_next_run-some w seconds now later db wf.unique_ids h in
    let (b, e, f) =
      execute-Follows ops (claim_next_run w seconds now later db).1 _
        (step-WellFormed (claim w seconds now later) db wf) c.stored in
    (b, e, f.generation)

-- In a well-formed store a worker `w` claims a run; then, after any calls, the same run is
-- claimed again, by any worker. After any further calls `w` can neither renew nor release the
-- lease with the generation that it was given: both return False and change nothing.
pub stale_lease_fenced :
    (db : Db) (w w' : String) (seconds seconds' now now' later later' : ℕ) (between after : List Op)
    {r r' : Run}
    → WellFormed db.runs db.events
    → (claim_next_run w seconds now later db).0 ≡ ok (some r)
    → (claim_next_run w' seconds' now' later' (after_claim w seconds now later db between)).0
      ≡ ok (some r')
    → r'.run_id ≡ r.run_id
    → (s n l : ℕ) (requeue : Bool)
    → let final =
        after_claim w' seconds' now' later' (after_claim w seconds now later db between) after in
      (renew_lease r.run_id w s (some r.lease_generation) n l final ≡ (ok false, final))
      × (release_lease r.run_id w requeue (some r.lease_generation) n final ≡ (ok false, final))
stale_lease_fenced db w w' seconds seconds' now now' later later' between after {r} {r'} wf h h'
      same s n l requeue =
    let mid = after_claim w seconds now later db between in
    let wf_mid = after_claim-WellFormed w seconds now later db between wf in
    let final = after_claim w' seconds' now' later' mid after in
    let wf_final = after_claim-WellFormed w' seconds' now' later' mid after wf_mid in
    let (b, found_b, grown) = claimed_generation w seconds now later db between wf h in
    let (old, claimed) = claim_next_run-some w' seconds' now' later' mid wf_mid.unique_ids h' in
    let (c, found_c, grown') = claimed_generation w' seconds' now' later' mid after wf_mid h' in
    let twin : some old ≡ some b = sym (rw same at claimed.found) ∙ found_b in
    let row : first (has_id r.run_id) final.runs ≡ some c = rw same at found_c in
    let newer : r.lease_generation + 1 ≤ c.lease_generation =
      ground (arith, twin, claimed.generation, grown, grown') in
    (
      renew_refused r.run_id w r.lease_generation final (wf_final.unique_ids r.run_id) row newer s n
          l,
      release_refused r.run_id w r.lease_generation final (wf_final.unique_ids r.run_id) row newer
          requeue n,
    )
