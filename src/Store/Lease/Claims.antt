-- ===== src/Store/Lease/Claims.antt =====
-- app/agent/store.py: what `claim_next_run` claims, branch by branch.
use mathlib.Core.Option
use yjdlagent.Prelude.{
  ℕ, ◌+◌, ◌*◌, ◌≤◌, ◌≡◌, ◌≢◌, refl, ap, Bool, true, false, Option, none, some, List, [], ◌∷◌,
  String, arith, Option-cases, inl, inr, eq_iff,
}
use yjdlagent.Errors.{Result, ok}
use yjdlagent.Clock.{second}
use yjdlagent.Table.{first, any, row_count, update, patch}
use yjdlagent.Table.Laws.{first_has, first-update}
use yjdlagent.Store.Schema.{scope_of, Db, Run, running, has_id}
use yjdlagent.Store.Create.{state_version}
use yjdlagent.Store.Lease.{claimable, oldest, lease_to, claim_next_run}
use yjdlagent.Store.Operations.Leasing.{oldest_has, oldest-first}

-- `oldest` finds a row exactly when there is one, and no row that has `p` has an earlier text.
pub oldest-none : (p : Run → Bool) (rs : List Run) → oldest p rs ≡ none → any p rs ≡ false
unfolding oldest any
oldest-none p [] e = refl
oldest-none p (x ∷ rs) e = elim (Option-cases (oldest p rs)) [
  | inl z ↦ ground (arith, oldest-none p rs z)
  | inr (y, z) ↦ absurd (ground arith)
]

-- What a claim that returned `r` has done, where `old` is the row that it found.
pub record Claimed (w : String) (seconds now later : ℕ) (db db' : Db) (old r : Run) : Type 0 where
  -- the row that was found could be claimed: it was open, its lease was over by `now`, and the
  -- run that it depends on was terminal
  pub found : first (has_id r.run_id) db.runs ≡ some old
  pub was_claimable : claimable now db.runs old ≡ true
  pub stored : first (has_id r.run_id) db'.runs ≡ some r
  pub status : r.status ≡ running
  pub owner : r.lease_owner ≡ some w
  pub until : r.lease_until ≡ some (later + seconds * second)
  pub generation : r.lease_generation ≡ old.lease_generation + 1
  pub base :
      r.base_state_version
      ≡ state_version
          (record {
            tenant_id = r.tenant_id;
            user_id = r.user_id;
            conversation_id = r.conversation_id;
          })
          db'
  pub others : (k : String) → k ≢ r.run_id → first (has_id k) db'.runs ≡ first (has_id k) db.runs

module _ (w : String) (seconds now later : ℕ) (db : Db) (row : Run)
    (picked : oldest (claimable now db.runs) db.runs ≡ some row)
    (unique : row_count (has_id row.run_id) db.runs ≤ 1) where
  abbrev pub assigned : Run → Run
  assigned = lease_to w now (later + seconds * second) (state_version (scope_of row) db)

  abbrev pub runs_after : List Run
  runs_after = update (has_id row.run_id) assigned db.runs

  found_row : first (has_id row.run_id) db.runs ≡ some row
  found_row = oldest-first (claimable now db.runs) db.runs picked unique

  first-runs_after :
      (k : String)
      → first (has_id k) runs_after
        ≡ Option.map (patch (has_id row.run_id) assigned) (first (has_id k) db.runs)
  unfolding lease_to
  first-runs_after k = first-update (has_id row.run_id) (has_id k) assigned (λ r. refl) db.runs

  stored_row : first (has_id row.run_id) runs_after ≡ some (assigned row)
  stored_row =
      rw (first-runs_after row.run_id, found_row, first_has (has_id row.run_id) db.runs found_row)

  other_rows :
      (k : String) → k ≢ row.run_id → first (has_id k) runs_after ≡ first (has_id k) db.runs
  other_rows k ne = elim (Option-cases (first (has_id k) db.runs)) [
    | inl e ↦ rw (first-runs_after k, e)
    | inr (x, e) ↦
        rw (first-runs_after k, e)
          (ground (
            arith,
            ne,
            first_has (has_id k) db.runs e,
            eq_iff x.run_id k,
            eq_iff x.run_id row.run_id,
          ))
  ]

  Claimed-row : Claimed w seconds now later db (record db { runs = runs_after }) row (assigned row)
  unfolding lease_to state_version
  Claimed-row = record {
    found = found_row;
    was_claimable = oldest_has (claimable now db.runs) db.runs picked;
    stored = stored_row;
    status = refl;
    owner = refl;
    until = refl;
    generation = refl;
    base = refl;
    others = other_rows;
  }

  pub claim_result :
      claim_next_run w seconds now later db
      ≡ (ok (some (assigned row)), record db { runs = runs_after })
  unfolding claim_next_run
  claim_result = rw picked (rw stored_row)

claim_nothing :
    (w : String) (seconds now later : ℕ) (db : Db)
    → oldest (claimable now db.runs) db.runs ≡ none
    → claim_next_run w seconds now later db ≡ (ok none, db)
unfolding claim_next_run
claim_nothing w seconds now later db e = rw e

-- Where run ids are unique, a claim that returns a run has leased it: the run was open, its lease
-- was over and its dependency was terminal; it is now running under the caller with the next
-- generation, with the version of its conversation's state as its base, and no other run has
-- changed.
pub claim_next_run-some :
    (w : String) (seconds now later : ℕ) (db : Db) {r : Run}
    → ((k : String) → row_count (has_id k) db.runs ≤ 1)
    → (claim_next_run w seconds now later db).0 ≡ ok (some r)
    → (old : Run) × Claimed w seconds now later db (claim_next_run w seconds now later db).1 old r
claim_next_run-some w seconds now later db {r} u h =
    elim (Option-cases (oldest (claimable now db.runs) db.runs)) [
      | inl e ↦
          cc (ap (λ (c : Result (Option Run) × Db). c.0) (claim_nothing w seconds now later db e))
      | inr (row, e) ↦
          let result = claim_result w seconds now later db row e (u row.run_id) in
          let same : assigned w seconds now later db row e (u row.run_id) row ≡ r =
            cc (ap (λ (c : Result (Option Run) × Db). c.0) result) in
          (row, rw (result, ← same) (Claimed-row w seconds now later db row e (u row.run_id)))
    ]

-- Where run ids are unique, a claim that returns nothing found no claimable run, and has changed
-- nothing.
pub claim_next_run-none :
    (w : String) (seconds now later : ℕ) (db : Db)
    → ((k : String) → row_count (has_id k) db.runs ≤ 1)
    → (claim_next_run w seconds now later db).0 ≡ ok none
    → (any (claimable now db.runs) db.runs ≡ false)
      × ((claim_next_run w seconds now later db).1 ≡ db)
claim_next_run-none w seconds now later db u h =
    elim (Option-cases (oldest (claimable now db.runs) db.runs)) [
      | inl e ↦ (
        oldest-none (claimable now db.runs) db.runs e,
        ap (λ (c : Result (Option Run) × Db). c.1) (claim_nothing w seconds now later db e),
      )
      | inr (row, e) ↦ cc (
          ap (λ (c : Result (Option Run) × Db). c.0)
            (claim_result w seconds now later db row e (u row.run_id)))
    ]
