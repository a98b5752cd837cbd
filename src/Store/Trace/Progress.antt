-- ===== src/Store/Trace/Progress.antt =====
-- No deadlock: dependencies point to older runs, so the oldest open run can always be claimed.
use mathlib.Core.List.{append_assoc}
use yjdlagent.Prelude.{
  ℕ, ◌≡◌, refl, true, Option, none, some, List, [], ◌∷◌, ◌++◌, String, All, All-append, arith,
  Bool-cases, Option-cases, inl, inr, ◌&&◌, ap,
}
use yjdlagent.Errors.{ok, Result}
use yjdlagent.Table.{any}
use yjdlagent.Table.Laws.{any-append_left, any-All}
use yjdlagent.Store.Schema.{Db, Run, empty_db, terminal, nonterminal, has_id}
use yjdlagent.Store.Lease.{lease_over, dependency_done, claimable, oldest, claim_next_run}
use yjdlagent.Store.Lease.Claims.{claim_result, oldest-none}
use yjdlagent.Store.Change.{DependsBack, DependencyAmong}
use yjdlagent.Store.Trace.{Op, execute}
use yjdlagent.Store.Trace.Invariant.{execute-WellFormed}

abbrev IsFree : ℕ → Run → Type 0
IsFree now r = nonterminal r ≡ true → lease_over now r.lease_until ≡ true

done_of_terminal :
    (seen rest : List Run) (d : Option String)
    → All (λ r. terminal r ≡ true) seen
    → DependencyAmong seen d
    → dependency_done (seen ++ rest) d ≡ true
done_of_terminal seen rest none h e = refl
done_of_terminal seen rest (some d) h e =
    any-append_left (λ (r : Run). terminal r && has_id d r) seen rest
      (any-All (λ r. terminal r ≡ true) (has_id d) (λ r. terminal r && has_id d r)
        (λ r t i. ground arith) seen h e)

any-claimable :
    (now : ℕ) (rs seen : List Run)
    → DependsBack seen rs
    → All (λ r. terminal r ≡ true) seen
    → All (IsFree now) rs
    → any nonterminal rs ≡ true
    → any (claimable now (seen ++ rs)) rs ≡ true
unfolding any
any-claimable now [] seen d t f e = e
any-claimable now (r ∷ rs) seen d t f e = elim (Bool-cases (nonterminal r)) [
  | inl live ↦
      let done : dependency_done (seen ++ r ∷ rs) r.depends_on_run_id ≡ true =
        done_of_terminal seen (r ∷ rs) r.depends_on_run_id t d.0 in
      rw (live, f.0 live, done)
  | inr ended ↦
      let rest =
        any-claimable now rs (seen ++ r ∷ []) d.1
          (All-append (λ x. terminal x ≡ true) seen (r ∷ []) t (ground arith, tt)) f.1
          (rw ended at e) in
      rw ended (rw append_assoc at rest)
]

-- After any calls from an empty store, where some run is open and no open run has a lease that
-- lasts beyond `now`, a claim returns a run: no chain of dependencies blocks the queue.
pub claim_progress :
    (ops : List Op) (w : String) (seconds now later : ℕ)
    → any nonterminal (execute empty_db ops).runs ≡ true
    → All
        (λ r. nonterminal r ≡ true → lease_over now r.lease_until ≡ true)
        (execute empty_db ops).runs
    → (r : Run) × ((claim_next_run w seconds now later (execute empty_db ops)).0 ≡ ok (some r))
claim_progress ops w seconds now later some_open free =
    let db = execute empty_db ops in
    let wf = execute-WellFormed ops in
    let found = any-claimable now db.runs [] wf.depends_back tt free some_open in
    elim (Option-cases (oldest (claimable now db.runs) db.runs)) [
      | inl e ↦ absurd (ground (arith, oldest-none (claimable now db.runs) db.runs e, found))
      | inr (row, e) ↦ (
        _,
        ap (λ (c : Result (Option Run) × Db). c.0)
            (claim_result w seconds now later db row e (wf.unique_ids row.run_id)),
      )
    ]
