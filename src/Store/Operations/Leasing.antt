-- ===== src/Store/Operations/Leasing.antt =====
-- Claiming a run, and renewing and releasing its lease, make one of the four changes.
use yjdlagent.Prelude.{
  false, ℕ, ◌+◌, ◌*◌, ◌≤◌, ◌≡◌, refl, Bool, true, Option, some, List, [], ◌∷◌, String, All, arith,
  Option-cases, inl, inr, eq_iff,
}
use yjdlagent.Clock.{second}
use yjdlagent.Table.{first, row_count}
use yjdlagent.Table.Laws.{row_count-first, All-unique, All-imp}
use yjdlagent.Store.Schema.{Run, nonterminal, has_id, Db}
use yjdlagent.Store.Create.{state_version, later}
use yjdlagent.Store.Lease.{
  lease_to, claimable, claim_next_run, oldest, renewable, renew_lease, releasable, release_lease,
}
use yjdlagent.Store.Change.{Change, stays, reassigns}

-- The row that `oldest` picks: it has the property, and it is the row of its id.
pub oldest_has : (p : Run → Bool) (rs : List Run) {r : Run} → oldest p rs ≡ some r → p r ≡ true
unfolding oldest
oldest_has p [] e = ground arith
oldest_has p (x ∷ rs) e = elim (Option-cases (oldest p rs)) [
  | inl z ↦ ground arith
  | inr (y, z) ↦ ground (arith, oldest_has p rs z)
]

pub oldest-first :
    (p : Run → Bool) (rs : List Run) {r : Run}
    → oldest p rs ≡ some r
    → row_count (has_id r.run_id) rs ≤ 1
    → first (has_id r.run_id) rs ≡ some r
unfolding oldest first row_count
oldest-first p [] e u = ground arith
oldest-first p (x ∷ rs) {r} e u = elim (Option-cases (oldest p rs)) [
  | inl z ↦ ground (arith, eq_iff x.run_id r.run_id)
  | inr (y, z) ↦
      ground
        (arith, eq_iff x.run_id r.run_id, oldest-first p rs z, row_count-first (has_id r.run_id) rs)
]

claimed_open :
    (p : Run → Bool) (rs : List Run) {r : Run}
    → ((x : Run) → p x ≡ true → nonterminal x ≡ true)
    → oldest p rs ≡ some r
    → row_count (has_id r.run_id) rs ≤ 1
    → All (λ x. has_id r.run_id x ≡ true → nonterminal x ≡ true) rs
claimed_open p rs {r} imp e u =
    All-imp (λ x same t. rw (same t) (imp r (oldest_has p rs e))) rs
      (All-unique (has_id r.run_id) rs u (oldest-first p rs e u))

pub claim_next_run-Change :
    (w : String) (seconds now later : ℕ) (db : Db)
    → ((k : String) → row_count (has_id k) db.runs ≤ 1)
    → Change false db.runs db.events
        (claim_next_run w seconds now later db).1.runs
        (claim_next_run w seconds now later db).1.events
unfolding claim_next_run
claim_next_run-Change w seconds now later db u =
    elim (Option-cases (oldest (claimable now db.runs) db.runs)) [
      | inl e ↦ rw e stays
      | inr (r, e) ↦ rw e (
          reassigns (has_id r.run_id)
            (lease_to w now (later + seconds * second) (state_version _ db))
            (record {
              open_only =
                  claimed_open (claimable now db.runs) db.runs (λ x h. ground arith) e (u r.run_id);
              same_key = λ x. ground arith;
              same_sequence = λ x. refl;
              stays_open = λ x _. refl;
              generation = λ x. omega arith;
            }))
    ]

All-trivial : {P : Run → Type 0} → ((r : Run) → P r) → (rs : List Run) → All P rs
All-trivial h [] = tt
All-trivial h (r ∷ rs) = (h r, All-trivial h rs)

pub renew_lease-Change :
    (k w : String) (seconds : ℕ) (g : Option ℕ) (now later : ℕ) (db : Db)
    → Change false db.runs db.events
        (renew_lease k w seconds g now later db).1.runs
        (renew_lease k w seconds g now later db).1.events
unfolding renew_lease
renew_lease-Change k w seconds g now later db = reassigns (renewable k w g) _ (record {
  open_only = All-trivial (λ x h. ground arith) db.runs;
  same_key = λ x. ground arith;
  same_sequence = λ x. refl;
  stays_open = λ x h. h;
  generation = λ x. omega arith;
})

pub release_lease-Change :
    (k w : String) (requeue : Bool) (g : Option ℕ) (now : ℕ) (db : Db)
    → Change false db.runs db.events
        (release_lease k w requeue g now db).1.runs
        (release_lease k w requeue g now db).1.events
unfolding release_lease
release_lease-Change k w requeue g now db = reassigns (releasable k w g) _ (record {
  open_only = All-trivial (λ x h. ground arith) db.runs;
  same_key = λ x. ground arith;
  same_sequence = λ x. refl;
  stays_open = λ x h. ground arith;
  generation = λ x. omega arith;
})
