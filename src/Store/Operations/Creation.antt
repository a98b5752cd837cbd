-- ===== src/Store/Operations/Creation.antt =====
-- Creating a run makes one of the four changes.
use yjdlagent.Store.Operations.Settle.{After, settle-Change}
use yjdlagent.Prelude.{
  ℕ, ◌≡◌, refl, true, Option, none, some, List, [], ◌∷◌, String, arith, Bool-cases, Option-cases,
  inl, inr, str_eq, eq_iff,
}
use yjdlagent.Table.{first, any}
use yjdlagent.Store.Schema.{Run, Scope, nonterminal, has_id, Db}
use yjdlagent.Store.Create.{
  Submission, run_of, conflicts_with, new_run, insert_run, create_new, attach_or, queue_full,
  dependency, latest_in, state_version, create_or_attach_once, create_or_attach,
}
use yjdlagent.Store.Change.{DependencyAmong, Change, stays, creates}

-- the run that a new one depends on is in the table
latest_in-any :
    (s : Scope) (rs : List Run) {r : Run}
    → latest_in s rs ≡ some r
    → any (has_id r.run_id) rs ≡ true
unfolding any
latest_in-any s [] e = ground arith
latest_in-any s (x ∷ rs) {r} e = elim (Option-cases (latest_in s rs)) [
  | inl z ↦ ground (arith, eq_iff x.run_id r.run_id)
  | inr (y, z) ↦ ground (arith, latest_in-any s rs z, eq_iff x.run_id r.run_id)
]

DependencyAmong-dependency : (s : Scope) (db : Db) → DependencyAmong db.runs (dependency s db)
unfolding dependency
DependencyAmong-dependency s db = elim (Option-cases (latest_in s db.runs)) [
  | inl e ↦ rw e tt
  | inr (r, e) ↦ rw e (latest_in-any s db.runs e)
]

insert_run-After :
    (now : ℕ) (s : Scope) (r : Run) (db : Db)
    → nonterminal r ≡ true
    → r.last_sequence ≡ 0
    → DependencyAmong db.runs r.depends_on_run_id
    → After true db (insert_run now s r db)
unfolding insert_run
insert_run-After now s r db live zero_seq dep = elim (Bool-cases (any (conflicts_with r) db.runs)) [
  | inl t ↦ rw t tt
  | inr n ↦ rw n (creates r refl n live zero_seq dep)
]

attach_or-After :
    (now : ℕ) (k : String) (s : Submission) (most : Option ℕ) (o : Option Run) (db : Db)
    → After true db (attach_or now k s most o db)
unfolding attach_or create_new
attach_or-After now k s most (some x) db =
    elim (Bool-cases (str_eq x.request_hash s.request_hash)) [
      | inl t ↦ rw t stays
      | inr n ↦ rw n tt
    ]
attach_or-After now k s most none db = elim (Option-cases (queue_full most db)) [
  | inl e ↦ rw e (
      insert_run-After now s.scope
        (new_run now k s (dependency s.scope db) (state_version s.scope db)) db refl refl
        (DependencyAmong-dependency s.scope db))
  | inr (n, e) ↦ rw e tt
]

pub create_or_attach-Change :
    (now : ℕ) (k : String) (s : Submission) (most : Option ℕ) (db : Db)
    → Change true db.runs db.events
        (create_or_attach now k s most db).1.runs
        (create_or_attach now k s most db).1.events
unfolding create_or_attach
create_or_attach-Change now k s most db =
    settle-Change true db (create_or_attach_once now k s most db)
      (attach_or-After now k s most (first (run_of s.scope s.message_id) db.runs) db)
