-- ===== src/Store/Operations/Created.antt =====
-- What stands in the store after `create_or_attach` has created a run.
use yjdlagent.Prelude.{
  ℕ, ◌≡◌, refl, Bool, true, false, Option, none, some, List, [], ◌∷◌, ◌++◌, String, arith,
  Bool-cases, Option-cases, inl, inr, eq_iff, str_eq,
}
use yjdlagent.Errors.{Result, ok, err}
use yjdlagent.Table.{first, any}
use yjdlagent.Table.Laws.{first-append}
use yjdlagent.Store.Schema.{Db, Run, terminal, has_id}
use yjdlagent.Store.Transaction.{settle}
use yjdlagent.Store.Create.{
  Submission, run_of, conflicts_with, new_run, dependency, state_version, insert_run, queue_full,
  create_new, attach_or, create_or_attach_once, create_or_attach,
}

pub record Created (s : Submission) (run : Run) (db : Db) : Type 0 where
  pub live : terminal run ≡ false
  pub message : run_of s.scope s.message_id run ≡ true
  pub hash : run.request_hash ≡ s.request_hash
  pub stored : first (has_id run.run_id) db.runs ≡ some run

no_id :
    (r : Run) (rs : List Run)
    → any (conflicts_with r) rs ≡ false
    → first (has_id r.run_id) rs ≡ none
unfolding any first
no_id r [] h = refl
no_id r (x ∷ rs) h = ground (arith, no_id r rs)

fresh-Created :
    (now : ℕ) (k : String) (s : Submission) (db db' : Db) (o : Option String) (n : ℕ)
    → any (conflicts_with (new_run now k s o n)) db.runs ≡ false
    → db'.runs ≡ db.runs ++ new_run now k s o n ∷ []
    → Created s (new_run now k s o n) db'
unfolding new_run
fresh-Created now k s db db' o n new e = record {
  live = refl;
  message = ground (
    arith,
    (eq_iff s.scope.tenant_id s.scope.tenant_id).1 refl,
    (eq_iff s.scope.user_id s.scope.user_id).1 refl,
    (eq_iff s.scope.conversation_id s.scope.conversation_id).1 refl,
    (eq_iff s.message_id s.message_id).1 refl,
  );
  hash = refl;
  stored =
      rw (e, first-append, no_id (new_run now k s o n) db.runs new)
        (ground (arith, (eq_iff k k).1 refl));
}

abbrev IsNew : Result (Run × Bool) × Db → Submission → Type 0
IsNew (ok (run, true), db) s = Created s run db
IsNew (ok (run, false), db) s = Unit
IsNew (err e, db) s = Unit

attach_or-IsNew :
    (now : ℕ) (k : String) (s : Submission) (most : Option ℕ) (o : Option Run) (db : Db)
    → IsNew (settle db (attach_or now k s most o db)) s
unfolding attach_or create_new insert_run
attach_or-IsNew now k s most (some x) db =
    elim (Bool-cases (str_eq x.request_hash s.request_hash)) [ inl t ↦ rw t tt | inr n ↦ rw n tt ]
attach_or-IsNew now k s most none db = elim (Option-cases (queue_full most db)) [
  | inl e ↦
      rw e
        (elim (Bool-cases (
          any (conflicts_with (new_run now k s (dependency s.scope db) (state_version s.scope db)))
            db.runs)) [
              | inl t ↦ rw t tt
              | inr n ↦ rw n (
                  fresh-Created now k s db _ (dependency s.scope db) (state_version s.scope db) n
                    refl)
            ])
  | inr (n, e) ↦ rw e tt
]

pub create_or_attach-Created :
    (now : ℕ) (k : String) (s : Submission) (most : Option ℕ) (db : Db) {run : Run} {db' : Db}
    → create_or_attach now k s most db ≡ (ok (run, true), db')
    → Created s run db'
unfolding create_or_attach create_or_attach_once
create_or_attach-Created now k s most db e =
    rw e at (attach_or-IsNew now k s most (first (run_of s.scope s.message_id) db.runs) db)
