-- ===== src/Store/Trace/Resending.antt =====
-- A message that is sent again, after any calls of the store.
use yjdlagent.Prelude.{
  ℕ, ◌≤◌, ◌≡◌, ◌∙◌, Bool, true, false, Option, some, List, [], ◌∷◌, String, arith, Bool-cases, inl,
  inr, str_eq, if◌then◌else◌,
}
use yjdlagent.Errors.{ok, err, agent_error, message_conflict_error}
use yjdlagent.Table.{first, row_count}
use yjdlagent.Store.Schema.{Db, Run, has_id}
use yjdlagent.Store.Create.{Submission, run_of, attach_or, create_or_attach_once, create_or_attach}
use yjdlagent.Store.Change.{WellFormed}
use yjdlagent.Store.Change.Keys.{run_of-SameKey}
use yjdlagent.Store.Trace.{Op, execute}
use yjdlagent.Store.Trace.Invariant.{execute_from-WellFormed}
use yjdlagent.Store.Trace.Rows.{Follows, execute-Follows}

row_count_pos {ℓ} :
    {A : Type ℓ} (p q : A → Bool) (xs : List A) {b : A}
    → first q xs ≡ some b
    → p b ≡ true
    → 1 ≤ row_count p xs
unfolding first row_count
row_count_pos p q [] e h = absurd (ground arith)
row_count_pos p q (x ∷ xs) {b} e h = elim (Bool-cases (q x)) [
  | inl t ↦ ground arith
  | inr n ↦
      let ih : 1 ≤ row_count p xs = row_count_pos p q xs {b = b} (ground arith) h in
      ground (arith, ih)
]

-- A row that is found by one test is the first by another one that at most one row has.
first_unique {ℓ} :
    {A : Type ℓ} (p q : A → Bool) (xs : List A) {b : A}
    → first q xs ≡ some b
    → p b ≡ true
    → row_count p xs ≤ 1
    → first p xs ≡ some b
unfolding first row_count
first_unique p q [] e h u = absurd (ground arith)
first_unique p q (x ∷ xs) {b} e h u = elim (Bool-cases (q x)) [
  | inl t ↦ ground arith
  | inr n ↦
      let rest : first q xs ≡ some b = ground arith in
      let pos : 1 ≤ row_count p xs = row_count_pos p q xs rest h in
      let no : p x ≡ false = ground arith in rw no (first_unique p q xs rest h (ground arith))
]

-- Where a message has a run in a well-formed store, and whatever calls follow,
-- `create_or_attach` for the same message changes nothing: it returns the later state of that
-- run, as not created, if the request has the same hash, and raises MESSAGE_CONFLICT otherwise,
-- also when the queue is full.
pub create_or_attach-resent :
    (ops : List Op) (db : Db) (k : String) (a : Run) (now : ℕ) (run_id : String) (s : Submission)
    (most : Option ℕ)
    → WellFormed db.runs db.events
    → first (has_id k) db.runs ≡ some a
    → run_of s.scope s.message_id a ≡ true
    → (b : Run) × Follows a b
      × (first (has_id k) (execute db ops).runs ≡ some b)
      × (create_or_attach now run_id s most (execute db ops) ≡ (
        if str_eq a.request_hash s.request_hash
            then ok (b, false)
            else err (agent_error message_conflict_error),
        execute db ops,
      ))
unfolding create_or_attach create_or_attach_once attach_or
create_or_attach-resent ops db k a now run_id s most w e same =
    let (b, found, later) = execute-Follows ops db k w e in
    let mine : run_of s.scope s.message_id b ≡ true =
      run_of-SameKey s.scope s.message_id later.key ∙ same in
    let there : first (run_of s.scope s.message_id) (execute db ops).runs ≡ some b =
      first_unique (run_of s.scope s.message_id) (has_id k) (execute db ops).runs found mine
        ((execute_from-WellFormed ops db w).unique_messages s.scope s.message_id) in
    (b, later, found, rw (there, later.key.request_hash) (ground arith))
