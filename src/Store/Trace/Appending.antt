-- ===== src/Store/Trace/Appending.antt =====
-- What `append_event` does in a well-formed store, on every branch.
use yjdlagent.Prelude.{
  ℕ, zero, suc, ◌+◌, ◌≤◌, ◌≡◌, refl, ◌∙◌, Bool, true, false, Option, none, some, List, [], ◌∷◌,
  ◌++◌, map, String, arith, Bool-cases, Option-cases, inl, inr, count_from, ◌==◌, ◌&&◌,
  if◌then◌else◌, eq_iff,
}
use yjdlagent.Json.{Fields}
use yjdlagent.Errors.{Result, ok, err, agent_error, runtime_error, run_not_found_error}
use yjdlagent.Table.{select, first, any, update}
use yjdlagent.Table.Laws.{first_has}
use yjdlagent.Store.Schema.{Db, Run, Event, has_id, of_run, terminal}
use yjdlagent.Store.Ledger.{advance, event_of, same_event, append_to_row, append_event}
use yjdlagent.Store.Change.{WellFormed}

abbrev any_number : ℕ → List ℕ → Bool
any_number m [] = false
any_number m (x ∷ xs) = if x == m then true else any_number m xs

any-sequences :
    (k : String) (m : ℕ) (es : List Event)
    → any (λ (e : Event). of_run k e && e.sequence == m) es
      ≡ any_number m (map (λ (e : Event). e.sequence) (select (of_run k) es))
unfolding any select
any-sequences k m [] = refl
any-sequences k m (e ∷ es) = ground (arith, any-sequences k m es)

any_number-count_from : (m a n : ℕ) → a + n ≤ m → any_number m (count_from a n) ≡ false
any_number-count_from m a zero h = refl
any_number-count_from m a (suc n) h = ground (arith, any_number-count_from m (suc a) n)

-- The next number of a run is free.
no_clash :
    (now : ℕ) (name : String) (payload : Fields) (run : Run) (rs : List Run) (es : List Event)
    → WellFormed rs es
    → first (has_id run.run_id) rs ≡ some run
    → any (same_event (event_of now run name payload)) es ≡ false
unfolding event_of
no_clash now name payload run rs es w e =
    any-sequences run.run_id (run.last_sequence + 1) es
    ∙ rw (w.ledger run.run_id, e)
        (any_number-count_from (run.last_sequence + 1) 1 run.last_sequence (omega arith))

-- The outcome by the row of the run.
abbrev pub appended : ℕ → String → Fields → Option String → Option Run → Db → Result Event × Db
appended now name payload route none db = (err (agent_error run_not_found_error), db)
appended now name payload route (some run) db =
    if terminal run then (err (runtime_error "cannot append an event to a terminal run"), db) else (
      ok (event_of now run name payload),
      record db {
        events = db.events ++ event_of now run name payload ∷ [];
        runs = update (has_id run.run_id) (advance now name payload route) db.runs;
      },
    )

own_row :
    (run : Run) (k : String) (rs : List Run)
    → first (has_id k) rs ≡ some run
    → first (has_id run.run_id) rs ≡ some run
own_row run k rs e = rw (← (eq_iff run.run_id k).0 (first_has (has_id k) rs e)) at e

-- In a well-formed store `append_event` raises RUN_NOT_FOUND for an unknown run and RuntimeError
-- for a terminal one, and then changes nothing; for any other run it adds the event with the next
-- number and advances the row of the run, so the constraint on the numbers is never violated.
pub append_event-appended :
    (now : ℕ) (k name : String) (payload : Fields) (route : Option String) (db : Db)
    → WellFormed db.runs db.events
    → append_event now k name payload route db
      ≡ appended now name payload route (first (has_id k) db.runs) db
unfolding append_event
append_event-appended now k name payload route db w =
    elim (Option-cases (first (has_id k) db.runs)) [
      | inl e ↦ rw (e, append_to_row)
      | inr (run, e) ↦ elim (Bool-cases (terminal run)) [
        | inl t ↦ rw (e, append_to_row, t)
        | inr n ↦ rw (
          e,
          append_to_row,
          n,
          no_clash now name payload run db.runs db.events w (own_row run k db.runs e),
        )
      ]
    ]

-- The same for a run that is known to be open.
pub append_event-open :
    (now : ℕ) (k name : String) (payload : Fields) (route : Option String) (db : Db) {run : Run}
    → WellFormed db.runs db.events
    → first (has_id k) db.runs ≡ some run
    → terminal run ≡ false
    → append_event now k name payload route db ≡ (
      ok (event_of now run name payload),
      record db {
        events = db.events ++ event_of now run name payload ∷ [];
        runs = update (has_id run.run_id) (advance now name payload route) db.runs;
      },
    )
append_event-open now k name payload route db w e n =
    append_event-appended now k name payload route db w ∙ rw (e, n)
