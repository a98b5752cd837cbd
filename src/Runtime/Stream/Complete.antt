-- ===== src/Runtime/Stream/Complete.antt =====
-- app/agent/store.py, `list_events`: what is replayed while nothing of a run has expired.
use yjdlagent.Prelude.{
  ℕ, zero, suc, ◌+◌, ◌-◌, ◌<◌, ◌≡◌, refl, Bool, true, false, some, List, [], ◌∷◌, map, String, All,
  arith, Bool-cases, inl, inr, ◌*◌, count_from, drop, ltb, ◌&&◌, Option-cases, Option-cases,
}
use yjdlagent.Errors.{ok}
use yjdlagent.Clock.{second, iso_le}
use yjdlagent.Table.{select, first, order_by, insert_by}
use yjdlagent.Store.Schema.{Db, Run, Event, has_id, of_run}
use yjdlagent.Store.Change.{WellFormed}
use yjdlagent.Store.Replay.{retained, min_sequence, history_lost, replay, list_events}

-- The events are numbered in a row, from `a` on.
abbrev Numbered : ℕ → List Event → Type 0
Numbered a [] = Unit
Numbered a (e ∷ es) = (e.sequence ≡ a) × Numbered (suc a) es

Numbered-count_from :
    (es : List Event) (a n : ℕ)
    → map (λ (e : Event). e.sequence) es ≡ count_from a n
    → Numbered a es
Numbered-count_from [] a n h = tt
Numbered-count_from (e ∷ es) a zero h = absurd (ground (arith, h))
Numbered-count_from (e ∷ es) a (suc n) h =
    (ground (arith, h), Numbered-count_from es (suc a) n (ground (arith, h)))

order_by-Numbered :
    (es : List Event) (a : ℕ) → Numbered a es → order_by (λ (e : Event). e.sequence) es ≡ es
unfolding order_by insert_by
order_by-Numbered [] a h = refl
order_by-Numbered (e ∷ []) a h = refl
order_by-Numbered (e ∷ f ∷ es) a h =
    rw (order_by-Numbered (f ∷ es) (suc a) h.1) (ground (arith, h.0, h.1.0))

select_all :
    (es : List Event) (a low : ℕ)
    → Numbered a es
    → low < a
    → select (λ (e : Event). ltb low e.sequence) es ≡ es
unfolding select
select_all [] a low h lt = refl
select_all (e ∷ es) a low h lt =
    let ih = select_all es (suc a) low h.1 (omega arith) in ground (arith, h.0, ih)

select_behind :
    (m : ℕ) (es : List Event) (a low : ℕ)
    → low ≡ a + m
    → Numbered (suc a) es
    → select (λ (e : Event). ltb low e.sequence) es ≡ drop m es
unfolding select
select_behind zero es a low same h = select_all es (suc a) low h (omega (arith, same))
select_behind (suc m) [] a low same h = refl
select_behind (suc m) (e ∷ es) a low same h =
    let no : ltb low e.sequence ≡ false = ground (arith, h.0, same) in
    rw no (select_behind m es (suc a) low (omega (arith, same)) h.1)

-- The tests on retention do nothing while all events of the run are retained.
select-retained :
    (k : String) (cutoff : ℕ) (p : Event → Bool) (es : List Event)
    → All (λ (e : Event). of_run k e ≡ true → iso_le cutoff e.created_at ≡ true) es
    → select (λ (e : Event). retained k cutoff e && p e) es ≡ select p (select (of_run k) es)
unfolding select
select-retained k cutoff p [] h = refl
select-retained k cutoff p (e ∷ es) h = elim (Bool-cases (of_run k e)) [
  | inl t ↦ rw (t, h.0 t, select-retained k cutoff p es h.1) (ground arith)
  | inr n ↦ rw (n, select-retained k cutoff p es h.1) refl
]

select_own :
    (k : String) (cutoff : ℕ) (es : List Event)
    → All (λ (e : Event). of_run k e ≡ true → iso_le cutoff e.created_at ≡ true) es
    → select (retained k cutoff) es ≡ select (of_run k) es
unfolding select
select_own k cutoff [] h = refl
select_own k cutoff (e ∷ es) h = elim (Bool-cases (of_run k e)) [
  | inl t ↦ rw (t, h.0 t, select_own k cutoff es h.1) refl
  | inr n ↦ rw (n, select_own k cutoff es h.1) refl
]

-- No history is lost while the first event is there.
history_kept :
    (es : List Event) (n after : ℕ)
    → map (λ (e : Event). e.sequence) es ≡ count_from 1 n
    → history_lost (min_sequence es) n after ≡ false
unfolding min_sequence
history_kept [] zero after h = ground arith
history_kept [] (suc n) after h = absurd (ground (arith, h))
history_kept (e ∷ es) zero after h = absurd (ground (arith, h))
history_kept (e ∷ es) (suc n) after h =
    let one : e.sequence ≡ 1 = ground (arith, h) in
    elim (Option-cases (min_sequence es)) [
      | inl none_left ↦ rw none_left (ground (arith, one))
      | inr (m, there) ↦ rw there (ground (arith, one))
    ]

order_by-drop :
    (m : ℕ) (es : List Event) (a : ℕ)
    → Numbered a es
    → order_by (λ (e : Event). e.sequence) (drop m es) ≡ drop m es
order_by-drop zero es a h = order_by-Numbered es a h
order_by-drop (suc m) [] a h = unfold order_by in refl
order_by-drop (suc m) (e ∷ es) a h = order_by-drop m es (suc a) h.1

-- In a well-formed store, while no event of the run has expired, `list_events` of that run does
-- not raise, and gives exactly the events of the run behind the first `after_sequence`, in the
-- order of their numbers.
pub list_events_complete :
    (retention now : ℕ) (k : String) (after_sequence : ℕ) (db : Db) {run : Run}
    → WellFormed db.runs db.events
    → first (has_id k) db.runs ≡ some run
    → All
        (λ (e : Event). of_run k e ≡ true → iso_le (now - retention * second) e.created_at ≡ true)
        db.events
    → list_events retention now k after_sequence db
      ≡ ok (drop after_sequence (select (of_run k) db.events))
unfolding list_events replay
list_events_complete retention now k after_sequence db {run} w e kept =
    let cutoff = now - retention * second in
    let ledger : map (λ (d : Event). d.sequence) (select (of_run k) db.events)
        ≡ count_from 1 run.last_sequence =
      rw e at (w.ledger k) in
    let numbered = Numbered-count_from (select (of_run k) db.events) 1 run.last_sequence ledger in
    rw (
      e,
      list_events,
      replay,
      select_own k cutoff db.events kept,
      history_kept (select (of_run k) db.events) run.last_sequence after_sequence ledger,
      select-retained k cutoff (λ (d : Event). ltb after_sequence d.sequence) db.events kept,
      select_behind after_sequence (select (of_run k) db.events) 0 after_sequence (omega arith)
          numbered,
      order_by-drop after_sequence (select (of_run k) db.events) 1 numbered,
    )
