-- ===== src/Store/Change/Numbering.antt =====
-- The ledger of a run: its events are numbered one after the other, and one event ends it.
use yjdlagent.Store.Change.Keys.{SameKey-advance, first-reassign}
use native.Mathlib.Nat.{add-zero}
use mathlib.Core.Option
use mathlib.Core.List.{map-append, append-nil}
use yjdlagent.Prelude.{
  ℕ, ◌+◌, ◌≡◌, refl, Bool, true, false, Option, none, some, List, [], ◌∷◌, ◌++◌, map, String, All,
  count_from, count_from_next, arith, Bool-cases, Option-cases, inl, inr, str_eq, eq_iff,
}
use yjdlagent.Json.{Fields}
use yjdlagent.Table.{select, first, row_count, update, patch}
use yjdlagent.Table.Laws.{All-first, first-append, select-append, row_count-append, first_has}
use yjdlagent.Store.Schema.{Run, Event, terminal, nonterminal, has_id, of_run}
use yjdlagent.Store.Ledger.{advance, event_of}
use yjdlagent.Store.Change.{ends, endings_of, is_ending, SameKey, sequence_of, last_sequence_of}

pub last_sequence-reassign :
    (p : Run → Bool) (f : Run → Run) (rs : List Run)
    → ((r : Run) → SameKey (f r) r)
    → ((r : Run) → (f r).last_sequence ≡ r.last_sequence)
    → (k : String) → last_sequence_of k (update p f rs) ≡ last_sequence_of k rs
last_sequence-reassign p f rs key same k =
    rw (first-reassign p f key rs k) (kept (first (has_id k) rs))
  where
    kept : (o : Option Run) → sequence_of (Option.map (patch p f) o) ≡ sequence_of o
    kept none = refl
    kept (some r) = ground (arith, same r)

pub last_sequence-create :
    (rs : List Run) (r : Run)
    → r.last_sequence ≡ 0
    → (k : String) → last_sequence_of k (rs ++ r ∷ []) ≡ last_sequence_of k rs
last_sequence-create rs r z k = ground (arith, first-append (has_id k) rs r)

module _ (now : ℕ) (event_name : String) (payload : Fields) (route : Option String) (run : Run)
    (rs : List Run) (found : first (has_id run.run_id) rs ≡ some run) where
  abbrev pub next_rows : List Run
  next_rows = update (has_id run.run_id) (advance now event_name payload route) rs

  -- the row under an id after the event
  pub first-next_rows :
      (k : String)
      → first (has_id k) next_rows
        ≡ Option.map
            (patch (has_id run.run_id) (advance now event_name payload route))
            (first (has_id k) rs)
  first-next_rows k =
      first-reassign (has_id run.run_id) (advance now event_name payload route)
        (SameKey-advance now event_name payload route) rs k

  pub last_sequence-advance_self : last_sequence_of run.run_id next_rows ≡ run.last_sequence + 1
  unfolding advance
  last_sequence-advance_self =
      rw (first-next_rows run.run_id, found, first_has (has_id run.run_id) rs found)

  last_sequence-advance_other :
      (k : String)
      → str_eq run.run_id k ≡ false
      → last_sequence_of k next_rows ≡ last_sequence_of k rs
  unfolding advance
  last_sequence-advance_other k ne = elim (Option-cases (first (has_id k) rs)) [
    | inl e ↦ rw (first-next_rows k, e)
    | inr (r, e) ↦
        rw (first-next_rows k, e)
          (ground (
            arith,
            first_has (has_id k) rs e,
            eq_iff r.run_id k,
            eq_iff r.run_id run.run_id,
            eq_iff run.run_id k,
          ))
  ]

  abbrev pub sequences : String → List Event → List ℕ
  sequences k es = map (λ (e : Event). e.sequence) (select (of_run k) es)

  ledger-advance_self :
      (es : List Event)
      → sequences run.run_id es ≡ count_from 1 (last_sequence_of run.run_id rs)
      → sequences run.run_id (es ++ event_of now run event_name payload ∷ [])
        ≡ count_from 1 (last_sequence_of run.run_id next_rows)
  unfolding event_of
  ledger-advance_self es led =
      rw (select-append, first_has (has_id run.run_id) rs found, map-append)
        (rw (last_sequence-advance_self, led, found) (count_from_next run.last_sequence))

  pub ledger-advance :
      (es : List Event)
      → ((k : String) → sequences k es ≡ count_from 1 (last_sequence_of k rs))
      → (k : String)
      → sequences k (es ++ event_of now run event_name payload ∷ [])
        ≡ count_from 1 (last_sequence_of k next_rows)
  unfolding event_of
  ledger-advance es led k = elim (Bool-cases (str_eq run.run_id k)) [
    | inl t ↦ rw (← (eq_iff run.run_id k).0 t) (ledger-advance_self es (led run.run_id))
    | inr n ↦ rw (select-append, n, append-nil, last_sequence-advance_other k n) (led k)
  ]

pub terminal-advance :
    (now : ℕ) (event_name : String) (payload : Fields) (route : Option String) (r : Run)
    → terminal r ≡ false
    → terminal (advance now event_name payload route r) ≡ is_ending event_name
unfolding advance
terminal-advance now event_name payload route r live = ground arith

pub endings-create :
    (rs : List Run) (r : Run)
    → nonterminal r ≡ true
    → (k : String) → endings_of (first (has_id k) (rs ++ r ∷ [])) ≡ endings_of (first (has_id k) rs)
endings-create rs r live k = ground (arith, first-append (has_id k) rs r)

pub endings-reassign :
    (p : Run → Bool) (f : Run → Run) (rs : List Run)
    → ((r : Run) → SameKey (f r) r)
    → ((r : Run) → nonterminal r ≡ true → nonterminal (f r) ≡ true)
    → All (λ r. p r ≡ true → nonterminal r ≡ true) rs
    → (k : String)
    → endings_of (first (has_id k) (update p f rs)) ≡ endings_of (first (has_id k) rs)
endings-reassign p f rs key still touched k = elim (Option-cases (first (has_id k) rs)) [
  | inl e ↦ rw (first-reassign p f key rs k, e)
  | inr (r, e) ↦
      rw (first-reassign p f key rs k, e)
        (ground (
          arith,
          still r,
          All-first (λ x. p x ≡ true → nonterminal x ≡ true) (has_id k) rs touched e,
        ))
]

module _ (now : ℕ) (event_name : String) (payload : Fields) (route : Option String) (run : Run)
    (rs : List Run) (found : first (has_id run.run_id) rs ≡ some run) (live : terminal run ≡ false)
    (es : List Event)
    (before : (k : String) → row_count (ends k) es ≡ endings_of (first (has_id k) rs)) where
  endings-advance_self :
      row_count (ends run.run_id) (es ++ event_of now run event_name payload ∷ [])
      ≡ endings_of (
          first
            (has_id run.run_id)
            (update (has_id run.run_id) (advance now event_name payload route) rs))
  unfolding event_of
  endings-advance_self =
      rw
        (
          first-next_rows now event_name payload route run rs found run.run_id,
          row_count-append,
          before run.run_id,
          found,
          first_has (has_id run.run_id) rs found,
          live,
          terminal-advance now event_name payload route run live,
        )
        (ground arith)

  endings-advance_other :
      (k : String)
      → str_eq run.run_id k ≡ false
      → endings_of
          (first (has_id k) (update (has_id run.run_id) (advance now event_name payload route) rs))
        ≡ endings_of (first (has_id k) rs)
  endings-advance_other k ne = elim (Option-cases (first (has_id k) rs)) [
    | inl e ↦ rw (first-next_rows now event_name payload route run rs found k, e)
    | inr (r, e) ↦
        rw (first-next_rows now event_name payload route run rs found k, e)
          (ground (
            arith,
            first_has (has_id k) rs e,
            eq_iff r.run_id k,
            eq_iff r.run_id run.run_id,
            eq_iff run.run_id k,
          ))
  ]

  pub endings-advance :
      (k : String)
      → row_count (ends k) (es ++ event_of now run event_name payload ∷ [])
        ≡ endings_of (
            first (has_id k) (update (has_id run.run_id) (advance now event_name payload route) rs))
  unfolding event_of
  endings-advance k = elim (Bool-cases (str_eq run.run_id k)) [
    | inl t ↦ rw (← (eq_iff run.run_id k).0 t) endings-advance_self
    | inr n ↦ rw (row_count-append, n, add-zero, endings-advance_other k n) (before k)
  ]
