-- ===== src/Store/Change.antt =====
-- What every operation of the store does to the tables of runs and events: one of four changes.
pub mod Keys
pub mod Numbering
pub mod Order
pub mod Keeps
use yjdlagent.Prelude.{
  ◌&&◌, ◌||◌, str_eq, if◌then◌else◌, ℕ, ◌≤◌, ◌≡◌, Bool, true, false, Option, none, some, List, [],
  ◌∷◌, ◌++◌, map, String, All, count_from,
}
use yjdlagent.Json.{Fields}
use yjdlagent.Table.{select, first, row_count, any, update}
use yjdlagent.Store.Schema.{Run, Event, Scope, queued, terminal, nonterminal, has_id, of_run}
use yjdlagent.Store.Create.{run_of, conflicts_with}
use yjdlagent.Store.Ledger.{advance, event_of}

-- A terminal run has no lease, and an owner comes with an end of the lease.
pub record IsSound (r : Run) : Type 0 where
  pub no_owner : terminal r ≡ true → r.lease_owner ≡ none
  pub no_until : terminal r ≡ true → r.lease_until ≡ none

-- What no change of a row touches.
pub record SameKey (a b : Run) : Type 0 where
  pub run_id : a.run_id ≡ b.run_id
  pub tenant_id : a.tenant_id ≡ b.tenant_id
  pub user_id : a.user_id ≡ b.user_id
  pub conversation_id : a.conversation_id ≡ b.conversation_id
  pub message_id : a.message_id ≡ b.message_id
  pub request_hash : a.request_hash ≡ b.request_hash
  pub depends_on_run_id : a.depends_on_run_id ≡ b.depends_on_run_id

abbrev pub sequence_of : Option Run → ℕ
sequence_of none = 0
sequence_of (some r) = r.last_sequence

abbrev pub last_sequence_of : String → List Run → ℕ
last_sequence_of k rs = sequence_of (first (has_id k) rs)

-- `run.completed`, `run.failed` and `run.cancelled`
abbrev pub is_ending : String → Bool
is_ending name =
    str_eq name "run.completed" || str_eq name "run.failed" || str_eq name "run.cancelled"

abbrev pub ends : String → Event → Bool
ends k e = of_run k e && is_ending e.event_name

-- how many ending events the row of a run calls for
abbrev pub endings_of : Option Run → ℕ
endings_of none = 0
endings_of (some r) = if terminal r then 1 else 0

-- The run that a row depends on is among the given ones.
abbrev pub DependencyAmong : List Run → Option String → Type 0
DependencyAmong rs none = Unit
DependencyAmong rs (some d) = any (has_id d) rs ≡ true

-- Every run depends on one that stands before it in the table.
abbrev pub DependsBack : List Run → List Run → Type 0
DependsBack seen [] = Unit
DependsBack seen (r ∷ rs) =
    DependencyAmong seen r.depends_on_run_id × DependsBack (seen ++ r ∷ []) rs

pub record WellFormed (rs : List Run) (es : List Event) : Type 0 where
  -- PRIMARY KEY (run_id)
  pub unique_ids : (k : String) → row_count (has_id k) rs ≤ 1
  -- UNIQUE (tenant_id, user_id, conversation_id, message_id)
  pub unique_messages : (s : Scope) (m : String) → row_count (run_of s m) rs ≤ 1
  -- the events of a run are numbered 1 to its last_sequence, in this order
  pub ledger :
      (k : String)
      → map (λ (e : Event). e.sequence) (select (of_run k) es)
        ≡ count_from 1 (last_sequence_of k rs)
  -- a run has ended exactly when one ending event stands in its ledger
  pub endings : (k : String) → row_count (ends k) es ≡ endings_of (first (has_id k) rs)
  pub sound : All IsSound rs
  pub depends_back : DependsBack [] rs

-- An UPDATE of leases: it touches open runs only and does not number events.
pub record Reassigns (p : Run → Bool) (f : Run → Run) (rs : List Run) : Type 0 where
  pub open_only : All (λ r. p r ≡ true → nonterminal r ≡ true) rs
  pub same_key : (r : Run) → SameKey (f r) r
  pub same_sequence : (r : Run) → (f r).last_sequence ≡ r.last_sequence
  pub stays_open : (r : Run) → nonterminal r ≡ true → nonterminal (f r) ≡ true
  pub generation : (r : Run) → r.lease_generation ≤ (f r).lease_generation

-- `grows` says whether the change may insert a run.
pub data Change (grows : Bool) (rs : List Run) (es : List Event)
    : List Run → List Event → Type 0 where
  stays : Change grows rs es rs es
  creates :
      (r : Run)
      → grows ≡ true
      → any (conflicts_with r) rs ≡ false
      → nonterminal r ≡ true
      → r.last_sequence ≡ 0
      → DependencyAmong rs r.depends_on_run_id
      → Change grows rs es (rs ++ r ∷ []) es
  reassigns :
      (p : Run → Bool) (f : Run → Run) → Reassigns p f rs → Change grows rs es (update p f rs) es
  appends :
      (now : ℕ) (event_name : String) (payload : Fields) (route : Option String) (run : Run)
      → first (has_id run.run_id) rs ≡ some run
      → terminal run ≡ false
      → Change grows rs es
          (update (has_id run.run_id) (advance now event_name payload route) rs)
          (es ++ event_of now run event_name payload ∷ [])
