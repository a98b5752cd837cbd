-- ===== src/Store/Change/Keys.antt =====
-- What identifies a run: an UPDATE keeps it, and an INSERT brings new ids and messages.
use mathlib.Core.Option
use yjdlagent.Prelude.{
  ℕ, ◌≤◌, ◌≡◌, Bool, true, false, Option, List, [], ◌∷◌, ◌++◌, String, arith, Bool-cases, inl, inr,
  eq_iff,
}
use yjdlagent.Json.{Fields}
use yjdlagent.Table.{first, row_count, any, update, patch}
use yjdlagent.Table.Laws.{first-update, row_count-append, any-row_count}
use yjdlagent.Store.Schema.{Run, Scope, has_id}
use yjdlagent.Store.Create.{run_of, conflicts_with}
use yjdlagent.Store.Ledger.{advance}
use yjdlagent.Store.Change.{SameKey}

pub SameKey-advance :
    (now : ℕ) (event_name : String) (payload : Fields) (route : Option String) (r : Run)
    → SameKey (advance now event_name payload route r) r
unfolding advance
SameKey-advance now event_name payload route r = ground arith

pub run_of-SameKey :
    (s : Scope) (m : String) {a b : Run} → SameKey a b → run_of s m a ≡ run_of s m b
run_of-SameKey s m h = cc (h.tenant_id, h.user_id, h.conversation_id, h.message_id)

pub has_id-SameKey : (k : String) {a b : Run} → SameKey a b → has_id k a ≡ has_id k b
has_id-SameKey k h = cc h.run_id

-- A row that is new by the constraints has a new id and a new message.
new_id : (r x : Run) → has_id r.run_id x ≡ true → conflicts_with r x ≡ true
new_id r x h = ground arith

pub unique_ids-append :
    (rs : List Run) (r : Run)
    → any (conflicts_with r) rs ≡ false
    → ((k : String) → row_count (has_id k) rs ≤ 1)
    → (k : String) → row_count (has_id k) (rs ++ r ∷ []) ≤ 1
unique_ids-append rs r new u k = elim (Bool-cases (has_id k r)) [
  | inl t ↦
      let zero_rows : row_count (has_id k) rs ≡ 0 =
        any-row_count (has_id k) (conflicts_with r)
          (λ a h. new_id r a (ground (arith, eq_iff r.run_id k))) rs new in
      ground (arith, row_count-append (has_id k) rs r, zero_rows)
  | inr n ↦ ground (arith, row_count-append (has_id k) rs r, u k)
]

same_message :
    (s : Scope) (m : String) (r x : Run)
    → run_of s m r ≡ true
    → run_of s m x ≡ true
    → conflicts_with r x ≡ true
same_message s m r x h g = ground (
  arith,
  eq_iff r.tenant_id s.tenant_id,
  eq_iff r.user_id s.user_id,
  eq_iff r.conversation_id s.conversation_id,
  eq_iff r.message_id m,
)

pub unique_messages-append :
    (rs : List Run) (r : Run)
    → any (conflicts_with r) rs ≡ false
    → ((s : Scope) (m : String) → row_count (run_of s m) rs ≤ 1)
    → (s : Scope) (m : String) → row_count (run_of s m) (rs ++ r ∷ []) ≤ 1
unique_messages-append rs r new u s m = elim (Bool-cases (run_of s m r)) [
  | inl t ↦
      let zero_rows : row_count (run_of s m) rs ≡ 0 =
        any-row_count (run_of s m) (conflicts_with r) (λ a h. same_message s m r a t h) rs new in
      rw (row_count-append, zero_rows, t) (omega arith)
  | inr n ↦ rw (row_count-append, n) (omega (arith, u s m))
]

-- What an UPDATE that keeps ids leaves under an id.
pub first-reassign :
    (p : Run → Bool) (f : Run → Run)
    → ((r : Run) → SameKey (f r) r)
    → (rs : List Run) (k : String)
    → first (has_id k) (update p f rs) ≡ Option.map (patch p f) (first (has_id k) rs)
first-reassign p f key rs k = first-update p (has_id k) f (λ r. has_id-SameKey k (key r)) rs
