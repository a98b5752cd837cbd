-- ===== src/Store/Change/Order.antt =====
-- A terminal run has no lease, and a run depends on an older one: both last under a change.
use yjdlagent.Store.Change.Keys.{has_id-SameKey}
use mathlib.Core.List.{append-nil, append_assoc}
use yjdlagent.Prelude.{
  ◌⊎◌, ℕ, ◌≡◌, refl, Bool, true, false, Option, none, some, List, [], ◌∷◌, ◌++◌, String, All, arith,
  Bool-cases, inl, inr,
}
use yjdlagent.Json.{Fields}
use yjdlagent.Table.{update, patch}
use yjdlagent.Table.Laws.{any-update}
use yjdlagent.Store.Schema.{Run, nonterminal, has_id}
use yjdlagent.Store.Ledger.{advance}
use yjdlagent.Store.Change.{IsSound, SameKey, DependencyAmong, DependsBack}

-- IsSound: a change touches open rows, and what it ends has no lease.
pub IsSound-open : (r : Run) → nonterminal r ≡ true → IsSound r
IsSound-open r h = record { no_owner = ground arith; no_until = ground arith }

pub IsSound-advance :
    (now : ℕ) (event_name : String) (payload : Fields) (route : Option String) (r : Run)
    → IsSound r
    → IsSound (advance now event_name payload route r)
unfolding advance
IsSound-advance now event_name payload route r h = record {
  no_owner = ground arith;
  no_until = ground arith;
}

pub IsSound-reassign :
    (p : Run → Bool) (f : Run → Run)
    → ((r : Run) → nonterminal r ≡ true → nonterminal (f r) ≡ true)
    → (rs : List Run) → All (λ r. p r ≡ true → nonterminal r ≡ true) rs
    → All IsSound rs
    → All IsSound (update p f rs)
unfolding update
IsSound-reassign p f still [] o s = tt
IsSound-reassign p f still (r ∷ rs) o s =
    (one (Bool-cases (p r)), IsSound-reassign p f still rs o.1 s.1)
  where
    one : (p r ≡ true) ⊎ (p r ≡ false) → IsSound (patch p f r)
    one (inl t) = rw t (IsSound-open (f r) (still r (o.0 t)))
    one (inr n) = rw n s.0

pub DependencyAmong-update :
    (p : Run → Bool) (f : Run → Run)
    → ((r : Run) → SameKey (f r) r)
    → (rs : List Run) (d : Option String) → DependencyAmong rs d
    → DependencyAmong (update p f rs) d
DependencyAmong-update p f key rs none h = tt
DependencyAmong-update p f key rs (some d) h =
    rw (any-update p (has_id d) f (λ r. has_id-SameKey d (key r)) rs) h

update-snoc :
    (p : Run → Bool) (f : Run → Run) (rs : List Run) (r : Run)
    → update p f (rs ++ r ∷ []) ≡ update p f rs ++ patch p f r ∷ []
unfolding update
update-snoc p f [] r = refl
update-snoc p f (x ∷ rs) r = rw (update-snoc p f rs r)

pub DependsBack-update :
    (p : Run → Bool) (f : Run → Run)
    → ((r : Run) → SameKey (f r) r)
    → (rs seen : List Run) → DependsBack seen rs
    → DependsBack (update p f seen) (update p f rs)
unfolding update
DependsBack-update p f key [] seen h = tt
DependsBack-update p f key (r ∷ rs) seen h = (
  among (Bool-cases (p r)),
  rw (← update-snoc p f seen r) (DependsBack-update p f key rs (seen ++ r ∷ []) h.1),
)
  where
    moved : DependencyAmong (update p f seen) r.depends_on_run_id
    moved = DependencyAmong-update p f key seen r.depends_on_run_id h.0

    among :
        (p r ≡ true) ⊎ (p r ≡ false)
        → DependencyAmong (update p f seen) (patch p f r).depends_on_run_id
    among (inl t) = rw (t, (key r).depends_on_run_id) moved
    among (inr n) = rw n moved

pub DependsBack-snoc :
    (rs seen : List Run) (r : Run)
    → DependsBack seen rs
    → DependencyAmong (seen ++ rs) r.depends_on_run_id
    → DependsBack seen (rs ++ r ∷ [])
DependsBack-snoc [] seen r h d = (rw (← append-nil seen) d, tt)
DependsBack-snoc (x ∷ rs) seen r h d =
    (h.0, DependsBack-snoc rs (seen ++ x ∷ []) r h.1 (rw append_assoc d))
