-- ===== src/Store/Trace/Rows.antt =====
-- What any calls do to the row of one run: its keys stay, its numbers only grow, and once it is
-- terminal nothing of it changes.
use native.Mathlib.Nat.{le_refl, le_trans}
use yjdlagent.Prelude.{
  ℕ, ◌≤◌, ◌≡◌, refl, sym, ◌∙◌, Bool, true, false, Option, some, List, [], ◌∷◌, String, arith,
  Bool-cases, inl, inr, eq_iff,
}
use yjdlagent.Json.{Fields}
use yjdlagent.Table.{first, patch}
use yjdlagent.Table.Laws.{first_has, first-append, All-first}
use yjdlagent.Store.Schema.{Db, Run, Event, terminal, nonterminal, has_id}
use yjdlagent.Store.Ledger.{advance}
use yjdlagent.Store.Change.{
  SameKey, WellFormed, Reassigns, Change, stays, creates, reassigns, appends,
}
use yjdlagent.Store.Change.Keys.{SameKey-advance, first-reassign}
use yjdlagent.Store.Trace.{Op, step, execute}
use yjdlagent.Store.Trace.Invariant.{step-Change, step-WellFormed}

-- `b` is a later state of the row `a`.
pub record Follows (a b : Run) : Type 0 where
  pub key : SameKey b a
  pub generation : a.lease_generation ≤ b.lease_generation
  pub sequence : a.last_sequence ≤ b.last_sequence
  pub frozen : terminal a ≡ true → b ≡ a

SameKey-trans : {a b c : Run} → SameKey b a → SameKey c b → SameKey c a
SameKey-trans g h = record {
  run_id = h.run_id ∙ g.run_id;
  tenant_id = h.tenant_id ∙ g.tenant_id;
  user_id = h.user_id ∙ g.user_id;
  conversation_id = h.conversation_id ∙ g.conversation_id;
  message_id = h.message_id ∙ g.message_id;
  request_hash = h.request_hash ∙ g.request_hash;
  depends_on_run_id = h.depends_on_run_id ∙ g.depends_on_run_id;
}

Follows-refl : (a : Run) → Follows a a
Follows-refl a = record {
  key = ground arith;
  generation = le_refl _;
  sequence = le_refl _;
  frozen = λ _. refl;
}

Follows-trans : {a b c : Run} → Follows a b → Follows b c → Follows a c
Follows-trans {a} {b} {c} g h = record {
  key = SameKey-trans g.key h.key;
  generation = le_trans g.generation h.generation;
  sequence = le_trans g.sequence h.sequence;
  frozen = λ t. h.frozen (rw (g.frozen t) t) ∙ g.frozen t;
}

Follows-patch :
    (p : Run → Bool) (f : Run → Run) (rs : List Run) (k : String) (a : Run)
    → Reassigns p f rs
    → first (has_id k) rs ≡ some a
    → Follows a (patch p f a)
Follows-patch p f rs k a h e = elim (Bool-cases (p a)) [
  | inl t ↦ rw t (record {
    key = h.same_key a;
    generation = h.generation a;
    sequence = rw (h.same_sequence a) (le_refl _);
    frozen = λ ended.
        ground
          (arith, All-first (λ x. p x ≡ true → nonterminal x ≡ true) (has_id k) rs h.open_only e t);
  })
  | inr n ↦ rw n (Follows-refl a)
]

Follows-advance :
    (now : ℕ) (event_name : String) (payload : Fields) (route : Option String) (run a : Run)
    (rs : List Run) (k : String)
    → first (has_id run.run_id) rs ≡ some run
    → terminal run ≡ false
    → first (has_id k) rs ≡ some a
    → Follows a (patch (has_id run.run_id) (advance now event_name payload route) a)
Follows-advance now event_name payload route run a rs k found live e =
    elim (Bool-cases (has_id run.run_id a)) [
      | inl t ↦
          let same_id : run.run_id ≡ k =
            ground
              (arith, eq_iff a.run_id run.run_id, eq_iff a.run_id k, first_has (has_id k) rs e) in
          let same : some a ≡ some run = sym e ∙ rw (← same_id) found in
          rw t (record {
            key = SameKey-advance now event_name payload route a;
            generation = unfold advance in le_refl _;
            sequence = unfold advance in omega arith;
            frozen = λ ended. ground (arith, same);
          })
      | inr n ↦ rw n (Follows-refl a)
    ]

pub Change-Follows :
    {grows : Bool} {rs rs' : List Run} {es es' : List Event} (k : String) {a : Run}
    → Change grows rs es rs' es'
    → first (has_id k) rs ≡ some a
    → (b : Run) × (first (has_id k) rs' ≡ some b) × Follows a b
Change-Follows k {a} stays e = (a, e, Follows-refl a)
Change-Follows {rs} {es = es} k {a} (creates r g new live zero_seq dep) e =
    (a, rw (first-append, e), Follows-refl a)
Change-Follows {rs} {es = es} k {a} (reassigns p f h) e =
    (patch p f a, rw (first-reassign p f h.same_key rs k, e), Follows-patch p f rs k a h e)
Change-Follows {rs} {es = es} k {a} (appends now event_name payload route run found live) e = (
  patch (has_id run.run_id) (advance now event_name payload route) a,
  rw (
    first-reassign (has_id run.run_id) (advance now event_name payload route)
        (SameKey-advance now event_name payload route) rs k,
    e,
  ),
  Follows-advance now event_name payload route run a rs k found live e,
)

-- From a well-formed store, whatever calls follow, the row of a run stays in the table with its
-- id, its scope, its message, the hash of its request and its dependency; its lease generation
-- and its last sequence do not shrink; and where the run was terminal, the row is the same as
-- before.
pub execute-Follows :
    (ops : List Op) (db : Db) (k : String) {a : Run}
    → WellFormed db.runs db.events
    → first (has_id k) db.runs ≡ some a
    → (b : Run) × (first (has_id k) (execute db ops).runs ≡ some b) × Follows a b
unfolding execute
execute-Follows [] db k {a} w e = (a, e, Follows-refl a)
execute-Follows (op ∷ ops) db k {a} w e =
    let (b, found, near) = Change-Follows k (step-Change op db w) e in
    let (c, found', far) = execute-Follows ops (step op db) k (step-WellFormed op db w) found in
    (c, found', Follows-trans near far)
