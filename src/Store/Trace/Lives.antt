-- ===== src/Store/Trace/Lives.antt =====
-- The abstract view of the store: the life of each run, which forgets all of a row but whether it is
-- open, how many events it has, and how it has ended. The calls of the store refine its moves.
use yjdlagent.Prelude.{
  ℕ, ◌+◌, ◌≡◌, refl, sym, ◌∙◌, Bool, true, false, Option, none, some, List, [], ◌∷◌, ◌++◌, String,
  arith, Bool-cases, Option-cases, inl, inr, eq_iff, if◌then◌else◌,
}
use yjdlagent.Json.{Fields}
use yjdlagent.Table.{first, patch}
use yjdlagent.Table.Laws.{first_has, first-append, All-first}
use yjdlagent.Store.Schema.{Db, Run, Event, Status, is_terminal, terminal, nonterminal, has_id}
use yjdlagent.Store.Ledger.{advance}
use yjdlagent.Store.Change.{WellFormed, Reassigns, Change, stays, creates, reassigns, appends}
use yjdlagent.Store.Change.Keys.{SameKey-advance, first-reassign}
use yjdlagent.Store.Trace.{Op, step, execute}
use yjdlagent.Store.Trace.Invariant.{step-Change, step-WellFormed}

pub data Life : Type 0 where
  absent : Life
  live : ℕ → Life
  ended : ℕ → Status → Life

-- A row as the abstract view sees it.
abbrev pub life_of : Option Run → Life
life_of none = absent
life_of (some r) = if terminal r then ended r.last_sequence r.status else live r.last_sequence

abbrev pub life : String → Db → Life
life k db = life_of (first (has_id k) db.runs)

-- The moves of a life: a run begins without events, gets one event at a time, and ends with one.
pub data Move (x y : Life) : Type 0 where
  rests : y ≡ x → Move x y
  begins : x ≡ absent → y ≡ live 0 → Move x y
  continues : (n : ℕ) → x ≡ live n → y ≡ live (n + 1) → Move x y
  ends : (n : ℕ) (s : Status) → x ≡ live n → y ≡ ended (n + 1) s → is_terminal s ≡ true → Move x y

-- The course of the life of a run along some calls: each call makes one move, and what it leads to is
-- where the next one starts.
abbrev pub Course : String → Db → List Op → Type 0
Course k db [] = Unit
Course k db (op ∷ ops) = Move (life k db) (life k (step op db)) × Course k (step op db) ops

live_of_open : (r : Run) → nonterminal r ≡ true → terminal r ≡ false
live_of_open r h = ground arith

life-live : (r : Run) → terminal r ≡ false → life_of (some r) ≡ live r.last_sequence
life-live r h = rw h refl

Move-begins :
    (k : String) (rs : List Run) (r : Run)
    → nonterminal r ≡ true
    → r.last_sequence ≡ 0
    → Move (life_of (first (has_id k) rs)) (life_of (first (has_id k) (rs ++ r ∷ [])))
Move-begins k rs r h z = elim (Option-cases (first (has_id k) rs)) [
  | inl e ↦ elim (Bool-cases (has_id k r)) [
    | inl t ↦ rw (first-append, e, t, life-live r (live_of_open r h), z) (begins refl refl)
    | inr n ↦ rw (first-append, e, n) (rests refl)
  ]
  | inr (a, e) ↦ rw (first-append, e) (rests refl)
]

Move-reassigns :
    (p : Run → Bool) (f : Run → Run) (k : String) (rs : List Run) (a : Run)
    → Reassigns p f rs
    → first (has_id k) rs ≡ some a
    → Move (life_of (some a)) (life_of (some (patch p f a)))
Move-reassigns p f k rs a h e = elim (Bool-cases (p a)) [
  | inl t ↦
      let was : nonterminal a ≡ true =
        All-first (λ x. p x ≡ true → nonterminal x ≡ true) (has_id k) rs h.open_only e t in
      let is = live_of_open (f a) (h.stays_open a was) in
      rw (t, life-live a (live_of_open a was), life-live (f a) is, h.same_sequence a) (rests refl)
  | inr n ↦ rw n (rests refl)
]

Move-advance :
    (now : ℕ) (name : String) (payload : Fields) (route : Option String) (a : Run)
    → terminal a ≡ false
    → Move (life_of (some a)) (life_of (some (advance now name payload route a)))
unfolding advance
Move-advance now name payload route a h =
    elim (Bool-cases (terminal (advance now name payload route a))) [
      | inl t ↦ rw (life-live a h, t) (ends a.last_sequence _ refl refl t)
      | inr n ↦ rw (life-live a h, n) (continues a.last_sequence refl refl)
    ]

Move-appends :
    (now : ℕ) (name : String) (payload : Fields) (route : Option String) (run a : Run)
    (rs : List Run) (k : String)
    → first (has_id run.run_id) rs ≡ some run
    → terminal run ≡ false
    → first (has_id k) rs ≡ some a
    → Move
        (life_of (some a))
        (life_of (some (patch (has_id run.run_id) (advance now name payload route) a)))
Move-appends now name payload route run a rs k found open_run e =
    elim (Bool-cases (has_id run.run_id a)) [
      | inl t ↦
          let same_id : run.run_id ≡ k =
            ground
              (arith, eq_iff a.run_id run.run_id, eq_iff a.run_id k, first_has (has_id k) rs e) in
          let same : some a ≡ some run = sym e ∙ rw (← same_id) found in
          rw t (Move-advance now name payload route a (ground (arith, same)))
      | inr n ↦ rw n (rests refl)
    ]

Change-Move :
    {grows : Bool} {rs rs' : List Run} {es es' : List Event} (k : String)
    → Change grows rs es rs' es'
    → Move (life_of (first (has_id k) rs)) (life_of (first (has_id k) rs'))
Change-Move k stays = rests refl
Change-Move {rs = rs} {es = es} k (creates r g new open_run z dep) = Move-begins k rs r open_run z
Change-Move {rs = rs} {es = es} k (reassigns p f h) = elim (Option-cases (first (has_id k) rs)) [
  | inl e ↦ rw (first-reassign p f h.same_key rs k, e) (rests refl)
  | inr (a, e) ↦ rw (first-reassign p f h.same_key rs k, e) (Move-reassigns p f k rs a h e)
]
Change-Move {rs = rs} {es = es} k (appends now name payload route run found open_run) =
    let f = advance now name payload route in
    let key = SameKey-advance now name payload route in
    elim (Option-cases (first (has_id k) rs)) [
      | inl e ↦ rw (first-reassign (has_id run.run_id) f key rs k, e) (rests refl)
      | inr (a, e) ↦
          rw (first-reassign (has_id run.run_id) f key rs k, e)
            (Move-appends now name payload route run a rs k found open_run e)
    ]

-- Each call of the store makes one move of the life of each run, in which it may rest.
step-Move :
    (op : Op) (db : Db) (k : String)
    → WellFormed db.runs db.events
    → Move (life k db) (life k (step op db))
step-Move op db k w = Change-Move k (step-Change op db w)

step-Course :
    (db : Db) (ops : List Op) (k : String) → WellFormed db.runs db.events → Course k db ops
step-Course db [] k w = tt
step-Course db (op ∷ ops) k w =
    (step-Move op db k w, step-Course (step op db) ops k (step-WellFormed op db w))

Move-ended : (x y : Life) (n : ℕ) (s : Status) → x ≡ ended n s → Move x y → y ≡ ended n s
Move-ended x y n s e (rests f) = f ∙ e
Move-ended x y n s e (begins f g) = cc
Move-ended x y n s e (continues m f g) = cc
Move-ended x y n s e (ends m t f g h) = cc

-- An ended life does not move any more.
Course-ended :
    (k : String) (db : Db) (ops : List Op) (n : ℕ) (s : Status)
    → life k db ≡ ended n s
    → Course k db ops
    → life k (execute db ops) ≡ ended n s
unfolding execute
Course-ended k db [] n s e path = e
Course-ended k db (op ∷ ops) n s e (move, path) =
    Course-ended k (step op db) ops n s (Move-ended _ _ n s e move) path

-- What has ended is as it was.
abbrev pub Settled : Life → Life → Type 0
Settled (ended n s) y = y ≡ ended n s
Settled _ y = Unit

Course-Settled :
    (k : String) (db : Db) (ops : List Op) (x : Life)
    → life k db ≡ x
    → Course k db ops
    → Settled x (life k (execute db ops))
Course-Settled k db ops absent e path = tt
Course-Settled k db ops (live n) e path = tt
Course-Settled k db ops (ended n s) e path = Course-ended k db ops n s e path

-- The calls of the store refine the lives of its runs: from a well-formed store, whatever calls
-- follow, each of them makes at most one move of the life of each run, known or not: it begins open
-- and without events, gets one event, or ends with one event, so that no call skips a number or
-- moves back. A run that has ended is, after all these calls, as it has ended.
pub execute-Course :
    (ops : List Op) (db : Db) (k : String)
    → WellFormed db.runs db.events
    → Course k db ops × Settled (life k db) (life k (execute db ops))
execute-Course ops db k w =
    let path = step-Course db ops k w in (path, Course-Settled k db ops (life k db) refl path)
