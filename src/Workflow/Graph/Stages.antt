-- ===== src/Workflow/Graph/Stages.antt =====
-- app/agent/workflow.py: which nodes a run of the graph goes through, and what is recorded of them.
use mathlib.Core.List.{append_assoc, append-nil}
use yjdlagent.Prelude.{
  ◌∙◌, ℕ, zero, suc, ◌≤◌, ◌≡◌, refl, sym, ap, true, Option, none, some, List, [], ◌∷◌, ◌++◌, map,
  String, arith,
}
use yjdlagent.Json.{Json, Fields}
use yjdlagent.Errors.{Result, ok, err, Exception}
use yjdlagent.Table.{any}
use yjdlagent.Store.Schema.{Db, StageMetric, has_id}
use yjdlagent.Store.Transaction.{Call, connect}
use yjdlagent.Store.Metrics.{Span, insert_for, record_stage}
use yjdlagent.Workflow.Graph.{
  Node, route_intent, retrieve_knowledge, load_catalog, plan_housing_search, plan_map,
  execute_map_tools, compose_answer, stage_of, next_node, stage_metadata, failure_span,
  success_span, Times, record_success, observe_stage, normalization_span, observed, after, and_then,
  after_node, go_on, run_graph,
}
use yjdlagent.Workflow.Graph.Edges.{Edge, rank, rank-positive, Edge-rank, EdgeTo, next_node-EdgeTo}

-- the names and the states of the stages that are recorded
abbrev pub stages : Db → List (String × String)
stages db = map (λ (m : StageMetric). (m.stage_name, m.status)) db.stage_metrics

abbrev pub Known : String → Db → Type 0
Known run_id db = any (has_id run_id) db.runs ≡ true

-- what a node records that succeeds
abbrev pub done : Node → List (String × String)
done route_intent = ("ROUTING", "SUCCEEDED") ∷ ("INPUT_NORMALIZATION", "SUCCEEDED") ∷ []
done node = (stage_of node, "SUCCEEDED") ∷ []

module _ (nodes : Node → Fields → Call Fields) (merge : Fields → Fields → Fields) where
  -- `Recorded n state db r l`: from the node `n` on, with this state and this database, `l` is
  -- recorded and the graph ends with `r`. A node that raises is recorded as failed; nothing is
  -- recorded of one that succeeds if the metadata of its span cannot be computed.
  pub data Recorded : Node → Fields → Db → Result Fields → List (String × String) → Type 0 where
    answers :
        (n : Node) (s : Fields) (db : Db) (update : Fields)
        → n ≡ compose_answer
        → (nodes n s db).0 ≡ ok update
        → Recorded n s db (ok (merge s update)) (done n)
    fails :
        (n : Node) (s : Fields) (db : Db) (e : Exception)
        → (nodes n s db).0 ≡ err e
        → Recorded n s db (err e) ((stage_of n, "FAILED") ∷ [])
    unmeasured :
        (n : Node) (s : Fields) (db : Db) (update : Fields) (e : Exception)
        → (nodes n s db).0 ≡ ok update
        → stage_metadata n update ≡ err e
        → Recorded n s db (err e) []
    lost :
        (n : Node) (s : Fields) (db : Db) (update : Fields) (e : Exception)
        → (nodes n s db).0 ≡ ok update
        → next_node n (merge s update) ≡ err e
        → Recorded n s db (err e) (done n)
    goes :
        (n m : Node) (s : Fields) (db db' : Db) (update : Fields) (r : Result Fields)
        (l : List (String × String))
        → (nodes n s db).0 ≡ ok update
        → next_node n (merge s update) ≡ ok (some m)
        → Edge n m
        → stages db' ≡ stages db ++ done n
        → Recorded m (merge s update) db' r l
        → Recorded n s db r (done n ++ l)

map-append : {A B : Type 0} (f : A → B) (xs ys : List A) → map f (xs ++ ys) ≡ map f xs ++ map f ys
map-append f [] ys = refl
map-append f (x ∷ xs) ys = ap (λ l. f x ∷ l) (map-append f xs ys)

-- How the stage of a node ends, whose own result is `own`, and what is recorded of it.
data Ends (n : Node) (own : Result Fields) : Result Fields → List (String × String) → Type 0 where
  succeeded : (update : Fields) → own ≡ ok update → Ends n own (ok update) (done n)
  failed : (e : Exception) → own ≡ err e → Ends n own (err e) ((stage_of n, "FAILED") ∷ [])
  uncounted :
      (update : Fields) (e : Exception)
      → own ≡ ok update
      → stage_metadata n update ≡ err e
      → Ends n own (err e) []

module _ (run_id : String) where
  -- A call has recorded `l`, and the run is still known.
  abbrev pub Adds : Db → List (String × String) → Db → Type 0
  Adds db l db' = (stages db' ≡ stages db ++ l) × Known run_id db'

  record_stage-Adds :
      (now : ℕ) (s : Span) (db : Db)
      → Known run_id db
      → ((record_stage now run_id s db).0 ≡ ok tt)
        × Adds db ((s.stage_name, s.status) ∷ []) (record_stage now run_id s db).1
  unfolding record_stage connect insert_for
  record_stage-Adds now s db k = rw k (refl, (map-append _ db.stage_metrics _, k))

  Adds-trans :
      (db db' db'' : Db) (l m : List (String × String))
      → Adds db l db'
      → Adds db' m db''
      → Adds db (l ++ m) db''
  Adds-trans db db' db'' l m (e, k) (e', k') =
      (e' ∙ ap (λ x. x ++ m) e ∙ append_assoc (stages db) l m, k')

  -- A span is recorded in front of a result.
  after-record :
      (now : ℕ) (s : Span) (db : Db) (r : Result Fields)
      → Known run_id db
      → (db' : Db) × (after (record_stage now run_id s db) r ≡ (r, db'))
        × Adds db ((s.stage_name, s.status) ∷ []) db'
  after-record now s db r k =
      let (o, adds) = record_stage-Adds now s db k in
      (
        (record_stage now run_id s db).1,
        ap (λ (x : Result (Unit {0})). after (x, (record_stage now run_id s db).1) r) o,
        adds,
      )

  -- What is left when a node has been observed.
  abbrev EndsAt : Node → Result Fields → Db → Result Fields × Db → Type 0
  EndsAt n own db out = (l : List (String × String)) × Ends n own out.0 l × Adds db l out.1

  module _ (times : Node → Times) where
    -- What is left of a stage: its success, or an exception.
    abbrev Observed : Node → Result Fields → Db → Result Fields × Db → Type 0
    Observed n own db (ok u, db') = (own ≡ ok u) × Adds db ((stage_of n, "SUCCEEDED") ∷ []) db'
    Observed n own db (err e, db') = EndsAt n own db (err e, db')

    record_success-Observed :
        (n : Node) (u : Fields) (m : Result Json) (db : Db)
        → Known run_id db
        → stage_metadata n u ≡ m
        → Observed n (ok u) db (record_success run_id times n u m db)
    record_success-Observed n u (err e) db k c = ([], uncounted u e refl c, (sym (append-nil _), k))
    record_success-Observed n u (ok m) db k c =
        let (db', e, adds) =
          after-record (times n).first_at (success_span n (times n).duration u m) db (ok u) k in
        rw e (refl, adds)

    observe_stage-Observed :
        (n : Node) (r : Result Fields) (db : Db)
        → Known run_id db
        → Observed n r db (observe_stage run_id times n (r, db))
    unfolding observe_stage
    observe_stage-Observed n (ok u) db k =
        record_success-Observed n u (stage_metadata n u) db k refl
    observe_stage-Observed n (err e) db k =
        let (db', eq, adds) =
          after-record (times n).first_at (failure_span (stage_of n) (times n).duration e) db
            (err e) k in
        rw eq ((stage_of n, "FAILED") ∷ [], failed e refl, adds)

    and_then-EndsAt :
        (own : Result Fields) (db : Db) (out : Result Fields × Db)
        → Observed route_intent own db out
        → EndsAt route_intent own db (
            and_then out (λ update db'.
              after
                (record_stage
                  (times route_intent).second_at
                  run_id
                  (normalization_span run_id times update)
                  db')
                (ok update)))
    and_then-EndsAt own db (err e, db') h = h
    and_then-EndsAt own db (ok u, db') (o, h) =
        let (db'', eq, adds) =
          after-record (times route_intent).second_at (normalization_span run_id times u) db' (ok u)
            h.1 in
        rw eq (done route_intent, succeeded u o, Adds-trans db db' db'' _ _ h adds)

    single-EndsAt :
        (n : Node) (own : Result Fields) (db : Db) (out : Result Fields × Db)
        → done n ≡ (stage_of n, "SUCCEEDED") ∷ []
        → Observed n own db out
        → EndsAt n own db out
    single-EndsAt n own db (err e, db') d h = h
    single-EndsAt n own db (ok u, db') d (o, h) = (done n, succeeded u o, rw d h)

    observed-EndsAt :
        (n : Node) (r : Result Fields) (db : Db)
        → Known run_id db
        → EndsAt n r db (observed run_id times n (r, db))
    unfolding observed
    observed-EndsAt route_intent r db k =
        and_then-EndsAt r db _ (observe_stage-Observed route_intent r db k)
    observed-EndsAt retrieve_knowledge r db k =
        single-EndsAt retrieve_knowledge r db _ refl
          (observe_stage-Observed retrieve_knowledge r db k)
    observed-EndsAt load_catalog r db k =
        single-EndsAt load_catalog r db _ refl (observe_stage-Observed load_catalog r db k)
    observed-EndsAt plan_housing_search r db k =
        single-EndsAt plan_housing_search r db _ refl
          (observe_stage-Observed plan_housing_search r db k)
    observed-EndsAt plan_map r db k =
        single-EndsAt plan_map r db _ refl (observe_stage-Observed plan_map r db k)
    observed-EndsAt execute_map_tools r db k =
        single-EndsAt execute_map_tools r db _ refl
          (observe_stage-Observed execute_map_tools r db k)
    observed-EndsAt compose_answer r db k =
        single-EndsAt compose_answer r db _ refl (observe_stage-Observed compose_answer r db k)

    module _ (nodes : Node → Fields → Call Fields) (merge : Fields → Fields → Fields) where
      -- What a run of the graph leaves from a node on.
      abbrev pub Runs : Node → Fields → Db → Option (Result Fields) × Db → Type 0
      Runs n s db out =
          (r : Result Fields) × (l : List (String × String)) × (out.0 ≡ some r)
          × Recorded nodes merge n s db r l
          × Adds db l out.1

      go_on-Runs :
          (n : Node) (s : Fields) (db : Db) (u : Fields) (db' : Db) (o : Result (Option Node))
          (run : Node → Option (Result Fields) × Db)
          → (nodes n s db).0 ≡ ok u
          → next_node n (merge s u) ≡ o
          → EdgeTo n o
          → Adds db (done n) db'
          → ((m : Node) → Edge n m → Runs m (merge s u) db' (run m))
          → Runs n s db (go_on (merge s u) db' o run)
      go_on-Runs n s db u db' (err e) run own to h adds later =
          (err e, done n, refl, lost n s db u e own to, adds)
      go_on-Runs n s db u db' (ok none) run own to h adds later =
          (ok (merge s u), done n, refl, answers n s db u h own, adds)
      go_on-Runs n s db u db' (ok (some m)) run own to h adds later =
          let (r, l, eq, recorded, more) = later m h in
          (
            r,
            done n ++ l,
            eq,
            goes n m s db db' u r l own to h adds.0 recorded,
            Adds-trans db db' (run m).1 (done n) l adds more,
          )

      Ends-err :
          (n : Node) (s : Fields) (db : Db) (e : Exception) (l : List (String × String))
          → Ends n (nodes n s db).0 (err e) l
          → Recorded nodes merge n s db (err e) l
      Ends-err n s db e l (failed x o) = fails n s db e o
      Ends-err n s db e l (uncounted u x o c) = unmeasured n s db u e o c

      Ends-ok :
          (n : Node) (own : Result Fields) (u : Fields) (l : List (String × String))
          → Ends n own (ok u) l
          → (l ≡ done n) × (own ≡ ok u)
      Ends-ok n own u l (succeeded x o) = (refl, o)

      after_node-Runs :
          (n : Node) (s : Fields) (db : Db) (run : Fields → Db → Node → Option (Result Fields) × Db)
          (out : Result Fields × Db)
          → EndsAt n (nodes n s db).0 db out
          → ((u : Fields) (db' : Db) (m : Node)
              → Edge n m
              → Known run_id db'
              → Runs m (merge s u) db' (run (merge s u) db' m))
          → Runs n s db (after_node (merge s) n run out)
      after_node-Runs n s db run (err e, db') (l, ends, adds) later =
          (err e, l, refl, Ends-err n s db e l ends, adds)
      after_node-Runs n s db run (ok u, db') (l, ends, adds) later =
          let (all, own) = Ends-ok n (nodes n s db).0 u l ends in
          go_on-Runs n s db u db' (next_node n (merge s u)) (run (merge s u) db') own refl
            (next_node-EdgeTo n (merge s u)) (rw all at adds) (λ m edge. later u db' m edge adds.1)

      module _ (quiet : (n : Node) (s : Fields) (db : Db) → stages (nodes n s db).1 ≡ stages db)
          (keeps : (n : Node) (s : Fields) (db : Db)
            → Known run_id db
            → Known run_id (nodes n s db).1) where
        run_graph-Runs :
            (fuel : ℕ) (n : Node) (state : Fields) (db : Db)
            → rank n ≤ fuel
            → Known run_id db
            → Runs n state db (run_graph run_id times nodes merge fuel n state db)
        unfolding run_graph
        run_graph-Runs zero n state db h k = absurd (omega (arith, rank-positive n))
        run_graph-Runs (suc fuel) n state db h k =
            let out = nodes n state db in
            let (l, ends, (e, known)) = observed-EndsAt n out.0 out.1 (keeps n state db k) in
            after_node-Runs n state db (λ s d m. run_graph run_id times nodes merge fuel m s d)
              (observed run_id times n out) (l, ends, (rw (quiet n state db) at e, known))
              (λ u db' m edge known'.
                run_graph-Runs fuel m (merge state u) db' (omega (arith, Edge-rank edge)) known')

-- A run of the graph, on fuel for six nodes, ends with an answer or an exception, if no node records
-- stages of its own or removes the run. It has gone through the nodes along the edges, each with the
-- state that the one before has left, and has recorded them in this order: each that succeeded, and
-- the one that raised, if one did, as failed. It ends with an answer only if `compose_answer` has
-- given it; otherwise with the exception of the node that raised, or with the exception of the
-- metadata of a span, which then is not recorded, or of the choice of the next node.
pub run_graph-Recorded :
    (run_id : String) (times : Node → Times) (nodes : Node → Fields → Call Fields)
    (merge : Fields → Fields → Fields)
    → ((n : Node) (s : Fields) (db : Db) → stages (nodes n s db).1 ≡ stages db)
    → ((n : Node) (s : Fields) (db : Db) → Known run_id db → Known run_id (nodes n s db).1)
    → (state : Fields) (db : Db) → Known run_id db
    → Runs run_id times nodes merge route_intent state db
        (run_graph run_id times nodes merge 6 route_intent state db)
run_graph-Recorded run_id times nodes merge quiet keeps state db k =
    run_graph-Runs run_id times nodes merge quiet keeps 6 route_intent state db (omega arith) k
