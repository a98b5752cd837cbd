-- ===== src/Store/Memory.antt =====
-- app/agent/store.py: the conversation memory, a bounded history for each conversation.
use yjdlagent.Prelude.{
  ℕ, ◌+◌, Bool, false, not, Option, none, some, List, [], ◌∷◌, ◌++◌, take, String, ltb, leb, ◌&&◌,
  opt_eq, if◌then◌else◌, min, max,
}
use mathlib.Core.List.{reverse}
use yjdlagent.Json.{Json, truthy}
use yjdlagent.Errors.{ok}
use yjdlagent.Text.{strip, slice_to}
use yjdlagent.Table.{select, row_count, any, order_by}
use yjdlagent.Store.Schema.{Memory, Db, Scope, memory_in}
use yjdlagent.Store.Transaction.{Call, connect}

-- max(1, min(int(limit), 20))
abbrev pub clamp_limit : ℕ → ℕ
clamp_limit limit = max 1 (min limit 20)

unfoldable pub memory_row :
    ℕ → ℕ → Option String → Scope → String → String → Option String → Option Json → Memory
unfolding strip slice_to truthy
memory_row id now run_id scope user_query assistant_answer route map_summary = record {
  id = id;
  run_id = run_id;
  tenant_id = scope.tenant_id;
  user_id = scope.user_id;
  conversation_id = scope.conversation_id;
  user_query = slice_to 4000 (strip user_query);
  assistant_answer = slice_to 4000 (strip assistant_answer);
  route = route;
  map_summary = elim map_summary [
    | none ↦ none
    | some summary ↦ if truthy summary then some summary else none
  ];
  created_at = now;
}

-- ON CONFLICT(run_id) WHERE run_id IS NOT NULL
abbrev pub same_run : Option String → Memory → Bool
same_run none m = false
same_run (some k) m = opt_eq m.run_id (some k)

-- the INSERT, which does nothing on a conflict
unfoldable pub insert_memory : (ℕ → Memory) → Db → Db
unfolding any
insert_memory row db =
    let next = db.memory_last_id + 1 in
    if any (same_run (row next).run_id) db.memory
    then db
    else record db { memory = db.memory ++ row next ∷ []; memory_last_id = next }

-- `id NOT IN (SELECT id ... ORDER BY id DESC LIMIT ?)`: as many rows of the scope as the limit
-- have a greater id
abbrev pub outranked : Scope → ℕ → List Memory → Memory → Bool
outranked scope limit rows m =
    leb limit (row_count (λ (x : Memory). memory_in scope x && ltb m.id x.id) rows)

abbrev pub kept : Scope → ℕ → List Memory → Memory → Bool
kept scope limit rows m = not (memory_in scope m && outranked scope limit rows m)

-- the DELETE
unfoldable pub trim_memory : Scope → ℕ → List Memory → List Memory
unfolding select row_count
trim_memory scope limit rows = select (kept scope limit rows) rows

-- `_save_conversation_memory_in_connection`
unfoldable pub save_in_connection :
    ℕ → Scope → String → String → Option String → Option Json → ℕ → Option String → Db → Db
unfolding insert_memory memory_row trim_memory
save_in_connection now scope user_query assistant_answer route map_summary limit run_id db =
    let db' =
      insert_memory
        (λ id. memory_row id now run_id scope user_query assistant_answer route map_summary) db in
    record db' { memory = trim_memory scope (clamp_limit limit) db'.memory }

unfoldable pub save_conversation_memory :
    ℕ → Scope → String → String → Option String → Option Json → ℕ → Option String → Call Unit
unfolding save_in_connection connect
save_conversation_memory now scope user_query assistant_answer route map_summary limit run_id =
    connect λ db. ok (
      tt,
      save_in_connection now scope user_query assistant_answer route map_summary limit run_id db,
    )

-- ORDER BY id DESC LIMIT ?, then `reversed`
unfoldable pub list_conversation_memory : Scope → ℕ → Db → List Memory
unfolding select order_by
list_conversation_memory scope limit db = reverse (
    take (clamp_limit limit)
      (reverse (order_by (λ (m : Memory). m.id) (select (memory_in scope) db.memory))))
