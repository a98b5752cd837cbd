-- ===== src/Workflow/Summary.antt =====
-- app/agent/map_summary.py: `summarize_map_result`.
mod Examples
use yjdlagent.Prelude.{
  ℕ, ◌≡◌, refl, ap, Bool, true, false, Option, none, some, List, [], ◌∷◌, String, if◌then◌else◌,
}
use yjdlagent.Json.{
  Json, Items, Fields, null, bool, num, real, text, iso, arr, obj, nil, cons, items, fields,
  get_field, truthy,
}
use yjdlagent.Errors.{Result, ok, err}
use yjdlagent.Python.{◌>>=◌, or_default, iterate, list_of}

-- the value of a key, or None
abbrev or_null : Option Json → Json
or_null = or_default null

abbrev is_set : Option Json → Bool
is_set none = false
is_set (some v) = truthy v

-- `map_result.get("resultSets") or map_result.get("resultCounts", [])`
unfoldable pub result_sets_of : Fields → Json
unfolding get_field truthy
result_sets_of m =
    if is_set (get_field "resultSets" m)
    then or_null (get_field "resultSets" m)
    else or_default (arr nil) (get_field "resultCounts" m)

unfoldable pub count_fields : Fields → Fields
unfolding get_field truthy
count_fields item = fields (
    ("role", or_null (get_field "role" item))
    ∷ ("layerId", or_null (get_field "layerId" item))
    ∷ ("layerName", or_null (get_field "layerName" item))
    ∷ ("geometryType", or_null (get_field "geometryType" item))
    ∷ ("total", or_default (num 0) (get_field "total" item))
    ∷ ("returned", or_default (num 0) (get_field "returned" item))
    ∷ ("exceededTransferLimit", bool (is_set (get_field "exceededTransferLimit" item)))
    ∷ [])

-- the counts of the result sets that are dicts
unfoldable pub counts_of : List Json → List Json
unfolding count_fields
counts_of [] = []
counts_of (obj item ∷ rest) = obj (count_fields item) ∷ counts_of rest
counts_of (x ∷ rest) = counts_of rest

abbrev summary_fields : Fields → List Json → Fields
summary_fields m counts = fields (
    ("queryId", or_null (get_field "queryId" m))
    ∷ ("querySummary", or_null (get_field "querySummary" m))
    ∷ ("appliedFilters", or_default (arr nil) (get_field "appliedFilters" m))
    ∷ ("resultCounts", arr (items counts))
    ∷ ("warnings", or_default (arr nil) (get_field "warnings" m))
    ∷ [])

unfoldable pub summarize_map_result : Json → Result (Option Fields)
unfolding result_sets_of counts_of get_field
summarize_map_result (obj m) =
    iterate (result_sets_of m) >>= λ sets. ok (some (summary_fields m (counts_of sets)))
summarize_map_result _ = ok none

counts_of-idempotent : (xs : List Json) → counts_of (counts_of xs) ≡ counts_of xs
unfolding counts_of count_fields get_field truthy
counts_of-idempotent [] = refl
counts_of-idempotent (obj item ∷ rest) =
    ap (λ l. obj (count_fields item) ∷ l) (counts_of-idempotent rest)
counts_of-idempotent (null ∷ rest) = counts_of-idempotent rest
counts_of-idempotent (bool b ∷ rest) = counts_of-idempotent rest
counts_of-idempotent (num n ∷ rest) = counts_of-idempotent rest
counts_of-idempotent (real s ∷ rest) = counts_of-idempotent rest
counts_of-idempotent (text s ∷ rest) = counts_of-idempotent rest
counts_of-idempotent (iso t ∷ rest) = counts_of-idempotent rest
counts_of-idempotent (arr xs ∷ rest) = counts_of-idempotent rest

list_of-items : (xs : List Json) → list_of (items xs) ≡ xs
list_of-items [] = refl
list_of-items (x ∷ xs) = ap (λ l. x ∷ l) (list_of-items xs)

-- A summary, if there is one, is its own summary.
abbrev pub Settled : Result (Option Fields) → Type 0
Settled (ok (some s)) = summarize_map_result (obj s) ≡ ok (some s)
Settled _ = Unit

counts_again : (xs : List Json) → counts_of (list_of (items (counts_of xs))) ≡ counts_of xs
counts_again xs = rw list_of-items (counts_of-idempotent xs)

sets-Settled :
    (m : Fields) (sets : Result (List Json))
    → Settled (sets >>= λ xs. ok (some (summary_fields m (counts_of xs))))
unfolding summarize_map_result result_sets_of get_field truthy
sets-Settled m (err e) = tt
sets-Settled m (ok xs) = ap (λ l. ok (some (summary_fields m l))) (counts_again xs)

-- Where a map result has a summary, the summary of that summary is itself.
pub summarize_map_result-Settled : (j : Json) → Settled (summarize_map_result j)
unfolding summarize_map_result
summarize_map_result-Settled (obj m) = sets-Settled m (iterate (result_sets_of m))
summarize_map_result-Settled null = tt
summarize_map_result-Settled (bool b) = tt
summarize_map_result-Settled (num n) = tt
summarize_map_result-Settled (real s) = tt
summarize_map_result-Settled (text s) = tt
summarize_map_result-Settled (iso t) = tt
summarize_map_result-Settled (arr xs) = tt
