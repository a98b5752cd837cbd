-- ===== src/Runtime/Catalog/Examples.antt =====
-- A catalog with one tool, and a service that is ready.
use yjdlagent.Python.Samples.{digits}
use yjdlagent.Prelude.{◌≡◌, refl, true, false, none, some, [], ◌∷◌}
use yjdlagent.Json.{Json, Fields, bool, num, text, dict, arr, cons, nil, fields}
use yjdlagent.Errors.{ok, err, value_error}
use yjdlagent.Runtime.Catalog.{Service, refresh_catalog, refresh_catalog_health}
use yjdlagent.Runtime.Catalog.Readiness.{Outcome, refresh_catalog_health-Outcome}

abbrev tool : Json
tool = dict (
    ("name", text "queryMapPoints")
    ∷ ("sideEffect", bool false)
    ∷ ("timeoutMs", num 5000)
    ∷ ("inputSchema", dict [])
    ∷ ("outputSchema", dict [])
    ∷ [])

abbrev tools : Json → Fields
tools list = fields (("version", text "2026-08-21.1") ∷ ("tools", list) ∷ [])

abbrev one_tool : Fields
one_tool = tools (arr (cons tool nil))

abbrev snapshot : Json
snapshot = dict (("status", text "READY") ∷ ("catalogVersion", text "2026-08-21.1") ∷ [])

abbrev ready : Fields
ready = fields (("status", text "READY") ∷ ("housingSnapshot", snapshot) ∷ [])

abbrev unready : Fields
unready = fields (("status", text "STARTING") ∷ ("housingSnapshot", snapshot) ∷ [])

abbrev started : Service
started = record { catalog = none; tool_health = some ready; initialization_error = none }

becomes_ready :
    refresh_catalog_health digits (λ j. true) (λ n. false) (ok one_tool) (ok ready) started ≡ (
      record { catalog = some one_tool; tool_health = some ready; initialization_error = none },
      ok tt,
    )
unfolding refresh_catalog_health
becomes_ready = refl

stays_unready :
    (refresh_catalog_health digits (λ j. true) (λ n. false) (ok one_tool) (ok unready) started).0
    ≡ record { catalog = none; tool_health = some unready; initialization_error = none }
unfolding refresh_catalog_health
stays_unready = refl

-- A catalog without tools raises a `ValueError`, which is not noted.
no_tools :
    refresh_catalog digits (λ j. true) (λ n. false) (ok (tools (arr nil))) started
    ≡ (started, err (value_error "max() arg is an empty sequence"))
unfolding refresh_catalog
no_tools = refl

refresh_catalog_health-Outcome_example :
    Outcome digits
      (λ j. true)
      (λ n. false)
      (ok one_tool)
      (ok ready)
      started
      (refresh_catalog_health digits (λ j. true) (λ n. false) (ok one_tool) (ok ready) started)
refresh_catalog_health-Outcome_example =
    refresh_catalog_health-Outcome digits (λ j. true) (λ n. false) (ok one_tool) (ok ready) started
