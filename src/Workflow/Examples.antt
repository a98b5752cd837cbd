-- ===== src/Workflow/Examples.antt =====
-- Map tools on small inputs, and the theorems about them at such inputs.
use yjdlagent.Python.Samples.{digits}
use yjdlagent.Prelude.{◌≡◌, refl, true, false, none, some, List, [], ◌∷◌}
use yjdlagent.Json.{Json, Fields, num, text, fields, dict, arr, obj, cons, nil}
use yjdlagent.Errors.{no_details, ok, err, agent_error}
use yjdlagent.Python.{pos}
use yjdlagent.Store.Schema.{empty_db, ToolStatus}
use yjdlagent.Workflow.Results.{ToolCall, MapResult, build_map_result}
use yjdlagent.Workflow.Results.Limits.{IsMapResult, build_map_result-IsMapResult}
use yjdlagent.Workflow.Acceptance.{Catalog}
use yjdlagent.Workflow.Execution.{Journal, Reply, Progress, started, completed, run_calls}
use yjdlagent.Workflow.Execution.Balance.{Runs, run_calls-Runs}
use yjdlagent.Store.Trace.{create, execute, step}
use yjdlagent.Store.Create.{Submission, create_or_attach}

abbrev points : ToolCall
points = record {
  tool_call_id = "c1";
  tool_name = "queryMapPoints";
  arguments = fields (("layerId", num 3) ∷ []);
}

abbrev house : Json
house = dict (
    ("attributes", dict (("OBJECTID", num 7) ∷ []))
    ∷ (
      "geometry",
      dict (
          ("spatialReference", dict (("wkid", num 4326) ∷ []))
          ∷ ("x", num 121)
          ∷ ("y", num 38)
          ∷ []),
    )
    ∷ [])

abbrev one_house : Fields
one_house = fields (
    ("layerId", num 3)
    ∷ ("layerName", text "homes")
    ∷ ("geometryType", text "point")
    ∷ ("total", num 2)
    ∷ ("features", arr (cons house nil))
    ∷ [])

abbrev houses : MapResult
houses = record {
  query_id = "q";
  tool_call_ids = "c1" ∷ [];
  total_returned = 1;
  applied_filters = [];
  result_sets =
      record {
        tool_call_id = "c1";
        layer_id = pos 3;
        layer_name = text "homes";
        geometry_type = "point";
        total = pos 2;
        exceeded_transfer_limit = true;
        object_id_field = "OBJECTID";
        features =
            record {
              id = "7:7";
              attributes = fields (("OBJECTID", num 7) ∷ []);
              geometry = some (
                  dict (
                    ("spatialReference", dict (("wkid", num 4326) ∷ []))
                    ∷ ("x", num 121)
                    ∷ ("y", num 38)
                    ∷ []));
            }
            ∷ [];
      }
      ∷ [];
  warnings = "图层 7 仅返回部分结果" ∷ [];
}

finds_house : build_map_result digits "q" (points ∷ []) (one_house ∷ []) ≡ ok houses
unfolding build_map_result
finds_house = refl

build_map_result-IsMapResult_example : IsMapResult digits houses
build_map_result-IsMapResult_example =
    build_map_result-IsMapResult digits "q" (points ∷ []) (one_house ∷ []) finds_house

abbrev reply : Reply
reply = record {
  response = ok (
      fields
        (("status", text "SUCCEEDED") ∷ ("result", obj one_house) ∷ ("durationMs", num 12) ∷ []));
  started_at = 2000000;
  completed_at = 3000000;
  elapsed = 15;
}

abbrev rejection : Reply
rejection = record reply {
  response = err (
      agent_error (record {
        code = "INVALID_TOOL_ARGUMENT";
        message = "bad layer";
        status_code = 400;
        retryable = false;
        details = no_details;
        retry_count = 0;
      }));
}

abbrev catalog : Catalog
catalog = record { has_tool = λ n. true; accepts = λ n r. true }

abbrev message : Submission
message = record {
  scope = record { tenant_id = "t"; user_id = "u"; conversation_id = "c" };
  message_id = "m1";
  trace_id = "trace";
  request = dict [];
  request_hash = "h";
}

abbrev journal : Journal
journal = record {
  db = execute empty_db (create 1500000 "run1" message (some 5) ∷ []);
  emitted = [];
}

-- one call succeeds, and another one is rejected
abbrev plan : List (ToolCall × Reply)
plan = (points, reply) ∷ (record points { tool_call_id = "c2" }, rejection) ∷ []

abbrev idle : Progress
idle = record { outputs = []; successful = []; warnings = []; last_error = none }

sends_pairs :
    (run_calls digits (λ j. "digest") catalog "run1" plan idle journal).1.emitted
    ≡ started "c1" "queryMapPoints"
      ∷ completed "c1" "queryMapPoints" ToolStatus.succeeded 12
      ∷ started "c2" "queryMapPoints"
      ∷ completed "c2" "queryMapPoints" ToolStatus.rejected 15
      ∷ []
unfolding run_calls execute step create_or_attach
sends_pairs = refl

run_calls-Runs_example :
    Runs digits
      (λ j. "digest")
      catalog
      "run1"
      plan
      idle
      journal
      (run_calls digits (λ j. "digest") catalog "run1" plan idle journal)
run_calls-Runs_example = run_calls-Runs digits (λ j. "digest") catalog "run1" plan idle journal
