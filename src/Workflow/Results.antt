-- ===== src/Workflow/Results.antt =====
-- app/agent/workflow.py: `build_map_result`.
pub mod Limits
use Prim.Native.String.{◌++◌ as cat}
use yjdlagent.Prelude.{
  ℕ, zero, suc, ◌+◌, Bool, true, false, not, Option, none, some, List, [], ◌∷◌, ◌++◌, map, String,
  ltb, leb, ◌&&◌, ◌||◌, length, str_eq, if◌then◌else◌, opt_eq,
}
use yjdlagent.Json.{
  Json, Items, Fields, null, bool, num, real, text, arr, obj, nil, cons, end, get_field, truthy,
}
use yjdlagent.Errors.{
  AgentError, no_details, Result, ok, err, Exception, agent_error, value_error, attribute_error,
  type_error,
}
use yjdlagent.Python.{
  ℤ, pos, negsuc, Numbers, ◌>>=◌, get_of, or_default, item_of, iterate, int_of, text_of, equal,
  dedupe,
}
use yjdlagent.Workflow.Consistency.{failed}
use yjdlagent.Workflow.Geometry.{object_id_field, valid_geometry}

-- A step of a plan.
pub record ToolCall : Type 0 where
  pub tool_call_id : String
  pub tool_name : String
  pub arguments : Fields

pub record Feature : Type 0 where
  pub id : String
  pub attributes : Fields
  pub geometry : Option Json

pub record ResultSet : Type 0 where
  pub tool_call_id : String
  pub layer_id : ℤ
  pub layer_name : Json
  pub geometry_type : String
  pub total : ℤ
  pub exceeded_transfer_limit : Bool
  pub object_id_field : String
  pub features : List Feature

-- The parts of the map result that depend on the input; "returned" of a set is the number of its
-- features, and `fitBounds` says whether there is a set.
pub record MapResult : Type 0 where
  pub query_id : String
  pub tool_call_ids : List String
  pub total_returned : ℕ
  pub applied_filters : List Json
  pub result_sets : List ResultSet
  pub warnings : List String

-- The variables of the loop over the features of a layer.
pub record Layer : Type 0 where
  pub mapped : List Feature
  pub id_field : Option String
  pub returned : ℕ
  pub notes : List String

-- The variables of the loop over the calls.
pub record Building : Type 0 where
  pub sets : List ResultSet
  pub notes : List String
  pub filters : List Json
  pub returned : ℕ

abbrev pub max_features : ℕ
max_features = 200

-- `m < n`
abbrev pub above : ℤ → ℕ → Bool
above (pos n) m = ltb m n
above (negsuc n) m = false

module _ (py : Numbers) where
  abbrev pub int_text : ℤ → String
  int_text (pos n) = py.decimal n
  int_text (negsuc n) = cat "-" (py.decimal (suc n))

  abbrev layer_note : ℤ → String → String
  layer_note layer_id message = cat "图层 " (cat (int_text layer_id) message)

  abbrev noted : String → Layer → Layer
  noted note s = record s { notes = s.notes ++ note ∷ [] }

  abbrev or_first : Option String → String → String
  or_first none current = current
  or_first (some first) current = first

  abbrev attribute_text : Option Json → String
  attribute_text none = ""
  attribute_text (some v) = text_of py v

  -- the part behind the tests of a feature with attributes
  unfoldable pub add_feature : ℤ → Option Json → Fields → Option String → Layer → Layer
  unfolding get_field
  add_feature layer_id geometry attributes none s =
      noted (layer_note layer_id " 中存在缺少对象 ID 的记录，已忽略") s
  add_feature layer_id geometry attributes (some current) s =
      let first = or_first s.id_field current in
      if str_eq current first
      then record {
        mapped =
            s.mapped
            ++ record {
              id = cat (int_text layer_id) (cat ":" (attribute_text (get_field first attributes)));
              attributes = attributes;
              geometry = geometry;
            }
              ∷ [];
        id_field = some first;
        returned = s.returned + 1;
        notes = s.notes;
      }
      else record s {
        id_field = some first;
        notes = s.notes ++ layer_note layer_id " 的对象 ID 字段不一致，已忽略异常记录" ∷ [];
      }

  unfoldable pub with_attributes : ℤ → Option Json → Option Json → Layer → Layer
  unfolding add_feature object_id_field
  with_attributes layer_id geometry (some (obj fs)) s =
      add_feature layer_id geometry fs (object_id_field fs) s
  with_attributes layer_id geometry _ s = noted (layer_note layer_id " 中存在缺少属性的记录，已忽略") s

  -- the body of the loop over the features, below the limit
  unfoldable pub map_feature : ℤ → String → Json → Layer → Result Layer
  unfolding with_attributes valid_geometry get_of
  map_feature layer_id geometry_type feature s = get_of "attributes" feature >>= λ attributes.
      get_of "geometry" feature >>= λ geometry.
      if valid_geometry py geometry geometry_type
      then ok (with_attributes layer_id geometry attributes s)
      else failed (layer_note layer_id " 返回了缺失或非法的 WGS84 几何")

  unfoldable pub map_features : ℤ → String → List Json → Layer → Result Layer
  unfolding map_feature
  map_features layer_id geometry_type [] s = ok s
  map_features layer_id geometry_type (f ∷ fs) s =
      if leb max_features s.returned
      then ok (noted "地图结果合计超过 200 条，已按契约截断" s)
      else (map_feature layer_id geometry_type f s >>= map_features layer_id geometry_type fs)

  abbrev pub is_true : Option Json → Bool
  is_true none = false
  is_true (some v) = truthy v

  -- the result set of a layer, if it has features
  unfoldable pub set_of :
      String → ℤ → String → Fields → List Feature → Option String → Result (List ResultSet)
  unfolding item_of get_field truthy
  set_of tool_call_id layer_id geometry_type result [] id_field = ok []
  set_of tool_call_id layer_id geometry_type result (f ∷ fs) none = ok []
  set_of tool_call_id layer_id geometry_type result (f ∷ fs) (some id_field) =
      item_of "total" result >>= λ total_value. int_of py total_value >>= λ total.
      item_of "layerName" result >>= λ layer_name. ok (
        record {
          tool_call_id = tool_call_id;
          layer_id = layer_id;
          layer_name = layer_name;
          geometry_type = geometry_type;
          total = total;
          exceeded_transfer_limit =
              is_true (get_field "exceededTransferLimit" result) || above total (length (f ∷ fs));
          object_id_field = id_field;
          features = f ∷ fs;
        }
        ∷ [])

  abbrev partial_note : List ResultSet → List String
  partial_note [] = []
  partial_note (r ∷ rs) =
      if r.exceeded_transfer_limit then layer_note r.layer_id " 仅返回部分结果" ∷ [] else []

  unfoldable pub add_layer : ToolCall → ℤ → String → Fields → Building → Layer → Result Building
  unfolding set_of
  add_layer call layer_id geometry_type result b s =
      set_of call.tool_call_id layer_id geometry_type result s.mapped s.id_field >>= λ sets.
      ok (record b {
        sets = b.sets ++ sets;
        notes = s.notes ++ partial_note sets;
        returned = s.returned;
      })

  abbrev new_layer : Building → Layer
  new_layer b = record { mapped = []; id_field = none; returned = b.returned; notes = b.notes }

  -- the body of the loop over the calls, for a result with features
  unfoldable pub build_layer : ToolCall → Fields → Building → Result Building
  unfolding item_of map_features add_layer
  build_layer call result b = item_of "layerId" result >>= λ layer_value.
      int_of py layer_value >>= λ layer_id. item_of "geometryType" result >>= λ type_value.
      item_of "features" result >>= λ features_value. iterate features_value >>= λ features.
      map_features layer_id (text_of py type_value) features (new_layer b)
      >>= add_layer call layer_id (text_of py type_value) result b

  -- dict(item), where the schema of the arguments makes every filter a dict
  abbrev dict_of : List Json → Result (List Json)
  dict_of [] = ok []
  dict_of (obj fs ∷ rest) = dict_of rest >>= λ done. ok (obj fs ∷ done)
  dict_of (x ∷ rest) = err type_error

  unfoldable pub filters_of : ToolCall → Result (List Json)
  unfolding get_field
  filters_of call = iterate (or_default (arr nil) (get_field "filters" call.arguments)) >>= dict_of

  unfoldable pub build_step : ToolCall → Fields → Building → Result Building
  unfolding build_layer filters_of truthy
  build_step call result b = filters_of call >>= λ filters.
      let b' = record b { filters = b.filters ++ filters } in
      if is_true (get_field "features" result) then build_layer call result b' else ok b'

  -- `zip(tool_plan, tool_outputs, strict=True)`
  unfoldable pub build_all : List ToolCall → List Fields → Building → Result Building
  unfolding build_step
  build_all [] [] b = ok b
  build_all [] (r ∷ rs) b = err (value_error "zip() argument 2 is longer than argument 1")
  build_all (c ∷ cs) [] b = err (value_error "zip() argument 2 is shorter than argument 1")
  build_all (c ∷ cs) (r ∷ rs) b = build_step c r b >>= build_all cs rs

  -- the dict that is returned
  abbrev pub result_of : String → List ToolCall → Building → MapResult
  result_of query_id plan b = record {
    query_id = query_id;
    tool_call_ids = map (λ (c : ToolCall). c.tool_call_id) plan;
    total_returned = b.returned;
    applied_filters = b.filters;
    result_sets = b.sets;
    warnings = dedupe b.notes;
  }

  -- `query_id` is the value of `uuid4()`, and `results` the "result" of each output.
  unfoldable pub build_map_result : String → List ToolCall → List Fields → Result MapResult
  unfolding build_all
  build_map_result query_id plan results =
      build_all plan results (record { sets = []; notes = []; filters = []; returned = 0 }) >>= λ b.
      ok (result_of query_id plan b)
