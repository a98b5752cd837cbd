-- ===== src/Workflow/HousingMap.antt =====
-- app/agent/workflow.py: `build_housing_search_map_result`, which makes a map result of what
-- `searchHousingCandidates` answers. The schema of the tool makes attributes dicts and warnings texts. `whole` is
-- the integer that a literal other than a natural number writes, and `none` for a float.
pub mod Matching
pub mod Counted
mod Examples
use Prim.Native.String.{◌++◌ as cat}
use yjdlagent.Prelude.{
  ◌+◌, ℕ, suc, Bool, true, false, not, Option, none, some, List, [], ◌∷◌, ◌++◌, map, String, ltb,
  leb, ◌==◌, ◌&&◌, length, str_eq, if◌then◌else◌,
}
use yjdlagent.Json.{
  Json, Items, Fields, null, bool, num, real, text, arr, obj, nil, cons, end, field, fields, dict,
  get_field, truthy,
}
use yjdlagent.Errors.{Result, ok, err, type_error}
use yjdlagent.Python.{
  ℤ, pos, negsuc, Numbers, ◌>>=◌, get_of, or_default, item_of, iterate, text_of, equal, dedupe,
  list_of,
}
use yjdlagent.Workflow.Consistency.{failed}
use yjdlagent.Workflow.Results.{max_features}
use yjdlagent.Workflow.Candidates.{
  validate_wgs84_point, validate_wgs84_polyline, validate_wgs84_polygon, Shown, Group, add_shown,
  sort_groups, shown_count, set_default, attributes_of,
}

-- A set of candidates holds points with the object id OBJECTID, a set of roads polylines with OBJECTID_12.
pub data Role : Type 0 where
  housing_candidates contributing_roads : Role

pub record ShownSet : Type 0 where
  pub role : Role
  pub layer_id : Json
  pub layer_name : String
  pub features : List Shown

pub record HousingMap : Type 0 where
  pub query_id : String
  pub tool_call_ids : List String
  pub query_summary : String
  pub applied_filters : List Json
  pub result_sets : List ShownSet
  pub overlays : List Json
  pub fit_bounds : Bool
  pub warnings : List String

-- an `int`, which a bool is, too
abbrev pub key_of : (String → Option ℤ) → Option Json → Option ℤ
key_of whole (some (num n)) = some (pos n)
key_of whole (some (bool true)) = some (pos 1)
key_of whole (some (bool false)) = some (pos 0)
key_of whole (some (real s)) = whole s
key_of whole _ = none

abbrev stable_name : ℕ → Option String
stable_name n =
    if n == 0
    then some "shahekou_1"
    else if n == 1
    then some "xigang_1"
    else if n == 2
    then some "zhongshan_1"
    else if n == 3
    then some "ZhongShan"
    else if n == 4
    then some "XiGang"
    else if n == 5
    then some "ShaHeKou"
    else none

abbrev known_name : ℤ → Option String
known_name (pos n) = stable_name n
known_name (negsuc n) = none

abbrev pub item_in : String → Json → Result Json
item_in k (obj fs) = item_of k fs
item_in k _ = err type_error

-- the items of a list of the result
abbrev pub listed : String → Fields → Result (List Json)
listed k result = iterate (or_default (arr nil) (get_field k result))

module _ (py : Numbers) (whole : String → Option ℤ) where
  abbrev pub shown_candidate : Json → Json → Result Shown
  shown_candidate item geometry = get_of "attributes" item >>= attributes_of >>= λ attributes.
      get_of "scores" item >>= λ scores. get_of "spatialEvidence" item >>= λ evidence.
      get_of "reasons" item >>= λ reasons. get_of "warnings" item >>= λ warnings.
      item_in "housingId" item >>= λ id. ok (record {
        id = id;
        attributes = obj (
            set_default "warnings" (or_default (arr nil) warnings) (
              set_default "reasons" (or_default (arr nil) reasons) (
                set_default "spatialEvidence" (or_default (dict []) evidence)
                  (set_default "scores" (or_default (dict []) scores) attributes))));
        geometry = geometry;
      })

  abbrev pub shown_road : Json → Json → Result Shown
  shown_road item geometry = item_in "roadId" item >>= λ id.
      get_of "attributes" item >>= λ attributes.
      ok (record { id = id; attributes = or_default (dict []) attributes; geometry = geometry })

  -- What the loop over the candidates and the loop over the roads differ in.
  abbrev pub is_valid : Role → Json → Bool
  is_valid housing_candidates geometry = validate_wgs84_point py geometry
  is_valid contributing_roads geometry = validate_wgs84_polyline py geometry

  abbrev pub shown_as : Role → Json → Json → Result Shown
  shown_as housing_candidates = shown_candidate
  shown_as contributing_roads = shown_road

  abbrev pub bad_geometry : {A : Type 0} → Role → Result A
  bad_geometry housing_candidates = failed "住宅联合查询返回了非法点几何"
  bad_geometry contributing_roads = failed "住宅联合查询返回了非法道路几何"

  abbrev pub add_at : Role → Json → Json → List Group → Json → Option ℤ → Result (List Group)
  add_at role layer_id geometry gs item none = bad_geometry role
  add_at role layer_id geometry gs item (some key) =
      shown_as role item geometry >>= λ f. ok (add_shown key layer_id f gs)

  -- the body of a loop
  unfoldable pub add_item : Role → List Group → Json → Result (List Group)
  unfolding validate_wgs84_point validate_wgs84_polyline set_default add_shown get_of item_of truthy
  add_item role gs item = get_of "layerId" item >>= λ layer_id.
      get_of "geometry" item >>= λ geometry.
      if is_valid role (or_default null geometry)
      then add_at role (or_default null layer_id) (or_default null geometry) gs item
          (key_of whole layer_id)
      else bad_geometry role

  unfoldable pub add_items : Role → List Group → List Json → Result (List Group)
  unfolding add_item
  add_items role gs [] = ok gs
  add_items role gs (x ∷ xs) = add_item role gs x >>= λ hs. add_items role hs xs

  abbrev or_name : Option String → Json → String
  or_name none layer_id = cat "layer-" (text_of py layer_id)
  or_name (some name) layer_id = name

  -- the sets of a role, by rising layers
  abbrev pub sets_of : Role → List Group → List ShownSet
  sets_of role [] = []
  sets_of role (g ∷ gs) =
      record {
        role = role;
        layer_id = g.layer_id;
        layer_name = or_name (known_name g.key) g.layer_id;
        features = g.features;
      }
      ∷ sets_of role gs

  -- the loop over the buffers
  unfoldable pub check_overlays : List Json → Result (List Json)
  unfolding validate_wgs84_polygon get_of
  check_overlays [] = ok []
  check_overlays (o ∷ os) = get_of "geometry" o >>= λ geometry.
      if validate_wgs84_polygon py (or_default null geometry)
      then (check_overlays os >>= λ checked. ok (o ∷ checked))
      else failed "住宅联合查询返回了非法缓冲区几何"

  abbrev filter_of : String → String → List (String × Json) → Option Json → List Json
  filter_of name operator more none = []
  filter_of name operator more (some null) = []
  filter_of name operator more (some v) =
      obj (fields (("field", text name) ∷ ("operator", text operator) ∷ ("value", v) ∷ more)) ∷ []

  unfoldable pub filters_in : Json → Result (List Json)
  unfolding get_of
  filters_in criteria = get_of "priceMax" criteria >>= λ highest.
      get_of "priceMin" criteria >>= λ lowest.
      get_of "roadWsThresholdPercentile" criteria >>= λ percentile. ok (
        filter_of "房价" "<=" [] highest
        ++ filter_of "房价" ">=" [] lowest
        ++ filter_of "WS归一化" "PERCENTILE_GTE" (("unit", text "percentile") ∷ []) percentile)

  abbrev pub texts_in : List Json → Result (List String)
  texts_in [] = ok []
  texts_in (text s ∷ xs) = texts_in xs >>= λ ss. ok (s ∷ ss)
  texts_in (x ∷ xs) = err type_error

  abbrev is_empty : {A : Type 0} → List A → Bool
  is_empty [] = true
  is_empty (x ∷ xs) = false

  abbrev pub shown_map :
      String → ℕ → List Json → List ShownSet → List Json → List String → HousingMap
  shown_map tool_call_id candidates filters sets overlays warnings = record {
    query_id = cat "housing-" tool_call_id;
    tool_call_ids = tool_call_id ∷ [];
    query_summary = cat "返回 " (cat (py.decimal candidates) " 个候选小区及道路缓冲区");
    applied_filters = filters;
    result_sets = sets;
    overlays = overlays;
    fit_bounds = not (is_empty sets && is_empty overlays);
    warnings = dedupe warnings;
  }

  abbrev pub limited :
      String → ℕ → List Group → List Group → List Json → List Json → List Json → Result HousingMap
  limited tool_call_id candidates housing roads overlays filters warnings =
      if ltb max_features (shown_count housing + shown_count roads)
      then failed "住宅联合查询结果超过 200 个地图要素"
      else texts_in warnings >>= λ notes. ok (
          shown_map tool_call_id candidates filters
            (sets_of housing_candidates (sort_groups housing)
              ++ sets_of contributing_roads (sort_groups roads))
            overlays notes)

  unfoldable pub build_housing_search_map_result : String → Fields → Result HousingMap
  unfolding add_items check_overlays filters_in sort_groups get_field
  build_housing_search_map_result tool_call_id result = listed "warnings" result >>= λ warnings.
      listed "housingCandidates" result >>= λ candidates.
      add_items housing_candidates [] candidates >>= λ housing.
      listed "roadFeatures" result >>= λ features.
      add_items contributing_roads [] features >>= λ roads.
      listed "bufferOverlays" result >>= check_overlays >>= λ overlays.
      filters_in (or_default (dict []) (get_field "resolvedCriteria" result)) >>= λ filters.
      limited tool_call_id (length candidates) housing roads overlays filters warnings
