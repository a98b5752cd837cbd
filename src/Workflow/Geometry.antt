-- ===== src/Workflow/Geometry.antt =====
-- app/agent/workflow.py: `_valid_geometry`, `_valid_coordinate` and `_valid_paths`, the tests that
-- a feature of a layer has a geometry in WGS84, and `_object_id_field`.
use yjdlagent.Prelude.{Bool, true, false, Option, none, some, String, ◌&&◌, str_eq, if◌then◌else◌}
use yjdlagent.Json.{Json, Items, Fields, null, arr, obj, nil, cons, get_field}
use yjdlagent.Python.{Numbers, equals_int, is_coordinate}

-- `field in attributes and attributes[field] is not None`
abbrev pub is_present : Option Json → Bool
is_present none = false
is_present (some null) = false
is_present (some _) = true

unfoldable pub object_id_field : Fields → Option String
unfolding get_field
object_id_field fs =
    if is_present (get_field "OBJECTID_12" fs)
    then some "OBJECTID_12"
    else if is_present (get_field "OBJECTID" fs)
    then some "OBJECTID"
    else if is_present (get_field "id" fs)
    then some "id"
    else none

module _ (py : Numbers) where
  -- the two values of a pair, where `None` stands for a missing one
  abbrev pub coordinates : Option Json → Option Json → Bool
  coordinates (some x) (some y) = is_coordinate py x && is_coordinate py y
  coordinates none y = false
  coordinates (some x) none = false

  unfoldable pub valid_coordinate : Json → Bool
  valid_coordinate (arr (cons x (cons y rest))) = is_coordinate py x && is_coordinate py y
  valid_coordinate _ = false

  unfoldable pub all_coordinates : Items → Bool
  unfolding valid_coordinate
  all_coordinates nil = true
  all_coordinates (cons c cs) = valid_coordinate c && all_coordinates cs

  -- a list of at least two coordinates
  unfoldable pub valid_path : Json → Bool
  unfolding all_coordinates
  valid_path (arr (cons a (cons b rest))) = all_coordinates (cons a (cons b rest))
  valid_path _ = false

  unfoldable pub all_paths : Items → Bool
  unfolding valid_path
  all_paths nil = true
  all_paths (cons p ps) = valid_path p && all_paths ps

  unfoldable pub valid_paths : Option Json → Bool
  unfolding all_paths
  valid_paths (some (arr (cons p ps))) = all_paths (cons p ps)
  valid_paths _ = false

  -- `spatialReference` is a dict with the wkid 4326
  abbrev is_wgs84 : Option Json → Bool
  is_wgs84 (some (obj fs)) = elim (get_field "wkid" fs) [
    | none ↦ false
    | some w ↦ equals_int py w 4326
  ]
  is_wgs84 _ = false

  unfoldable pub valid_geometry : Option Json → String → Bool
  unfolding valid_paths get_field
  valid_geometry (some (obj fs)) geometry_type =
      if is_wgs84 (get_field "spatialReference" fs)
      then if str_eq geometry_type "point"
        then coordinates (get_field "x" fs) (get_field "y" fs)
        else if str_eq geometry_type "polyline"
        then valid_paths (get_field "paths" fs)
        else false
      else false
  valid_geometry _ geometry_type = false
