-- ===== src/Workflow/Candidates.antt =====
-- app/agent/workflow.py, `build_housing_search_map_result`: the tests of its geometries with `_valid_rings`, and
-- the features grouped by their layers.
use yjdlagent.Prelude.{
  ◌+◌, ℕ, Bool, true, false, Option, none, some, List, [], ◌∷◌, ◌++◌, String, ltb, leb, ◌==◌, ◌&&◌,
  length, str_eq, if◌then◌else◌,
}
use yjdlagent.Json.{
  Json, Items, Fields, null, num, arr, obj, nil, cons, end, field, dict, get_field, truthy,
}
use yjdlagent.Errors.{Result, ok, err, type_error}
use yjdlagent.Python.{ℤ, pos, negsuc, Numbers, or_default, equal, list_of}
use yjdlagent.Workflow.Geometry.{coordinates, all_coordinates, valid_paths}

module _ (py : Numbers) where
  -- coordinate[:2] == coordinate[:2]
  abbrev same_place : Json → Json → Bool
  same_place (arr (cons x (cons y r))) (arr (cons z (cons w q))) = equal py x z && equal py y w
  same_place _ _ = false

  abbrev last_of : Json → Items → Json
  last_of x nil = x
  last_of x (cons y ys) = last_of y ys

  unfoldable pub valid_ring : Json → Bool
  unfolding all_coordinates equal
  valid_ring (arr (cons x xs)) =
      leb 4 (length (list_of (cons x xs)))
      && all_coordinates py (cons x xs)
      && same_place x (last_of x xs)
  valid_ring _ = false

  unfoldable pub all_rings : Items → Bool
  unfolding valid_ring
  all_rings nil = true
  all_rings (cons r rs) = valid_ring r && all_rings rs

  unfoldable pub valid_rings : Option Json → Bool
  unfolding all_rings
  valid_rings (some (arr (cons r rs))) = all_rings (cons r rs)
  valid_rings _ = false

  -- geometry.get("spatialReference") == {"wkid": 4326}
  abbrev in_wgs84 : Fields → Bool
  in_wgs84 fs =
      equal py (or_default null (get_field "spatialReference" fs)) (dict (("wkid", num 4326) ∷ []))

  unfoldable pub validate_wgs84_point : Json → Bool
  unfolding get_field equal
  validate_wgs84_point (obj fs) =
      coordinates py (get_field "x" fs) (get_field "y" fs) && in_wgs84 fs
  validate_wgs84_point _ = false

  unfoldable pub validate_wgs84_polyline : Json → Bool
  unfolding get_field equal valid_paths
  validate_wgs84_polyline (obj fs) = valid_paths py (get_field "paths" fs) && in_wgs84 fs
  validate_wgs84_polyline _ = false

  unfoldable pub validate_wgs84_polygon : Json → Bool
  unfolding get_field equal valid_rings
  validate_wgs84_polygon (obj fs) = valid_rings (get_field "rings" fs) && in_wgs84 fs
  validate_wgs84_polygon _ = false

pub record Shown : Type 0 where
  pub id : Json
  pub attributes : Json
  pub geometry : Json

-- An entry of `housing_by_layer` or `roads_by_layer`: the key, as a number and as it was written first.
pub record Group : Type 0 where
  pub key : ℤ
  pub layer_id : Json
  pub features : List Shown

abbrev pub same_key : ℤ → ℤ → Bool
same_key (pos n) (pos m) = n == m
same_key (negsuc n) (negsuc m) = n == m
same_key _ _ = false

abbrev pub less_key : ℤ → ℤ → Bool
less_key (pos n) (pos m) = ltb n m
less_key (pos n) (negsuc m) = false
less_key (negsuc n) (pos m) = true
less_key (negsuc n) (negsuc m) = ltb m n

-- groups.setdefault(layer_id, []).append(feature)
unfoldable pub add_shown : ℤ → Json → Shown → List Group → List Group
add_shown key layer_id f [] = record { key = key; layer_id = layer_id; features = f ∷ [] } ∷ []
add_shown key layer_id f (g ∷ gs) =
    let rest = add_shown key layer_id f gs in
    if same_key g.key key then record g { features = g.features ++ f ∷ [] } ∷ gs else g ∷ rest

abbrev pub insert_group : Group → List Group → List Group
insert_group g [] = g ∷ []
insert_group g (h ∷ hs) =
    let rest = insert_group g hs in if less_key h.key g.key then h ∷ rest else g ∷ h ∷ hs

-- sorted(groups)
unfoldable pub sort_groups : List Group → List Group
sort_groups [] = []
sort_groups (g ∷ gs) = insert_group g (sort_groups gs)

abbrev pub shown_count : List Group → ℕ
shown_count [] = 0
shown_count (g ∷ gs) = length g.features + shown_count gs

-- attributes.setdefault(key, value)
unfoldable pub set_default : String → Json → Fields → Fields
set_default k v end = field k v end
set_default k v (field j w fs) = if str_eq j k then field j w fs else field j w (set_default k v fs)

-- dict(item.get("attributes") or {})
abbrev pub attributes_of : Option Json → Result Fields
attributes_of none = ok end
attributes_of (some (obj fs)) = ok fs
attributes_of (some v) = if truthy v then err type_error else ok end
