-- ===== src/Workflow/Results/Limits.antt =====
-- `build_map_result`: how many features a map result holds, and what each of them has.
use yjdlagent.Prelude.{
  ℕ, ◌+◌, ◌≤◌, ◌<◌, ◌||◌, not, ◌≡◌, refl, true, false, Option, none, some, List, [], ◌∷◌, ◌++◌,
  String, arith, All, All-append, length, length-append, Bool-cases, Option-cases, inl, inr, leb,
  str_eq, eq_iff,
}
use yjdlagent.Json.{Json, Fields, obj, get_field}
use yjdlagent.Errors.{ok}
use yjdlagent.Python.{
  ℤ, Numbers, Ensures, Ensures-bind, Ensures-any, get_of, item_of, int_of, iterate, text_of,
}
use yjdlagent.Workflow.Geometry.{is_present, object_id_field, valid_geometry}
use yjdlagent.Workflow.Results.{
  result_of, filters_of, is_true, ToolCall, Feature, ResultSet, MapResult, Layer, Building,
  max_features, add_feature, with_attributes, map_feature, map_features, set_of, add_layer,
  build_layer, build_step, build_all, build_map_result, above,
}

abbrev pub feature_count : List ResultSet → ℕ
feature_count [] = 0
feature_count (r ∷ rs) = length r.features + feature_count rs

module _ (py : Numbers) where
  -- A feature of a layer with this type of geometry and this field of object ids.
  pub record IsFeature (geometry_type id_field : String) (f : Feature) : Type 0 where
    pub located : valid_geometry py f.geometry geometry_type ≡ true
    pub identified : is_present (get_field id_field f.attributes) ≡ true

  -- Not marked as partial only if it has all features of the layer that the query matches.
  pub record IsResultSet (r : ResultSet) : Type 0 where
    pub features : All (IsFeature r.geometry_type r.object_id_field) r.features
    pub some_feature : 0 < length r.features
    pub complete : r.exceeded_transfer_limit || not (above r.total (length r.features)) ≡ true

  -- The state of the loop over the features of a layer, entered with `start` features.
  abbrev FeaturesOf : String → Option String → List Feature → Type 0
  FeaturesOf geometry_type none fs = fs ≡ []
  FeaturesOf geometry_type (some k) fs = All (IsFeature geometry_type k) fs

  record IsLayer (geometry_type : String) (start : ℕ) (s : Layer) : Type 0 where
    counted : s.returned ≡ start + length s.mapped
    limited : s.returned ≤ max_features
    good : FeaturesOf geometry_type s.id_field s.mapped

  object_id_field-present :
      (fs : Fields) {k : String} → object_id_field fs ≡ some k → is_present (get_field k fs) ≡ true
  unfolding object_id_field
  object_id_field-present fs {k} e = ground arith

  -- a note changes nothing else
  IsLayer-notes :
      (geometry_type : String) (start : ℕ) (s : Layer) (notes : List String)
      → IsLayer geometry_type start s
      → IsLayer geometry_type start (record s { notes = notes })
  IsLayer-notes geometry_type start s notes h = record {
    counted = h.counted;
    limited = h.limited;
    good = h.good;
  }

  IsLayer-snoc :
      (geometry_type k : String) (start : ℕ) (s : Layer) (f : Feature)
      → IsFeature geometry_type k f
      → leb max_features s.returned ≡ false
      → All (IsFeature geometry_type k) s.mapped
      → IsLayer geometry_type start s
      → IsLayer geometry_type start (record {
        mapped = s.mapped ++ f ∷ [];
        id_field = some k;
        returned = s.returned + 1;
        notes = s.notes;
      })
  IsLayer-snoc geometry_type k start s f new room old h = record {
    counted = omega (arith, h.counted, length-append s.mapped (f ∷ []));
    limited = ground arith;
    good = All-append (IsFeature geometry_type k) s.mapped (f ∷ []) old (new, tt);
  }

  add_feature-IsLayer :
      (layer_id : ℤ) (geometry_type : String) (start : ℕ) (g : Option Json) (fs : Fields)
      (s : Layer)
      → valid_geometry py g geometry_type ≡ true
      → leb max_features s.returned ≡ false
      → IsLayer geometry_type start s
      → IsLayer geometry_type start (add_feature py layer_id g fs (object_id_field fs) s)
  unfolding add_feature
  add_feature-IsLayer layer_id geometry_type start g fs s v room h =
      elim (Option-cases (object_id_field fs)) [
        | inl e ↦ rw e (IsLayer-notes geometry_type start s _ h)
        | inr (k, e) ↦ elim (Option-cases s.id_field) [
          | inl z ↦
              rw (e, z, (eq_iff k k).1 refl)
                (IsLayer-snoc geometry_type k start s _
                  (record { located = v; identified = object_id_field-present fs e }) room
                  (rw (rw z at h.good) tt) h)
          | inr (j, z) ↦ elim (Bool-cases (str_eq k j)) [
            | inl t ↦
                let same : k ≡ j = (eq_iff k j).0 t in
                rw (e, z, t)
                  (IsLayer-snoc geometry_type j start s _
                    (record { located = v; identified = rw same at (object_id_field-present fs e) })
                    room (rw z at h.good) h)
            | inr n ↦
                rw (e, z, n)
                  (record { counted = h.counted; limited = h.limited; good = rw z at h.good })
          ]
        ]
      ]

  with_attributes-IsLayer :
      (layer_id : ℤ) (geometry_type : String) (start : ℕ) (g a : Option Json) (s : Layer)
      → valid_geometry py g geometry_type ≡ true
      → leb max_features s.returned ≡ false
      → IsLayer geometry_type start s
      → IsLayer geometry_type start (with_attributes py layer_id g a s)
  unfolding with_attributes
  with_attributes-IsLayer layer_id geometry_type start g (some (obj fs)) s v room h =
      add_feature-IsLayer layer_id geometry_type start g fs s v room h
  with_attributes-IsLayer layer_id geometry_type start g a s v room h =
      IsLayer-notes geometry_type start s _ h

  map_feature-IsLayer :
      (layer_id : ℤ) (geometry_type : String) (start : ℕ) (f : Json) (s : Layer)
      → leb max_features s.returned ≡ false
      → IsLayer geometry_type start s
      → Ensures (IsLayer geometry_type start) (map_feature py layer_id geometry_type f s)
  unfolding map_feature
  map_feature-IsLayer layer_id geometry_type start f s room h =
      Ensures-any (IsLayer geometry_type start) (get_of "attributes" f) _ λ a.
        Ensures-any (IsLayer geometry_type start) (get_of "geometry" f) _ λ g.
          elim (Bool-cases (valid_geometry py g geometry_type)) [
            | inl v ↦ rw v (with_attributes-IsLayer layer_id geometry_type start g a s v room h)
            | inr n ↦ rw n tt
          ]

  map_features-IsLayer :
      (layer_id : ℤ) (geometry_type : String) (start : ℕ) (fs : List Json) (s : Layer)
      → IsLayer geometry_type start s
      → Ensures (IsLayer geometry_type start) (map_features py layer_id geometry_type fs s)
  unfolding map_features
  map_features-IsLayer layer_id geometry_type start [] s h = h
  map_features-IsLayer layer_id geometry_type start (f ∷ fs) s h =
      elim (Bool-cases (leb max_features s.returned)) [
        | inl t ↦ rw t (IsLayer-notes geometry_type start s _ h)
        | inr n ↦ rw n (
            Ensures-bind (IsLayer geometry_type start) (IsLayer geometry_type start)
              (map_feature py layer_id geometry_type f s)
              (map_features py layer_id geometry_type fs)
              (map_feature-IsLayer layer_id geometry_type start f s n h)
              (λ s' h'. map_features-IsLayer layer_id geometry_type start fs s' h'))
      ]

  abbrev SetsOf : ℕ → List ResultSet → Type 0
  SetsOf n rs = All IsResultSet rs × (feature_count rs ≡ n)

  set_of-SetsOf :
      (id : String) (layer_id : ℤ) (geometry_type : String) (r : Fields) (fs : List Feature)
      (k : Option String)
      → FeaturesOf geometry_type k fs
      → Ensures (SetsOf (length fs)) (set_of py id layer_id geometry_type r fs k)
  unfolding set_of
  set_of-SetsOf id layer_id geometry_type r [] k h = (tt, refl)
  set_of-SetsOf id layer_id geometry_type r (f ∷ fs) none h = cc h
  set_of-SetsOf id layer_id geometry_type r (f ∷ fs) (some k) h =
      let P = SetsOf (length (f ∷ fs)) in
      Ensures-any P (item_of "total" r) _ λ value. Ensures-any P (int_of py value) _ λ total.
        Ensures-any P (item_of "layerName" r) _ λ name. (
          (record { features = h; some_feature = omega arith; complete = ground arith }, tt),
          omega arith,
        )

  record IsBuilding (b : Building) : Type 0 where
    sets : SetsOf b.returned b.sets
    limited : b.returned ≤ max_features

  feature_count-append :
      (rs qs : List ResultSet) → feature_count (rs ++ qs) ≡ feature_count rs + feature_count qs
  feature_count-append [] qs = omega arith
  feature_count-append (r ∷ rs) qs = omega (arith, feature_count-append rs qs)

  add_layer-IsBuilding :
      (c : ToolCall) (layer_id : ℤ) (geometry_type : String) (r : Fields) (b : Building) (s : Layer)
      → IsBuilding b
      → IsLayer geometry_type b.returned s
      → Ensures IsBuilding (add_layer py c layer_id geometry_type r b s)
  unfolding add_layer
  add_layer-IsBuilding c layer_id geometry_type r b s h l =
      Ensures-bind (SetsOf (length s.mapped)) IsBuilding
        (set_of py c.tool_call_id layer_id geometry_type r s.mapped s.id_field) _
        (set_of-SetsOf c.tool_call_id layer_id geometry_type r s.mapped s.id_field l.good)
        λ new n. record {
          sets = (
            All-append IsResultSet b.sets new h.sets.0 n.0,
            omega (arith, feature_count-append b.sets new, h.sets.1, n.1, l.counted),
          );
          limited = l.limited;
        }

  build_layer-IsBuilding :
      (c : ToolCall) (r : Fields) (b : Building)
      → IsBuilding b
      → Ensures IsBuilding (build_layer py c r b)
  unfolding build_layer
  build_layer-IsBuilding c r b h = Ensures-any IsBuilding (item_of "layerId" r) _ λ layer_value.
      Ensures-any IsBuilding (int_of py layer_value) _ λ layer_id.
        Ensures-any IsBuilding (item_of "geometryType" r) _ λ type_value.
          Ensures-any IsBuilding (item_of "features" r) _ λ features_value.
            Ensures-any IsBuilding (iterate features_value) _ λ features.
              Ensures-bind (IsLayer (text_of py type_value) b.returned) IsBuilding
                (map_features py layer_id (text_of py type_value) features _) _
                (map_features-IsLayer layer_id (text_of py type_value) b.returned features _
                  (record { counted = omega arith; limited = h.limited; good = refl }))
                (λ s l. add_layer-IsBuilding c layer_id (text_of py type_value) r b s h l)

  build_step-IsBuilding :
      (c : ToolCall) (r : Fields) (b : Building)
      → IsBuilding b
      → Ensures IsBuilding (build_step py c r b)
  unfolding build_step
  build_step-IsBuilding c r b h = Ensures-any IsBuilding (filters_of py c) _ λ filters.
      let with_filters : IsBuilding (record b { filters = b.filters ++ filters }) = record {
        sets = h.sets;
        limited = h.limited;
      } in
      elim (Bool-cases (is_true py (get_field "features" r))) [
        | inl t ↦
            rw t (
              build_layer-IsBuilding c r (record b { filters = b.filters ++ filters }) with_filters)
        | inr n ↦ rw n with_filters
      ]

  build_all-IsBuilding :
      (cs : List ToolCall) (rs : List Fields) (b : Building)
      → IsBuilding b
      → Ensures IsBuilding (build_all py cs rs b)
  unfolding build_all
  build_all-IsBuilding [] [] b h = h
  build_all-IsBuilding [] (r ∷ rs) b h = tt
  build_all-IsBuilding (c ∷ cs) [] b h = tt
  build_all-IsBuilding (c ∷ cs) (r ∷ rs) b h =
      Ensures-bind IsBuilding IsBuilding (build_step py c r b) _ (build_step-IsBuilding c r b h)
        (λ b' h'. build_all-IsBuilding cs rs b' h')

  -- What a map result holds.
  pub record IsMapResult (m : MapResult) : Type 0 where
    pub limited : m.total_returned ≤ max_features
    pub counted : feature_count m.result_sets ≡ m.total_returned
    pub sets : All IsResultSet m.result_sets

abbrev nothing_built : Building
nothing_built = record { sets = []; notes = []; filters = []; returned = 0 }

-- A map result holds at most 200 features, as many as it says. Every set in it has a feature; every
-- feature has a geometry in WGS84 of the type of its set, and a value of the object id that the set
-- names; and a set that is not marked as partial has at least as many features as the layer's total.
pub build_map_result-IsMapResult :
    (py : Numbers) (query_id : String) (plan : List ToolCall) (results : List Fields)
    {m : MapResult}
    → build_map_result py query_id plan results ≡ ok m
    → IsMapResult py m
unfolding build_map_result
build_map_result-IsMapResult py query_id plan results {m} e =
    let start : IsBuilding py nothing_built = record { sets = (tt, refl); limited = omega arith } in
    rw e at (
      Ensures-bind (IsBuilding py) (IsMapResult py) (build_all py plan results nothing_built)
        (λ b. ok (result_of py query_id plan b))
        (build_all-IsBuilding py plan results nothing_built start)
        (λ b h. record { limited = h.limited; counted = h.sets.1; sets = h.sets.0 }))
