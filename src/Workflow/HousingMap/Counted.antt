-- ===== src/Workflow/HousingMap/Counted.antt =====
-- app/agent/workflow.py, `build_housing_search_map_result`: which features a map result has, and what has been
-- tested.
use mathlib.Core.List.{Perm}
use mathlib.Core.List.Perm
use yjdlagent.Prelude.{
  ◌≡◌, ◌∙◌, refl, ap, ◌≤◌, ◌+◌, true, Option, List, [], ◌∷◌, ◌++◌, String, Bool-cases, inl, inr,
  ltb, arith, All, length, length-append,
}
use yjdlagent.Json.{Json, Fields, null, dict, get_field}
use yjdlagent.Errors.{ok}
use yjdlagent.Python.{
  ℤ, Numbers, ◌>>=◌, Ensures, Ensures-any, Ensures-bind, Ensures-refl, get_of, or_default,
}
use yjdlagent.Workflow.Results.{max_features}
use yjdlagent.Workflow.Candidates.{validate_wgs84_polygon, Shown, Group, sort_groups, shown_count}
use yjdlagent.Workflow.HousingMap.{
  Role, housing_candidates, contributing_roads, ShownSet, HousingMap, listed, add_items, sets_of,
  check_overlays, filters_in, texts_in, limited, build_housing_search_map_result,
}
use yjdlagent.Workflow.HousingMap.Matching.{
  all_shown, sort_groups-Perm, length-sorted, ShowItems, Held, all_items-Held,
}

abbrev pub features_in : List ShownSet → List Shown
features_in [] = []
features_in (s ∷ ss) = s.features ++ features_in ss

length-features_in :
    (xs ys : List ShownSet)
    → length (features_in (xs ++ ys)) ≡ length (features_in xs) + length (features_in ys)
length-features_in [] ys = omega arith
length-features_in (x ∷ xs) ys = omega (
  arith,
  length-features_in xs ys,
  length-append x.features (features_in (xs ++ ys)),
  length-append x.features (features_in xs),
)

module _ (py : Numbers) (whole : String → Option ℤ) where
  abbrev pub IsOverlay : Json → Type 0
  IsOverlay o =
      (get_of "geometry" o >>= λ g. ok (validate_wgs84_polygon py (or_default null g))) ≡ ok true

  check_overlays-valid : (os : List Json) → Ensures (All IsOverlay) (check_overlays py whole os)
  unfolding check_overlays
  check_overlays-valid [] = tt
  check_overlays-valid (o ∷ os) =
      Ensures-bind (λ g. get_of "geometry" o ≡ ok g) (All IsOverlay) (get_of "geometry" o) _
        (Ensures-refl (get_of "geometry" o))
        (λ g e. elim (Bool-cases (validate_wgs84_polygon py (or_default null g))) [
          | inr f ↦ rw f tt
          | inl f ↦ rw f (
              Ensures-bind (All IsOverlay) (All IsOverlay) (check_overlays py whole os) _
                (check_overlays-valid os)
                (λ checked h. (
                  ap (λ r. r >>= λ g. ok (validate_wgs84_polygon py (or_default null g))) e
                      ∙ ap ok f,
                  h,
                )))
        ])

  sets_of-roles :
      (role : Role) (gs : List Group)
      → All (λ (s : ShownSet). s.role ≡ role) (sets_of py whole role gs)
  sets_of-roles role [] = tt
  sets_of-roles role (g ∷ gs) = (refl, sets_of-roles role gs)

  features_in-sets_of :
      (role : Role) (gs : List Group) → features_in (sets_of py whole role gs) ≡ all_shown gs
  features_in-sets_of role [] = refl
  features_in-sets_of role (g ∷ gs) = ap (λ fs. g.features ++ fs) (features_in-sets_of role gs)

  -- The sets show these items: they are all of this role, and their features are, in some order,
  -- one for each item.
  pub record ShowAll (role : Role) (items : List Json) (sets : List ShownSet) : Type 0 where
    pub roles : All (λ (s : ShownSet). s.role ≡ role) sets
    pub features : List Shown
    pub shown : ShowItems py whole role items features
    pub same : Perm (features_in sets) features

  sets_of-ShowAll :
      (role : Role) (items : List Json) (gs : List Group)
      → Held py whole role items gs
      → ShowAll role items (sets_of py whole role (sort_groups gs))
  sets_of-ShowAll role items gs (fs, shown, same) = record {
    roles = sets_of-roles role (sort_groups gs);
    features = fs;
    shown = shown;
    same = rw features_in-sets_of (Perm.trans (sort_groups-Perm gs) same);
  }

  -- The map result of `result`: its sets are those of the candidates and then those of the roads, with
  -- at most 200 features.
  pub record IsHousingMap (result : Fields) (m : HousingMap) : Type 0 where
    pub candidates : List Json
    pub candidates_listed : listed "housingCandidates" result ≡ ok candidates
    pub roads : List Json
    pub roads_listed : listed "roadFeatures" result ≡ ok roads
    pub houses : List ShownSet
    pub lines : List ShownSet
    pub split : m.result_sets ≡ houses ++ lines
    pub houses_shown : ShowAll housing_candidates candidates houses
    pub roads_shown : ShowAll contributing_roads roads lines
    pub within : length (features_in m.result_sets) ≤ max_features
    pub overlays : All IsOverlay m.overlays

  limited-IsHousingMap :
      (tool_call_id : String) (result : Fields) (candidates roads : List Json) (hs rs : List Group)
      (overlays filters warnings : List Json)
      → listed "housingCandidates" result ≡ ok candidates
      → listed "roadFeatures" result ≡ ok roads
      → Held py whole housing_candidates candidates hs
      → Held py whole contributing_roads roads rs
      → All IsOverlay overlays
      → Ensures
          (IsHousingMap result)
          (limited py whole tool_call_id (length candidates) hs rs overlays filters warnings)
  limited-IsHousingMap tool_call_id result candidates roads hs rs overlays filters warnings c r h k
        o =
      let houses = sets_of py whole housing_candidates (sort_groups hs) in
      let lines = sets_of py whole contributing_roads (sort_groups rs) in
      let count : length (features_in (houses ++ lines)) ≡ shown_count hs + shown_count rs =
        length-features_in houses lines
        ∙ rw (features_in-sets_of, features_in-sets_of, length-sorted, length-sorted) refl in
      elim (Bool-cases (ltb max_features (shown_count hs + shown_count rs))) [
        | inl e ↦ rw e tt
        | inr e ↦ rw e (
            Ensures-any (IsHousingMap result) (texts_in py whole warnings) _ (λ notes. record {
              candidates = candidates;
              candidates_listed = c;
              roads = roads;
              roads_listed = r;
              houses = houses;
              lines = lines;
              split = refl;
              houses_shown = sets_of-ShowAll housing_candidates candidates hs h;
              roads_shown = sets_of-ShowAll contributing_roads roads rs k;
              within = ground (arith, count);
              overlays = o;
            }))
      ]

  -- The sets of a map result that `build_housing_search_map_result` gives are those of the candidates
  -- and then those of the roads of the answer, of the right role. Their features are, in some order,
  -- one for each candidate and one for each road: with the id of this item, its geometry, which the
  -- test of the role has taken, and its attributes, to which more are added for a candidate. There are
  -- at most 200 features, and the overlays have passed the test of polygons.
  pub build_housing_search_map_result-IsHousingMap :
      (tool_call_id : String) (result : Fields)
      → Ensures (IsHousingMap result) (build_housing_search_map_result py whole tool_call_id result)
  unfolding build_housing_search_map_result
  build_housing_search_map_result-IsHousingMap tool_call_id result =
      let P = IsHousingMap result in
      Ensures-any P (listed "warnings" result) _ (λ warnings.
        Ensures-bind (λ c. listed "housingCandidates" result ≡ ok c) P
          (listed "housingCandidates" result) _ (Ensures-refl (listed "housingCandidates" result))
          (λ candidates c.
            Ensures-bind (Held py whole housing_candidates candidates) P
              (add_items py whole housing_candidates [] candidates) _
              (all_items-Held py whole housing_candidates candidates)
              (λ hs h.
                Ensures-bind (λ r. listed "roadFeatures" result ≡ ok r) P
                  (listed "roadFeatures" result) _ (Ensures-refl (listed "roadFeatures" result))
                  (λ roads r.
                    Ensures-bind (Held py whole contributing_roads roads) P
                      (add_items py whole contributing_roads [] roads) _
                      (all_items-Held py whole contributing_roads roads)
                      (λ rs k.
                        Ensures-bind (All IsOverlay) P
                          (listed "bufferOverlays" result >>= check_overlays py whole) _
                          (Ensures-any (All IsOverlay) (listed "bufferOverlays" result)
                            (check_overlays py whole) check_overlays-valid)
                          (λ overlays o.
                            Ensures-any P
                              (filters_in py whole
                                (or_default (dict []) (get_field "resolvedCriteria" result)))
                              _
                              (λ filters.
                                limited-IsHousingMap tool_call_id result candidates roads hs rs
                                  overlays filters warnings c r h k o)))))))
