-- ===== src/Workflow/Housing/Grounded.antt =====
-- app/agent/workflow.py, `normalize_housing_search_arguments`: what the arguments of a housing search have.
use yjdlagent.Prelude.{
  both_true, ◌≡◌, ◌⊎◌, refl, ◌≤◌, ℕ, Bool, true, false, Option, none, some, List, [], ◌∷◌, String,
  Bool-cases, inl, inr, is_some, leb, ◌&&◌, if◌then◌else◌, arith,
}
use yjdlagent.Errors.{ok, err, Exception}
use yjdlagent.Python.{◌>>=◌, Ensures, Ensures-any, Ensures-bind, Ensures-with, Ensures-refl}
use yjdlagent.Text.{is_in}
use yjdlagent.Capabilities.{district_names}
use yjdlagent.Workflow.Phrases.{
  Language, explicit_price_max, explicit_price_min, explicit_buffer_meters, distances, distance_of,
  all_equal, ten_thousand_metres_re, buffer_distance_re, housing_limit_re,
}
use yjdlagent.Workflow.Criteria.{explicit_road_criteria}
use yjdlagent.Workflow.Preferences.{Arithmetic, weigh}
use yjdlagent.Workflow.Preferences.Weights.{AreWeighed, weigh-AreWeighed}
use yjdlagent.Workflow.Housing.{
  Mode, rank, buffer_filter, Search, named_in, is_hard, requests_roads, requested_preferences,
  check_limit, limit_of, limit_in, checked_distance, crossed, check_mode, grounded, read_query,
  normalize_housing_search_arguments,
}

Ensures-guard :
    {A : Type 0} (Q : A → Type 0) (b : Bool) (x : A) (e : Exception)
    → (b ≡ true → Q x)
    → Ensures Q (if b then ok x else err e)
Ensures-guard Q true x e h = h refl
Ensures-guard Q false x e h = tt

module _ (py : Language) (a : Arithmetic) where
  -- Only the mode of a query without roads, and the weights and levels that the query leaves open, come
  -- from the plan.
  pub record IsGrounded (planned : Search) (query : String) (s : Search) : Type 0 where
    pub limit : limit_of py a query ≡ ok s.limit
    pub limit_within : (1 ≤ s.limit) × (s.limit ≤ 50)
    pub distance : explicit_buffer_meters py query ≡ ok s.buffer_meters
    pub distance_within :
        (s.buffer_meters ≡ none) ⊎ ((n : ℕ) × (s.buffer_meters ≡ some n) × (20 ≤ n) × (n ≤ 2000))
    pub price_min : s.price_min ≡ explicit_price_min py query
    pub price_max : s.price_max ≡ explicit_price_max py query
    pub prices : crossed py a s.price_min s.price_max ≡ false
    pub criteria : explicit_road_criteria py query ≡ ok s.road_criteria
    pub districts : s.districts ≡ named_in query district_names
    pub roads : s.include_roads ≡ requests_roads py a query
    pub buffers : s.include_buffers ≡ requests_roads py a query
    pub preferences :
        AreWeighed a (requested_preferences py a query planned.preferences) s.preferences
    pub mode :
        (s.mode ≡ rank)
        ⊎ ((s.preferences.road_walkability.enabled ≡ true)
            × (is_hard s.preferences.road_walkability.level ≡ true))

  check_limit_bounds : (n : ℕ) → Ensures (λ m. (1 ≤ m) × (m ≤ 50)) (check_limit py a n)
  check_limit_bounds n = elim (Bool-cases (leb 1 n && leb n 50)) [
    | inl e ↦ rw e (ground arith)
    | inr e ↦ rw e tt
  ]

  limit_of_bounds : (query : String) → Ensures (λ n. (1 ≤ n) × (n ≤ 50)) (limit_of py a query)
  unfolding limit_of
  limit_of_bounds query =
      Ensures-any (λ n. (1 ≤ n) × (n ≤ 50)) (limit_in py a (py.search housing_limit_re false query))
        (check_limit py a) check_limit_bounds

  abbrev IsDistance : Option ℕ → Type 0
  IsDistance d = (d ≡ none) ⊎ ((n : ℕ) × (d ≡ some n) × (20 ≤ n) × (n ≤ 2000))

  distance_of-IsDistance : (ns : List ℕ) → Ensures IsDistance (distance_of py ns)
  unfolding distance_of
  distance_of-IsDistance [] = inl refl
  distance_of-IsDistance (n ∷ ns) = elim (Bool-cases (all_equal py n ns)) [
    | inr e ↦ rw (e, distance_of) tt
    | inl e ↦ elim (Bool-cases (leb 20 n && leb n 2000)) [
      | inr f ↦ rw (e, f, distance_of) tt
      | inl f ↦ rw (e, f, distance_of) (inr (n, refl, ground arith, ground arith))
    ]
  ]

  explicit_buffer_meters-IsDistance :
      (query : String) → Ensures IsDistance (explicit_buffer_meters py query)
  unfolding explicit_buffer_meters
  explicit_buffer_meters-IsDistance query =
      elim (Bool-cases (is_some (py.search ten_thousand_metres_re true query))) [
        | inl e ↦ rw e tt
        | inr e ↦ rw e (
            Ensures-any IsDistance (distances py (py.find_all buffer_distance_re true query))
              (distance_of py) distance_of-IsDistance)
      ]

  abbrev Read : String → Option ℕ → Type 0
  Read query d = IsDistance d × (explicit_buffer_meters py query ≡ ok d)

  checked_distance-Read :
      (query : String) (planned d : Option ℕ)
      → Read query d
      → Ensures (Read query) (checked_distance py a planned d)
  checked_distance-Read query planned (some n) h = h
  checked_distance-Read query none none h = h
  checked_distance-Read query (some m) none h = tt

  abbrev HasMode : Search → Type 0
  HasMode s =
      (s.mode ≡ rank)
      ⊎ ((s.preferences.road_walkability.enabled ≡ true)
          × (is_hard s.preferences.road_walkability.level ≡ true))

  check_mode-Ensures :
      (Q : Search → Type 0) (m : Mode) (s : Search)
      → s.mode ≡ m
      → (HasMode s → Q s)
      → Ensures Q (check_mode py a m s)
  check_mode-Ensures Q rank s e keep = keep (inl e)
  check_mode-Ensures Q buffer_filter s e keep =
      Ensures-guard Q
        (s.preferences.road_walkability.enabled && is_hard s.preferences.road_walkability.level) s _
        (λ both. keep (
          inr (
            both_true s.preferences.road_walkability.enabled
              (is_hard s.preferences.road_walkability.level) both)))

  read_query-IsGrounded :
      (planned : Search) (query : String)
      → crossed py a (explicit_price_min py query) (explicit_price_max py query) ≡ false
      → Ensures (IsGrounded planned query) (read_query py a planned query)
  read_query-IsGrounded planned query e =
      Ensures-bind (λ n. ((1 ≤ n) × (n ≤ 50)) × (limit_of py a query ≡ ok n))
        (IsGrounded planned query) (limit_of py a query) _
        (Ensures-with (λ n. (1 ≤ n) × (n ≤ 50)) (limit_of py a query) (limit_of_bounds query))
        (λ limit bounds.
          Ensures-bind (Read query) (IsGrounded planned query)
            (explicit_buffer_meters py query >>= checked_distance py a planned.buffer_meters) _
            (Ensures-bind (Read query) (Read query) (explicit_buffer_meters py query)
              (checked_distance py a planned.buffer_meters)
              (Ensures-with IsDistance (explicit_buffer_meters py query)
                (explicit_buffer_meters-IsDistance query))
              (checked_distance-Read query planned.buffer_meters))
            (λ distance read.
              Ensures-bind (λ cs. explicit_road_criteria py query ≡ ok cs)
                (IsGrounded planned query) (explicit_road_criteria py query) _
                (Ensures-refl (explicit_road_criteria py query))
                (λ criteria same.
                  Ensures-bind (AreWeighed a (requested_preferences py a query planned.preferences))
                    (IsGrounded planned query)
                    (weigh a (requested_preferences py a query planned.preferences)) _
                    (weigh-AreWeighed a (requested_preferences py a query planned.preferences))
                    (λ preferences weighed.
                      check_mode-Ensures (IsGrounded planned query)
                        (grounded py a planned query limit distance criteria preferences).mode
                        (grounded py a planned query limit distance criteria preferences) refl
                        (λ mode. record {
                          limit = bounds.1;
                          limit_within = bounds.0;
                          distance = read.1;
                          distance_within = read.0;
                          price_min = refl;
                          price_max = refl;
                          prices = e;
                          criteria = same;
                          districts = refl;
                          roads = refl;
                          buffers = refl;
                          preferences = weighed;
                          mode = mode;
                        })))))

  -- Whatever a planner has planned, arguments that `normalize_housing_search_arguments` gives take the limit, the distance, the bounds of the price, the thresholds of roads, the districts, the display and the enabled preferences from the query; the limit is 1 to 50, a distance 20 to 2000 metres, the bounds of the price do not cross; at least one preference is enabled, a disabled one weighs 0, a single one 1, several have equal parts, shares of a positive sum or, if two, no weight; and BUFFER_FILTER comes only with a road preference HIGH or VERY_HIGH.
  pub normalize_housing_search_arguments-IsGrounded :
      (planned : Search) (query : String)
      → Ensures (IsGrounded planned query) (normalize_housing_search_arguments py a planned query)
  unfolding normalize_housing_search_arguments
  normalize_housing_search_arguments-IsGrounded planned query =
      elim (Bool-cases (is_in "新步行" query)) [
        | inl e ↦ rw e tt
        | inr e ↦ elim (Bool-cases (crossed py a planned.price_min planned.price_max)) [
          | inl f ↦ rw (e, f) tt
          | inr f ↦
              elim (Bool-cases
                (crossed py a (explicit_price_min py query) (explicit_price_max py query))) [
                  | inl g ↦ rw (e, f, g) tt
                  | inr g ↦ rw (e, f, g) (read_query-IsGrounded planned query g)
                ]
        ]
      ]
