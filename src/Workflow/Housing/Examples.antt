-- ===== src/Workflow/Housing/Examples.antt =====
-- A housing search of a query with two preferences.
use yjdlagent.Prelude.{◌≡◌, refl, true, false, none, []}
use yjdlagent.Json.{num, real}
use yjdlagent.Errors.{ok, err, value_error}
use yjdlagent.Python.{◌>>=◌, Ensures}
use yjdlagent.Workflow.Phrases.{Language}
use yjdlagent.Workflow.Preferences.{Weight, weighs, Arithmetic}
use yjdlagent.Workflow.Housing.{Search, default_search, normalize_housing_search_arguments}
use yjdlagent.Workflow.Housing.Grounded.{IsGrounded, normalize_housing_search_arguments-IsGrounded}
use yjdlagent.Workflow.Housing.Node.{plan_housing_search, IsPlanned, plan_housing_search-IsPlanned}

-- patterns that are not found
abbrev plain : Language
plain = record {
  lower = λ s. s;
  is_digit = λ c. false;
  search = λ p i s. none;
  find_all = λ p i s. [];
  substitute = λ p i r s. s;
  float = λ s. s;
  times = λ s n. s;
  as_int = λ s. none;
  le = λ a b. true;
}

abbrev halves : Arithmetic
halves = record {
  greater = λ x y. false;
  total = λ xs. "1.0";
  is_positive = λ s. true;
  share = λ x t. x;
  part = λ n. real "0.5";
  int_of = λ s. err (value_error "invalid literal for int()");
}

abbrev weights_of : Search → Weight × Weight × Weight
weights_of s = (
  s.preferences.price.weight, s.preferences.convenience.weight,
  s.preferences.road_walkability.weight,
)

two_preferences :
    (normalize_housing_search_arguments plain halves (default_search plain halves) "便宜一点又方便的房子"
      >>= λ s. ok (weights_of s))
    ≡ ok (weighs (real "0.5"), weighs (real "0.5"), weighs (num 0))
unfolding normalize_housing_search_arguments
two_preferences = refl

normalize_housing_search_arguments-IsGrounded_example :
    Ensures
      (IsGrounded plain halves (default_search plain halves) "便宜一点又方便的房子")
      (normalize_housing_search_arguments plain halves (default_search plain halves) "便宜一点又方便的房子")
normalize_housing_search_arguments-IsGrounded_example =
    normalize_housing_search_arguments-IsGrounded plain halves (default_search plain halves)
      "便宜一点又方便的房子"

plan_housing_search-IsPlanned_example :
    Ensures (IsPlanned plain halves (λ n. true) (λ fs. ok tt) (λ n s. s) "便宜一点又方便的房子") (
      plan_housing_search plain halves
        (λ n. true)
        (λ fs. ok tt)
        (λ n s. s)
        (λ q. ok (default_search plain halves))
        "便宜一点又方便的房子")
plan_housing_search-IsPlanned_example =
    plan_housing_search-IsPlanned plain halves (λ n. true) (λ fs. ok tt) (λ n s. s)
      (λ q. ok (default_search plain halves)) "便宜一点又方便的房子"
