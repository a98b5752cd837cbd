-- ===== src/Workflow/Preferences.antt =====
-- app/agent/workflow.py, `normalize_housing_search_arguments`: how it sets the weights of the preferences.
pub mod Weights
use yjdlagent.Prelude.{
  ℕ, Bool, true, false, not, Option, none, some, List, [], ◌∷◌, ◌++◌, String, ◌&&◌, if◌then◌else◌,
}
use yjdlagent.Json.{Json, null, bool, num, text, dict}
use yjdlagent.Errors.{Result, ok, err}
use yjdlagent.Workflow.Criteria.{bad_argument}

-- The value of `weight`, which may be missing or `None`.
pub data Weight : Type 0 where
  left_out unset : Weight
  weighs : Json → Weight

pub record Preference : Type 0 where
  pub enabled : Bool
  pub level : String
  pub weight : Weight

pub record Preferences : Type 0 where
  pub price : Preference
  pub convenience : Preference
  pub road_walkability : Preference

-- Arithmetic on the numbers of JSON: x > y, `sum(float(x))`, the opposite of sum <= 0, float(x) / sum,
-- 1 / n, and `int(text)` of digits.
pub record Arithmetic : Type 0 where
  pub greater : Json → Json → Bool
  pub total : List Json → String
  pub is_positive : String → Bool
  pub share : Json → String → Json
  pub part : ℕ → Json
  pub int_of : String → Result ℕ

abbrev weight_entry : Weight → List (String × Json)
weight_entry left_out = []
weight_entry unset = ("weight", null) ∷ []
weight_entry (weighs v) = ("weight", v) ∷ []

abbrev pub preference_json : Preference → Json
preference_json p =
    dict (("enabled", bool p.enabled) ∷ ("level", text p.level) ∷ weight_entry p.weight)

-- weights that all are given, or none
abbrev is_unset : Weight → Bool
is_unset (weighs v) = false
is_unset _ = true

abbrev weight_if : Preference → List Weight
weight_if p = if p.enabled then p.weight ∷ [] else []

-- the weights of the enabled preferences
abbrev pub active : Preferences → List Weight
active p = weight_if p.price ++ weight_if p.convenience ++ weight_if p.road_walkability

-- the weights, if all are given
abbrev pub all_given : List Weight → Option (List Json)
all_given [] = some []
all_given (weighs v ∷ ws) = elim (all_given ws) [ none ↦ none | some vs ↦ some (v ∷ vs) ]
all_given (_ ∷ ws) = none

abbrev pub all_unset : List Weight → Bool
all_unset [] = true
all_unset (w ∷ ws) = is_unset w && all_unset ws

abbrev pub reweigh : (Weight → Weight) → Preference → Preference
reweigh f p = if p.enabled then record p { weight = f p.weight } else p

-- a change of the weights of the enabled preferences
abbrev pub on_enabled : (Weight → Weight) → Preferences → Preferences
on_enabled f p = record {
  price = reweigh f p.price;
  convenience = reweigh f p.convenience;
  road_walkability = reweigh f p.road_walkability;
}

abbrev pub without_weight : Preference → Preference
without_weight p = if p.enabled then p else record p { weight = weighs (num 0) }

-- `preferences[name]["weight"] = 0` of what is not enabled
abbrev pub zeroed : Preferences → Preferences
zeroed p = record {
  price = without_weight p.price;
  convenience = without_weight p.convenience;
  road_walkability = without_weight p.road_walkability;
}

-- `enabled` is convenience and roadWalkability
abbrev pub is_default_pair : Preferences → Bool
is_default_pair p = not p.price.enabled && p.convenience.enabled && p.road_walkability.enabled

module _ (a : Arithmetic) where
  abbrev pub part_of : Weight → String → Weight
  part_of (weighs v) total = weighs (a.share v total)
  part_of w total = w

  abbrev pub shared : Preferences → String → Result Preferences
  shared p total =
      if not (a.is_positive total)
      then bad_argument "启用偏好的权重之和必须大于 0"
      else ok (on_enabled (λ w. part_of w total) p)

  abbrev pub normalized_weights : Preferences → Option (List Json) → Result Preferences
  normalized_weights p none = bad_argument "偏好权重必须同时省略或全部提供"
  normalized_weights p (some vs) = shared p (a.total vs)

  -- the weights of two preferences, or of three
  abbrev pub several : ℕ → Preferences → Result Preferences
  several n p =
      if all_unset (active p)
      then ok (
          if is_default_pair p
          then on_enabled (λ w. left_out) p
          else on_enabled (λ w. weighs (a.part n)) p)
      else normalized_weights p (all_given (active p))

  abbrev pub weigh_active : List Weight → Preferences → Result Preferences
  weigh_active [] p = bad_argument "至少需要启用一项购房偏好"
  weigh_active (w ∷ []) p = ok (on_enabled (λ w. weighs (num 1)) (zeroed p))
  weigh_active (w ∷ v ∷ []) p = several 2 (zeroed p)
  weigh_active (w ∷ v ∷ ws) p = several 3 (zeroed p)

  unfoldable pub weigh : Preferences → Result Preferences
  weigh p = weigh_active (active p) p
