-- ===== src/Workflow/Preferences/Weights.antt =====
-- app/agent/workflow.py, `normalize_housing_search_arguments`: the weights that preferences get.
use yjdlagent.Prelude.{
  ◌≡◌, ◌⊎◌, refl, ◌≤◌, ℕ, Bool, true, false, none, some, List, [], ◌∷◌, String, All, length,
  Bool-cases, Option-cases, inl, inr, arith,
}
use yjdlagent.Json.{Json, num}
use yjdlagent.Python.{Ensures}
use yjdlagent.Workflow.Preferences.{
  Weight, left_out, unset, weighs, Preference, Preferences, Arithmetic, active, all_given,
  all_unset, on_enabled, zeroed, is_default_pair, part_of, several, weigh,
}

-- A weight of one of `n` enabled preferences: the whole, nothing for two that the backend weighs, an equal
-- part, or the share of a given weight in a positive sum.
pub data Settled (a : Arithmetic) (n : ℕ) : Weight → Type 0 where
  whole : n ≡ 1 → Settled a n (weighs (num 1))
  omitted : n ≡ 2 → Settled a n left_out
  equal_part : 2 ≤ n → Settled a n (weighs (a.part n))
  share :
      (v : Json) (total : String)
      → 2 ≤ n
      → a.is_positive total ≡ true
      → Settled a n (weighs (a.share v total))

-- What becomes of a preference: a disabled one weighs 0.
abbrev pub Fits : Arithmetic → ℕ → Preference → Preference → Type 0
Fits a n before after =
    (after.enabled ≡ before.enabled)
    × (after.level ≡ before.level)
    × (((after.enabled ≡ false) × (after.weight ≡ weighs (num 0)))
        ⊎ ((after.enabled ≡ true) × Settled a n after.weight))

pub record AreWeighed (a : Arithmetic) (before after : Preferences) : Type 0 where
  pub enabled : 1 ≤ length (active before)
  pub price : Fits a (length (active before)) before.price after.price
  pub convenience : Fits a (length (active before)) before.convenience after.convenience
  pub road_walkability :
      Fits a (length (active before)) before.road_walkability after.road_walkability

abbrev preference : Bool → String → Weight → Preference
preference b l w = record { enabled = b; level = l; weight = w }

abbrev three : Preference → Preference → Preference → Preferences
three p q r = record { price = p; convenience = q; road_walkability = r }

All-any : {A : Type 0} (P : A → Type 0) (xs : List A) → ((x : A) → P x) → All P xs
All-any P [] h = tt
All-any P (x ∷ xs) h = (h x, All-any P xs h)

abbrev IsGiven : Weight → Type 0
IsGiven w = (v : Json) × (w ≡ weighs v)

all_given-IsGiven : (ws : List Weight) (vs : List Json) → all_given ws ≡ some vs → All IsGiven ws
all_given-IsGiven [] vs e = tt
all_given-IsGiven (left_out ∷ ws) vs e = cc
all_given-IsGiven (unset ∷ ws) vs e = cc
all_given-IsGiven (weighs v ∷ ws) vs e = elim (Option-cases (all_given ws)) [
  | inl f ↦ let bad : none ≡ some vs = rw f at e in cc
  | inr (us, f) ↦ ((v, refl), all_given-IsGiven ws us f)
]

module _ (a : Arithmetic) where
  All-share :
      (n : ℕ) (total : String) (ws : List Weight)
      → 2 ≤ n
      → a.is_positive total ≡ true
      → All IsGiven ws
      → All (λ w. Settled a n (part_of a w total)) ws
  All-share n total [] m pos h = tt
  All-share n total (w ∷ ws) m pos ((v, e), h) =
      (rw e (share v total m pos), All-share n total ws m pos h)

  off :
      (n : ℕ) (l : String) (w : Weight)
      → Fits a n (preference false l w) (preference false l (weighs (num 0)))
  off n l w = (refl, refl, inl (refl, refl))

  on :
      (n : ℕ) (l : String) (w v : Weight)
      → Settled a n v
      → Fits a n (preference true l w) (preference true l v)
  on n l w v h = (refl, refl, inr (refl, h))

  on_enabled-AreWeighed :
      (b c d : Bool) (l m k : String) (u v w : Weight) (f : Weight → Weight)
      → let p = three (preference b l u) (preference c m v) (preference d k w) in
        1 ≤ length (active p)
        → All (λ w. Settled a (length (active p)) (f w)) (active p)
        → AreWeighed a p (on_enabled f (zeroed p))
  on_enabled-AreWeighed false false false l m k u v w f n h = absurd (omega arith)
  on_enabled-AreWeighed false false true l m k u v w f n h = record {
    enabled = n;
    price = off 1 l u;
    convenience = off 1 m v;
    road_walkability = on 1 k w (f w) h.0;
  }
  on_enabled-AreWeighed false true false l m k u v w f n h = record {
    enabled = n;
    price = off 1 l u;
    convenience = on 1 m v (f v) h.0;
    road_walkability = off 1 k w;
  }
  on_enabled-AreWeighed false true true l m k u v w f n h = record {
    enabled = n;
    price = off 2 l u;
    convenience = on 2 m v (f v) h.0;
    road_walkability = on 2 k w (f w) h.1.0;
  }
  on_enabled-AreWeighed true false false l m k u v w f n h = record {
    enabled = n;
    price = on 1 l u (f u) h.0;
    convenience = off 1 m v;
    road_walkability = off 1 k w;
  }
  on_enabled-AreWeighed true false true l m k u v w f n h = record {
    enabled = n;
    price = on 2 l u (f u) h.0;
    convenience = off 2 m v;
    road_walkability = on 2 k w (f w) h.1.0;
  }
  on_enabled-AreWeighed true true false l m k u v w f n h = record {
    enabled = n;
    price = on 2 l u (f u) h.0;
    convenience = on 2 m v (f v) h.1.0;
    road_walkability = off 2 k w;
  }
  on_enabled-AreWeighed true true true l m k u v w f n h = record {
    enabled = n;
    price = on 3 l u (f u) h.0;
    convenience = on 3 m v (f v) h.1.0;
    road_walkability = on 3 k w (f w) h.1.1.0;
  }

  several-Ensures :
      (Q : Preferences → Type 0) (n : ℕ) (p : Preferences)
      → 2 ≤ n
      → (is_default_pair p ≡ true → n ≡ 2)
      → ((f : Weight → Weight) → All (λ w. Settled a n (f w)) (active p) → Q (on_enabled f p))
      → Ensures Q (several a n p)
  several-Ensures Q n p m pair keep = elim (Bool-cases (all_unset (active p))) [
    | inl e ↦ elim (Bool-cases (is_default_pair p)) [
      | inl g ↦ rw (e, g) (keep (λ w. left_out) (All-any _ (active p) (λ w. omitted (pair g))))
      | inr g ↦ rw (e, g) (keep (λ w. weighs (a.part n)) (All-any _ (active p) (λ w. equal_part m)))
    ]
    | inr e ↦ elim (Option-cases (all_given (active p))) [
      | inl g ↦ rw (e, g) tt
      | inr (vs, g) ↦ elim (Bool-cases (a.is_positive (a.total vs))) [
        | inr pos ↦ rw (e, g, pos) tt
        | inl pos ↦
            rw (e, g, pos)
              (keep (λ w. part_of a w (a.total vs))
                (All-share n (a.total vs) (active p) m pos (all_given-IsGiven (active p) vs g)))
      ]
    ]
  ]

  weigh-three :
      (b c d : Bool) (l m k : String) (u v w : Weight)
      → let p = three (preference b l u) (preference c m v) (preference d k w) in
        Ensures (AreWeighed a p) (weigh a p)
  unfolding weigh
  weigh-three false false false l m k u v w = tt
  weigh-three false false true l m k u v w =
      on_enabled-AreWeighed false false true l m k u v w (λ w. weighs (num 1)) (omega arith)
        (whole refl, tt)
  weigh-three false true false l m k u v w =
      on_enabled-AreWeighed false true false l m k u v w (λ w. weighs (num 1)) (omega arith)
        (whole refl, tt)
  weigh-three false true true l m k u v w =
      several-Ensures _ 2
        (three (preference false l (weighs (num 0))) (preference true m v) (preference true k w))
        (omega arith) (λ e. refl)
        (λ f h. on_enabled-AreWeighed false true true l m k u v w f (omega arith) h)
  weigh-three true false false l m k u v w =
      on_enabled-AreWeighed true false false l m k u v w (λ w. weighs (num 1)) (omega arith)
        (whole refl, tt)
  weigh-three true false true l m k u v w =
      several-Ensures _ 2
        (three (preference true l u) (preference false m (weighs (num 0))) (preference true k w))
        (omega arith) (λ e. refl)
        (λ f h. on_enabled-AreWeighed true false true l m k u v w f (omega arith) h)
  weigh-three true true false l m k u v w =
      several-Ensures _ 2
        (three (preference true l u) (preference true m v) (preference false k (weighs (num 0))))
        (omega arith) (λ e. refl)
        (λ f h. on_enabled-AreWeighed true true false l m k u v w f (omega arith) h)
  weigh-three true true true l m k u v w =
      several-Ensures _ 3 (three (preference true l u) (preference true m v) (preference true k w))
        (omega arith) (λ e. absurd (cc))
        (λ f h. on_enabled-AreWeighed true true true l m k u v w f (omega arith) h)

  pub weigh-AreWeighed : (p : Preferences) → Ensures (AreWeighed a p) (weigh a p)
  weigh-AreWeighed p =
      weigh-three p.price.enabled p.convenience.enabled p.road_walkability.enabled p.price.level
        p.convenience.level p.road_walkability.level p.price.weight p.convenience.weight
        p.road_walkability.weight
