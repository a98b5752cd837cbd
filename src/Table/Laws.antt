-- ===== src/Table/Laws.antt =====
-- How the statements on tables interact.
use yjdlagent.Prelude.{
  ap, ◌+◌, ◌≤◌, ◌≡◌, refl, Bool, true, false, Option, none, some, List, [], ◌∷◌, ◌++◌, is_some,
  if◌then◌else◌, arith, All, Bool-cases, inl, inr,
}
use mathlib.Core.Option
use yjdlagent.Table.{select, first, row_count, patch, update, any}

module _ {ℓ} {A : Type ℓ} (p q : A → Bool) (f : A → A) (keeps : (a : A) → q (f a) ≡ q a) where
  pub first-update : (xs : List A) → first q (update p f xs) ≡ Option.map (patch p f) (first q xs)
  unfolding first update
  first-update [] = refl
  first-update (x ∷ xs) = ground (arith, keeps x, first-update xs)

  pub row_count-update : (xs : List A) → row_count q (update p f xs) ≡ row_count q xs
  unfolding row_count update
  row_count-update [] = refl
  row_count-update (x ∷ xs) = ground (arith, keeps x, row_count-update xs)

  pub any-update : (xs : List A) → any q (update p f xs) ≡ any q xs
  unfolding any update
  any-update [] = refl
  any-update (x ∷ xs) = ground (arith, keeps x, any-update xs)

module _ {ℓ} {A : Type ℓ} (p : A → Bool) where
  abbrev pub or_else : Option A → Option A → Option A
  or_else none b = b
  or_else (some a) b = some a

  pub first-append :
      (xs : List A) (y : A)
      → first p (xs ++ y ∷ []) ≡ or_else (first p xs) (if p y then some y else none)
  unfolding first
  first-append [] y = refl
  first-append (x ∷ xs) y = ground (arith, first-append xs y)

  pub select-append :
      (xs : List A) (y : A) → select p (xs ++ y ∷ []) ≡ select p xs ++ (if p y then y ∷ [] else [])
  unfolding select
  select-append [] y = ground arith
  select-append (x ∷ xs) y = ground (arith, select-append xs y)

  pub row_count-append :
      (xs : List A) (y : A) → row_count p (xs ++ y ∷ []) ≡ row_count p xs + (if p y then 1 else 0)
  unfolding row_count
  row_count-append [] y = ground arith
  row_count-append (x ∷ xs) y = ground (arith, row_count-append xs y)

  pub any-append : (xs : List A) (y : A) → any p (xs ++ y ∷ []) ≡ (if any p xs then true else p y)
  unfolding any
  any-append [] y = ground arith
  any-append (x ∷ xs) y = ground (arith, any-append xs y)

  -- What `first` returns has the property.
  pub first_has : (xs : List A) {a : A} → first p xs ≡ some a → p a ≡ true
  unfolding first
  first_has [] h = ground arith
  first_has (x ∷ xs) h = elim (Bool-cases (p x)) [
    | inl t ↦ ground arith
    | inr n ↦ first_has xs (ground arith)
  ]

  -- `first` finds a row exactly when there is one.
  pub first-any : (xs : List A) → is_some (first p xs) ≡ any p xs
  unfolding first any
  first-any [] = refl
  first-any (x ∷ xs) = ground (arith, first-any xs)

  pub first-row_count : (xs : List A) → first p xs ≡ none → row_count p xs ≡ 0
  unfolding first row_count
  first-row_count [] h = refl
  first-row_count (x ∷ xs) h = ground (arith, first-row_count xs)

  pub row_count-first : (xs : List A) → row_count p xs ≡ 0 → first p xs ≡ none
  unfolding first row_count
  row_count-first [] h = refl
  row_count-first (x ∷ xs) h = ground (arith, row_count-first xs)

-- A property of every row survives an UPDATE whose assignment keeps it.
pub All-update {ℓ κ} :
    {A : Type ℓ} (P : A → Type κ) (p : A → Bool) (f : A → A)
    → ((a : A) → p a ≡ true → P a → P (f a))
    → (xs : List A) → All P xs
    → All P (update p f xs)
unfolding update
All-update P p f keep [] h = h
All-update {A} P p f keep (x ∷ xs) h = (head, All-update P p f keep xs h.1)
  where
    split : (b : Bool) → p x ≡ b → P (if b then f x else x)
    split true e = keep x e h.0
    split false e = h.0

    head : P (patch p f x)
    head = split (p x) refl

pub All-first {ℓ κ} :
    {A : Type ℓ} (P : A → Type κ) (p : A → Bool) (xs : List A) {a : A}
    → All P xs
    → first p xs ≡ some a
    → P a
unfolding first
All-first P p [] h e = absurd (ground arith)
All-first {A} P p (x ∷ xs) {a} h e = elim (Bool-cases (p x)) [
  | inl t ↦ ground arith
  | inr n ↦ All-first P p xs h.1 (ground arith)
]

-- Where no row has `q`, and `p` implies `q`, no row has `p`.
pub any-row_count {ℓ} :
    {A : Type ℓ} (p q : A → Bool)
    → ((a : A) → p a ≡ true → q a ≡ true)
    → (xs : List A) → any q xs ≡ false
    → row_count p xs ≡ 0
unfolding any row_count
any-row_count p q imp [] h = refl
any-row_count p q imp (x ∷ xs) h = ground (arith, imp x, any-row_count p q imp xs)

-- Where at most one row has `p`, every row that has it is the first one.
pub All-unique {ℓ} :
    {A : Type ℓ} (p : A → Bool) (xs : List A) {a : A}
    → row_count p xs ≤ 1
    → first p xs ≡ some a
    → All (λ x. p x ≡ true → x ≡ a) xs
unfolding first row_count
All-unique p [] u e = tt
All-unique {A} p (x ∷ xs) {a} u e = elim (Bool-cases (p x)) [
  | inl t ↦ ((λ _. ground arith), none_left xs (ground arith))
  | inr n ↦ ((λ t. ground arith), All-unique p xs (ground arith) (ground arith))
]
  where
    none_left : (ys : List A) → row_count p ys ≡ 0 → All (λ y. p y ≡ true → y ≡ a) ys
    none_left [] z = tt
    none_left (y ∷ ys) z = ((λ t. ground arith), none_left ys (ground arith))

pub All-imp {ℓ κ μ} :
    {A : Type ℓ} {P : A → Type κ} {Q : A → Type μ}
    → ((a : A) → P a → Q a)
    → (xs : List A) → All P xs
    → All Q xs
All-imp imp [] h = tt
All-imp imp (x ∷ xs) h = (imp x h.0, All-imp imp xs h.1)

-- An UPDATE that finds no row changes nothing.
pub update-none {ℓ} :
    {A : Type ℓ} (p : A → Bool) (f : A → A) (xs : List A) → row_count p xs ≡ 0 → update p f xs ≡ xs
unfolding update row_count
update-none p f [] h = refl
update-none p f (x ∷ xs) h = elim (Bool-cases (p x)) [
  | inl t ↦ absurd (ground arith)
  | inr n ↦ rw n (ap (λ l. x ∷ l) (update-none p f xs (ground arith)))
]

pub All-row_count {ℓ} :
    {A : Type ℓ} (p : A → Bool) (xs : List A) → All (λ x. p x ≡ false) xs → row_count p xs ≡ 0
unfolding row_count
All-row_count p [] h = refl
All-row_count p (x ∷ xs) h = rw h.0 (All-row_count p xs h.1)

-- An UPDATE that gives `q` to no row that lacks it.
pub row_count-update_le {ℓ} :
    {A : Type ℓ} (p q : A → Bool) (f : A → A) (xs : List A)
    → All (λ a. p a ≡ true → q (f a) ≡ true → q a ≡ true) xs
    → row_count q (update p f xs) ≤ row_count q xs
unfolding row_count update
row_count-update_le p q f [] h = omega arith
row_count-update_le p q f (x ∷ xs) h = ground (arith, h.0, row_count-update_le p q f xs h.1)

pub any-append_left {ℓ} :
    {A : Type ℓ} (p : A → Bool) (xs ys : List A) → any p xs ≡ true → any p (xs ++ ys) ≡ true
unfolding any
any-append_left p [] ys h = ground arith
any-append_left p (x ∷ xs) ys h = ground (arith, any-append_left p xs ys)

pub any-append_mid {ℓ} :
    {A : Type ℓ} (p : A → Bool) (xs ys : List A) (y : A) → p y ≡ true → any p (xs ++ y ∷ ys) ≡ true
unfolding any
any-append_mid p [] ys y h = rw h
any-append_mid p (x ∷ xs) ys y h = ground (arith, any-append_mid p xs ys y h)

pub any-All {ℓ κ} :
    {A : Type ℓ} (P : A → Type κ) (p q : A → Bool)
    → ((a : A) → P a → p a ≡ true → q a ≡ true)
    → (xs : List A) → All P xs
    → any p xs ≡ true
    → any q xs ≡ true
unfolding any
any-All P p q imp [] h e = e
any-All P p q imp (x ∷ xs) h e = elim (Bool-cases (p x)) [
  | inl t ↦ rw (imp x h.0 t)
  | inr n ↦ elim (Bool-cases (q x)) [
    | inl u ↦ rw u
    | inr v ↦ rw v (any-All P p q imp xs h.1 (rw n at e))
  ]
]
