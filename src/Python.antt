-- ===== src/Python.antt =====
-- Python's operations on JSON values that the workflow uses. Floating-point numbers and the
-- conversions of texts are a parameter, `Numbers`.
pub mod Samples
use yjdlagent.Prelude.{
  ◌≡◌, refl, sym, eq_iff, Bool-cases, inl, inr, ℕ, suc, Bool, true, false, Option, none, some, List,
  [], ◌∷◌, String, ◌==◌, ◌&&◌, str_eq, if◌then◌else◌,
}
use yjdlagent.Json.{
  Json, Items, Fields, null, bool, num, real, text, iso, arr, obj, nil, cons, end, field, get_field,
}
use yjdlagent.Errors.{Result, ok, err, attribute_error, key_error, type_error}

-- `negsuc n` is -(n + 1).
pub data ℤ : Type 0 where
  pos : ℕ → ℤ
  negsuc : ℕ → ℤ

-- max(0, n)
abbrev pub pos_part : ℤ → ℕ
pos_part (pos n) = n
pos_part (negsuc n) = 0

pub record Numbers : Type 0 where
  -- `math.isfinite` of a number that is written like this
  pub is_finite : String → Bool
  -- whether it equals an integer
  pub equals : String → ℕ → Bool
  -- `int(x)` of a float and of a text
  pub truncate : String → Result ℤ
  pub parse : String → Result ℤ
  -- `str(x)` of a number and of a value that is no text
  pub decimal : ℕ → String
  pub str_of : Json → String

infixl 5 ◌>>=◌
abbrev pub ◌>>=◌ : {A B : Type 0} → Result A → (A → Result B) → Result B
ok a >>= f = f a
err e >>= f = err e

-- A predicate of a result, if there is one.
abbrev pub Ensures : {A : Type 0} → (A → Type 0) → Result A → Type 0
Ensures P (ok a) = P a
Ensures P (err e) = Unit

pub Ensures-map :
    {A : Type 0} (P Q : A → Type 0) (m : Result A)
    → ((a : A) → P a → Q a)
    → Ensures P m
    → Ensures Q m
Ensures-map P Q (ok a) k h = k a h
Ensures-map P Q (err e) k h = tt

pub Ensures-bind :
    {A B : Type 0} (P : A → Type 0) (Q : B → Type 0) (m : Result A) (f : A → Result B)
    → Ensures P m
    → ((a : A) → P a → Ensures Q (f a))
    → Ensures Q (m >>= f)
Ensures-bind P Q (ok a) f h k = k a h
Ensures-bind P Q (err e) f h k = tt

pub Ensures-any :
    {A B : Type 0} (Q : B → Type 0) (m : Result A) (f : A → Result B)
    → ((a : A) → Ensures Q (f a))
    → Ensures Q (m >>= f)
Ensures-any Q (ok a) f k = k a
Ensures-any Q (err e) f k = tt

-- The result itself is known, too.
pub Ensures-with :
    {A : Type 0} (P : A → Type 0) (m : Result A) → Ensures P m → Ensures (λ a. P a × (m ≡ ok a)) m
Ensures-with P (ok a) h = (h, refl)
Ensures-with P (err e) h = tt

pub Ensures-refl : {A : Type 0} (m : Result A) → Ensures (λ a. m ≡ ok a) m
Ensures-refl (ok a) = refl
Ensures-refl (err e) = tt

-- x.get(key)
unfoldable pub get_of : String → Json → Result (Option Json)
unfolding get_field
get_of k (obj fs) = ok (get_field k fs)
get_of k _ = err attribute_error

abbrev pub or_default : Json → Option Json → Json
or_default d none = d
or_default d (some j) = j

-- d[key]
unfoldable pub item_of : String → Fields → Result Json
unfolding get_field
item_of k fs = elim (get_field k fs) [ none ↦ err (key_error k) | some j ↦ ok j ]

abbrev pub list_of : Items → List Json
list_of nil = []
list_of (cons x xs) = x ∷ list_of xs

abbrev keys_of : Fields → List Json
keys_of end = []
keys_of (field k v fs) = text k ∷ keys_of fs

abbrev characters : String → List Json
characters String.[] = []
characters (String.◌∷◌ c s) = text (String.◌∷◌ c String.[]) ∷ characters s

-- for x in value
abbrev pub iterate : Json → Result (List Json)
iterate (arr xs) = ok (list_of xs)
iterate (obj fs) = ok (keys_of fs)
iterate (text s) = ok (characters s)
iterate _ = err type_error

module _ (py : Numbers) where
  -- int(value)
  abbrev pub int_of : Json → Result ℤ
  int_of (num n) = ok (pos n)
  int_of (bool true) = ok (pos 1)
  int_of (bool false) = ok (pos 0)
  int_of (real s) = py.truncate s
  int_of (text s) = py.parse s
  int_of _ = err type_error

  -- str(value)
  abbrev pub text_of : Json → String
  text_of (text s) = s
  text_of j = py.str_of j

  -- value == n
  abbrev pub equals_int : Json → ℕ → Bool
  equals_int (num m) n = m == n
  equals_int (real s) n = py.equals s n
  equals_int (bool true) n = n == 1
  equals_int (bool false) n = n == 0
  equals_int _ n = false

  -- an int or a float, no bool, and finite
  abbrev pub is_coordinate : Json → Bool
  is_coordinate (num n) = true
  is_coordinate (real s) = py.is_finite s
  is_coordinate _ = false

-- `list(dict.fromkeys(texts))`
abbrev pub member : String → List String → Bool
member s [] = false
member s (t ∷ ts) = if str_eq t s then true else member s ts

pub str_eq-sym : (m n : String) → str_eq n m ≡ false → str_eq m n ≡ false
str_eq-sym m n h = elim (Bool-cases (str_eq m n)) [
  | inl e ↦
      let same : str_eq n m ≡ true = (eq_iff n m).1 (sym ((eq_iff m n).0 e)) in
      let bad : true ≡ false = rw same at h in absurd cc
  | inr e ↦ e
]

abbrev pub dedupe_after : List String → List String → List String
dedupe_after seen [] = []
dedupe_after seen (s ∷ ss) =
    let new = s ∷ dedupe_after (s ∷ seen) ss in
    let old = dedupe_after seen ss in if member s seen then old else new

abbrev pub dedupe : List String → List String
dedupe = dedupe_after []

abbrev size_of : Fields → ℕ
size_of end = 0
size_of (field k v fs) = suc (size_of fs)

abbrev nat_of : Bool → ℕ
nat_of true = 1
nat_of false = 0

-- value == value; floats are equal when they are written alike
module _ (py : Numbers) where
  unfoldable mutual
    unfolding get_field

    pub equal : Json → Json → Bool
    equal null j = elim j [ null ↦ true | _ ↦ false ]
    equal (bool b) j = equals_int py j (nat_of b)
    equal (num n) j = equals_int py j n
    equal (real s) j = elim j [
      | num n ↦ py.equals s n
      | bool b ↦ py.equals s (nat_of b)
      | real t ↦ str_eq s t
      | _ ↦ false
    ]
    equal (text s) j = elim j [ text t ↦ str_eq s t | _ ↦ false ]
    equal (iso t) j = elim j [ iso u ↦ t == u | _ ↦ false ]
    equal (arr xs) j = elim j [ arr ys ↦ equal_items xs ys | _ ↦ false ]
    equal (obj fs) j = elim j [ obj gs ↦ size_of fs == size_of gs && within fs gs | _ ↦ false ]

    pub equal_items : Items → Items → Bool
    equal_items nil nil = true
    equal_items nil (cons y ys) = false
    equal_items (cons x xs) nil = false
    equal_items (cons x xs) (cons y ys) = equal x y && equal_items xs ys

    -- every field of the first dict is in the second one
    pub within : Fields → Fields → Bool
    within end gs = true
    within (field k v fs) gs = elim (get_field k gs) [
      | none ↦ false
      | some w ↦ equal v w && within fs gs
    ]
