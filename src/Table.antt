-- ===== src/Table.antt =====
-- The SQL statements of app/agent/store.py, over tables that are lists of rows in the order of
-- insertion: SELECT ... WHERE, fetchone, UPDATE ... WHERE with its row count, DELETE ... WHERE,
-- COUNT(*), and ORDER BY.
pub mod Laws
use yjdlagent.Prelude.{
  leb, ℕ, zero, suc, ◌+◌, Bool, true, false, Option, none, some, List, [], ◌∷◌, ◌++◌, map, is_some,
  if◌then◌else◌,
}

module _ {ℓ} {A : Type ℓ} where
  -- SELECT * FROM rows WHERE p
  unfoldable pub select : (A → Bool) → List A → List A
  select p [] = []
  select p (x ∷ xs) = if p x then x ∷ select p xs else select p xs

  -- the first row of SELECT * FROM rows WHERE p
  unfoldable pub first : (A → Bool) → List A → Option A
  first p [] = none
  first p (x ∷ xs) = if p x then some x else first p xs

  -- SELECT COUNT(*) FROM rows WHERE p, and the row count of an UPDATE
  unfoldable pub row_count : (A → Bool) → List A → ℕ
  row_count p [] = 0
  row_count p (x ∷ xs) = if p x then suc (row_count p xs) else row_count p xs

  abbrev pub patch : (A → Bool) → (A → A) → A → A
  patch p f x = if p x then f x else x

  -- UPDATE rows SET f WHERE p
  unfoldable pub update : (A → Bool) → (A → A) → List A → List A
  update p f [] = []
  update p f (x ∷ xs) = patch p f x ∷ update p f xs

  -- whether some row has p
  unfoldable pub any : (A → Bool) → List A → Bool
  any p [] = false
  any p (x ∷ xs) = if p x then true else any p xs

  -- INSERT ... ON CONFLICT DO UPDATE: `p` finds the row in conflict
  unfoldable pub upsert : (A → Bool) → A → (A → A) → List A → List A
  unfolding any update
  upsert p row f xs = if any p xs then update p f xs else xs ++ row ∷ []

  -- ORDER BY key, by insertion
  unfoldable pub insert_by : (A → ℕ) → A → List A → List A
  insert_by key x [] = x ∷ []
  insert_by key x (y ∷ ys) = if leb (key x) (key y) then x ∷ y ∷ ys else y ∷ insert_by key x ys

  unfoldable pub order_by : (A → ℕ) → List A → List A
  unfolding insert_by
  order_by key [] = []
  order_by key (x ∷ xs) = insert_by key x (order_by key xs)
