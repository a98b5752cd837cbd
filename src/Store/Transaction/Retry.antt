-- ===== src/Store/Transaction/Retry.antt =====
-- app/agent/store.py, `_write_with_retry`: how often a transaction is tried, and what comes of it.
use native.Mathlib.Nat.{add-zero, zero-add}
use yjdlagent.Prelude.{
  ℕ, zero, suc, ◌+◌, ◌*◌, ◌^◌, ◌≤◌, ◌<◌, ◌≡◌, refl, ap, ◌∙◌, Bool, true, false, List, ◌∷◌, map,
  arith, count_from,
}
use yjdlagent.Errors.{Result, err, operational_error}
use yjdlagent.Store.Schema.{Db}
use yjdlagent.Store.Transaction.{Body, connect, is_busy, retry_from, write_with_retry}

-- The delays before the attempts a + 1 to a + n.
abbrev pub delays_from : ℕ → ℕ → ℕ → List ℕ
delays_from base a n = map (λ (i : ℕ). base * 2 ^ i) (count_from a n)

suc_add_lem : (a i : ℕ) → a + suc i ≡ suc a + i
suc_add_lem a i = omega arith

module _ {A : Type 0} (locked : ℕ → Bool) (base : ℕ) (body : Body A) (db : Db) where
  -- One more attempt after a locked one.
  retry_from_locked :
      (left a : ℕ)
      → locked a ≡ true
      → retry_from (suc left) a locked base (connect body) db ≡ (
        (retry_from left (suc a) locked base (connect body) db).0,
        (base * 2 ^ a) ∷ (retry_from left (suc a) locked base (connect body) db).1,
      )
  unfolding retry_from
  retry_from_locked left a h = rw (h, retry_from) refl

  retry_from_free :
      (n left a : ℕ)
      → n ≤ left
      → ((i : ℕ) → i < n → locked (a + i) ≡ true)
      → locked (a + n) ≡ false
      → is_busy (connect body db).0 ≡ false
      → retry_from left a locked base (connect body) db ≡ (connect body db, delays_from base a n)
  unfolding retry_from
  retry_from_free zero zero a h l free good =
      let now : locked a ≡ false = rw (add-zero a) at free in rw (now, retry_from) refl
  retry_from_free zero (suc left) a h l free good =
      let now : locked a ≡ false = rw (add-zero a) at free in rw (now, good, retry_from) refl
  retry_from_free (suc n) zero a h l free good = absurd (omega arith)
  retry_from_free (suc n) (suc left) a h l free good =
      let tail : (i : ℕ) → i < n → locked (suc a + i) ≡ true =
        λ i lt. rw (← suc_add_lem a i) (l (suc i) (omega arith)) in
      let end : locked (suc a + n) ≡ false = rw (← suc_add_lem a n) free in
      let now : locked a ≡ true = rw (add-zero a) at (l 0 (omega arith)) in
      retry_from_locked left a now
      ∙ ap (λ (x : (Result A × Db) × List ℕ). (x.0, (base * 2 ^ a) ∷ x.1))
          (retry_from_free n left (suc a) (omega arith) tail end good)

  retry_from_full :
      (left a : ℕ)
      → ((i : ℕ) → i ≤ left → locked (a + i) ≡ true)
      → retry_from left a locked base (connect body) db
        ≡ ((err (operational_error true), db), delays_from base a left)
  unfolding retry_from
  retry_from_full zero a l =
      let now : locked a ≡ true = rw (add-zero a) at (l 0 (omega arith)) in
      rw (now, retry_from) refl
  retry_from_full (suc left) a l =
      let tail : (i : ℕ) → i ≤ left → locked (suc a + i) ≡ true =
        λ i le. rw (← suc_add_lem a i) (l (suc i) (omega arith)) in
      let now : locked a ≡ true = rw (add-zero a) at (l 0 (omega arith)) in
      retry_from_locked left a now
      ∙ ap (λ (x : (Result A × Db) × List ℕ). (x.0, (base * 2 ^ a) ∷ x.1))
          (retry_from_full left (suc a) tail)

-- Where a transaction finds the database locked by others at its first `n` attempts and free at
-- the next one, which it may still make, and is not busy by itself, it runs once, on the database
-- as it was: the result is that of the transaction, after `n` delays, each twice the one before it.
pub write_with_retry_free :
    {A : Type 0} (attempts n : ℕ) (locked : ℕ → Bool) (base : ℕ) (body : Body A) (db : Db)
    → n ≤ attempts
    → ((i : ℕ) → i < n → locked i ≡ true)
    → locked n ≡ false
    → is_busy (connect body db).0 ≡ false
    → write_with_retry attempts locked base (connect body) db
      ≡ (connect body db, delays_from base 0 n)
unfolding write_with_retry
write_with_retry_free attempts n locked base body db h l free good =
    retry_from_free locked base body db n attempts 0 h (λ i lt. rw zero-add (l i lt))
      (rw zero-add free) good

-- Where the database is locked at every attempt, the call ends after `attempts` delays with the
-- error "database is locked", and has changed nothing.
pub write_with_retry_full :
    {A : Type 0} (attempts : ℕ) (locked : ℕ → Bool) (base : ℕ) (body : Body A) (db : Db)
    → ((i : ℕ) → i ≤ attempts → locked i ≡ true)
    → write_with_retry attempts locked base (connect body) db
      ≡ ((err (operational_error true), db), delays_from base 0 attempts)
unfolding write_with_retry
write_with_retry_full attempts locked base body db l =
    retry_from_full locked base body db attempts 0 (λ i le. rw zero-add (l i le))
