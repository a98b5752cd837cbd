-- ===== src/Store/Examples/Retries.antt =====
-- Transactions of the store while other connections hold the database, and the lives of a run.
use yjdlagent.Prelude.{◌≡◌, refl, arith, ℕ, true, false, Bool, ltb, some}
use yjdlagent.Errors.{err, operational_error}
use yjdlagent.Store.Schema.{empty_db}
use yjdlagent.Store.Transaction.{is_busy, connect, write_with_retry}
use yjdlagent.Store.Transaction.Retry.{delays_from, write_with_retry_free, write_with_retry_full}
use yjdlagent.Store.Create.{create_or_attach_once}
use yjdlagent.Store.Trace.{execute}
use yjdlagent.Store.Trace.Invariant.{execute-WellFormed}
use yjdlagent.Store.Trace.Lives.{life, Course, Settled, execute-Course}
use yjdlagent.Store.Examples.{question, two_runs, finished}

abbrev locked_twice : ℕ → Bool
locked_twice i = ltb i 2

creates_at_once :
    is_busy (connect (create_or_attach_once 1500000 "run1" question (some 5)) empty_db).0 ≡ false
unfolding connect create_or_attach_once
creates_at_once = refl

write_with_retry_free_example :
    write_with_retry 5 locked_twice 20
      (connect (create_or_attach_once 1500000 "run1" question (some 5)))
      empty_db
    ≡ (
      connect (create_or_attach_once 1500000 "run1" question (some 5)) empty_db,
      delays_from 20 0 2,
    )
write_with_retry_free_example =
    write_with_retry_free 5 2 locked_twice 20
      (create_or_attach_once 1500000 "run1" question (some 5)) empty_db (omega arith)
      (λ i lt. ground arith) refl creates_at_once

write_with_retry_full_example :
    write_with_retry 5
      (λ i. true)
      20
      (connect (create_or_attach_once 1500000 "run1" question (some 5)))
      empty_db
    ≡ ((err (operational_error true), empty_db), delays_from 20 0 5)
write_with_retry_full_example =
    write_with_retry_full 5 (λ i. true) 20 (create_or_attach_once 1500000 "run1" question (some 5))
      empty_db (λ i le. refl)

-- the first run lives on while two more messages come in
execute-Course_example :
    Course "run1" (execute empty_db finished) two_runs
    × Settled
        (life "run1" (execute empty_db finished))
        (life "run1" (execute (execute empty_db finished) two_runs))
execute-Course_example =
    execute-Course two_runs (execute empty_db finished) "run1" (execute-WellFormed finished)
