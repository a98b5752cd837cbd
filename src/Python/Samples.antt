-- ===== src/Python/Samples.antt =====
-- Numbers for the examples.
use yjdlagent.Prelude.{true, false}
use yjdlagent.Errors.{ok, err, value_error}
use yjdlagent.Python.{Numbers, pos}

-- natural numbers, all of which are written as 7
abbrev pub digits : Numbers
digits = record {
  is_finite = λ s. true;
  equals = λ s n. false;
  truncate = λ s. ok (pos 0);
  parse = λ s. err (value_error "invalid literal for int()");
  decimal = λ n. "7";
  str_of = λ j. "7";
}
