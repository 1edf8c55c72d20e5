-- ===== src/Ext/Arithmetic.antt =====
-- The arithmetic of C's `double` numbers and the calls of libm, as src/control/europar21.c uses them.
-- Only the documented results of fmin and fmax are assumed.
use libnrm.Prelude.{◌≡◌, refl, if◌then◌else◌}
use libnrm.Prelude.Int.{ℤ, pos, pos_part, ltb_ℤ, ◌+ℤ◌, ◌-ℤ◌, ◌*ℤ◌, quot}
use libnrm.Ext.Doubles.{Doubles}
use libnrm.Ext.Integers.{integers}

pub record Arithmetic (fp : Doubles) : Type 0 where
  pub add : fp.Double → fp.Double → fp.Double
  pub mul : fp.Double → fp.Double → fp.Double
  pub div : fp.Double → fp.Double → fp.Double
  pub neg : fp.Double → fp.Double
  pub exp : fp.Double → fp.Double
  pub log : fp.Double → fp.Double
  pub fmin : fp.Double → fp.Double → fp.Double
  pub fmax : fp.Double → fp.Double → fp.Double
  -- the conversion of an int64_t
  pub of_int : ℤ → fp.Double
  -- the literals 1.0, 2.0, 3 and 1e-9
  pub one : fp.Double
  pub two : fp.Double
  pub three : fp.Double
  pub nano : fp.Double
  pub fmin_lem : (a b : fp.Double) → fmin a b ≡ (if fp.lt b a then b else a)
  pub fmax_lem : (a b : fp.Double) → fmax a b ≡ (if fp.lt a b then b else a)

-- An instance over the integers, whose division rounds and whose `exp` and `log` do nothing.
abbrev pub whole_arithmetic : Arithmetic integers
whole_arithmetic = record {
  add = ◌+ℤ◌;
  mul = ◌*ℤ◌;
  div = λ a b. quot a (pos_part b);
  neg = λ a. pos 0 -ℤ a;
  exp = λ a. a;
  log = λ a. a;
  fmin = λ a b. if ltb_ℤ b a then b else a;
  fmax = λ a b. if ltb_ℤ a b then b else a;
  of_int = λ a. a;
  one = pos 1;
  two = pos 2;
  three = pos 3;
  nano = pos 1;
  fmin_lem = λ a b. refl;
  fmax_lem = λ a b. refl;
}
