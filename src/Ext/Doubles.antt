-- ===== src/Ext/Doubles.antt =====
-- The `double` numbers of C, as the code uses them: a type with comparisons, a subtraction and an
-- absolute value. The laws are those of IEEE doubles without NaN, with the two zeros as one number.
use libnrm.Prelude.{◌≡◌, ◌↔◌, Bool, true, false, arith}

pub record Doubles : Type 1 where
  pub Double : Type 0
  pub lt : Double → Double → Bool
  pub eq : Double → Double → Bool
  pub sub : Double → Double → Double
  pub fabs : Double → Double
  pub zero : Double
  -- DBL_MAX
  pub dbl_max : Double
  pub lt_irrefl : (a : Double) → lt a a ≡ false
  pub lt_trans : (a b c : Double) → lt a b ≡ true → lt b c ≡ true → lt a c ≡ true
  pub lt_total : (a b : Double) → lt a b ≡ false → lt b a ≡ false → a ≡ b
  pub eq_iff : (a b : Double) → (eq a b ≡ true) ↔ (a ≡ b)
  pub fabs_nonneg : (a : Double) → lt (fabs a) zero ≡ false
  pub fabs-sub_iff : (a b : Double) → (fabs (sub a b) ≡ zero) ↔ (a ≡ b)

module _ (fp : Doubles) where
  -- `a <= b`
  abbrev pub Le : fp.Double → fp.Double → Type 0
  Le a b = fp.lt b a ≡ false

  pub le_of_lt : (a b : fp.Double) → fp.lt a b ≡ true → Le a b
  le_of_lt a b h = ground (arith, fp.lt_irrefl b, fp.lt_trans b a b)

  pub le_trans : (a b c : fp.Double) → Le a b → Le b c → Le a c
  le_trans a b c h k = ground (
    arith,
    fp.lt_trans c a b,
    fp.lt_trans b c a,
    fp.lt_total a b,
    fp.lt_total b c,
    fp.lt_irrefl a,
  )

  pub le_refl : (a : fp.Double) → Le a a
  le_refl a = fp.lt_irrefl a

  pub le_antisymm : (a b : fp.Double) → Le a b → Le b a → a ≡ b
  le_antisymm a b h k = fp.lt_total a b k h
