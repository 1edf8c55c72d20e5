-- ===== src/Ext/Integers.antt =====
-- An instance of `Doubles`: the integers, which obey the same laws.
use libnrm.Prelude.{◌^◌, ◌≡◌, ◌↔◌, true, false, arith, if◌then◌else◌}
use libnrm.Prelude.Int.{ℤ, pos, negsuc, ltb_ℤ, ◌-ℤ◌, -ℤ_parts, eq_of_parts}
use libnrm.Ext.Doubles.{Doubles}
use libnrm.Ext.Models.{same_ℤ, same_ℤ_iff}

unfoldable pub abs : ℤ → ℤ
unfolding ◌-ℤ◌
abs a = if ltb_ℤ a (pos 0) then pos 0 -ℤ a else a

pub ltb_ℤ_total : (a b : ℤ) → ltb_ℤ a b ≡ false → ltb_ℤ b a ≡ false → a ≡ b
ltb_ℤ_total a b h k = ground arith

pub ltb_ℤ_trans : (a b c : ℤ) → ltb_ℤ a b ≡ true → ltb_ℤ b c ≡ true → ltb_ℤ a c ≡ true
ltb_ℤ_trans a b c h k = ground arith

pub ltb_ℤ_irrefl : (a : ℤ) → ltb_ℤ a a ≡ false
ltb_ℤ_irrefl a = ground arith

pub abs_nonneg : (a : ℤ) → ltb_ℤ (abs a) (pos 0) ≡ false
unfolding abs
abs_nonneg a = ground arith

abs-eq_zero : (a : ℤ) → abs a ≡ pos 0 → a ≡ pos 0
unfolding abs
abs-eq_zero (pos n) h = ground arith
abs-eq_zero (negsuc n) h = ground arith

sub_self : (a b : ℤ) → a ≡ b → abs (a -ℤ b) ≡ pos 0
unfolding abs ◌-ℤ◌
sub_self a b h = ground arith

pub abs-sub_iff : (a b : ℤ) → (abs (a -ℤ b) ≡ pos 0) ↔ (a ≡ b)
abs-sub_iff a b = (λ h. equal (abs-eq_zero (a -ℤ b) h), sub_self a b)
  where
    equal : a -ℤ b ≡ pos 0 → a ≡ b
    equal h = ground (arith, -ℤ_parts a b, eq_of_parts a b)

abbrev pub integers : Doubles
integers = record {
  Double = ℤ;
  lt = ltb_ℤ;
  eq = same_ℤ;
  sub = ◌-ℤ◌;
  fabs = abs;
  zero = pos 0;
  dbl_max = pos (2 ^ 1023);
  lt_irrefl = ltb_ℤ_irrefl;
  lt_trans = ltb_ℤ_trans;
  lt_total = ltb_ℤ_total;
  eq_iff = same_ℤ_iff;
  fabs_nonneg = abs_nonneg;
  fabs-sub_iff = abs-sub_iff;
}
