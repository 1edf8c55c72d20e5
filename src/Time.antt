-- ===== src/Time.antt =====
-- src/utils/timers.c: times as seconds and nanoseconds, and as int64_t counts of nanoseconds. The
-- counts are integers without a bound: the code's arithmetic is signed, and a program whose values
-- leave the int64_t range (some 292 years about 1970) has no defined behaviour.
pub mod Tests
use libnrm.Prelude.{ℕ, ◌+◌, ◌*◌, ◌<◌, ◌≡◌, refl, ap₂, ◌⊎◌, inl, inr, arith}
use libnrm.Prelude.Int.{
  ℤ, pos, negsuc, pos_part, neg_part, ◌+ℤ◌, ◌-ℤ◌, ◌*ℤ◌, quot, rem, int_laws, quot_parts, rem_parts,
  scale_parts, eq_of_parts,
}

-- struct timespec
pub record Time : Type 0 where
  pub sec : ℤ
  pub nsec : ℤ

abbrev pub billion : ℕ
billion = 1000000000

-- nrm_time_diff
unfoldable pub diff : Time → Time → ℤ
diff start end = (end.nsec -ℤ start.nsec) +ℤ pos billion *ℤ (end.sec -ℤ start.sec)

-- nrm_time_tons
unfoldable pub tons : Time → ℤ
tons now = now.nsec +ℤ pos billion *ℤ now.sec

-- nrm_time_fromns
unfoldable pub fromns : ℤ → Time
fromns ns = record { sec = quot ns billion; nsec = rem ns billion }

-- nrm_time_tons is a left inverse of nrm_time_fromns, for negative counts too.
pub tons-fromns : (ns : ℤ) → tons (fromns ns) ≡ ns
unfolding tons fromns
tons-fromns ns = omega (
  int_laws,
  quot_parts ns billion (omega arith),
  rem_parts ns billion (omega arith),
  scale_parts billion (quot ns billion),
)

-- A time whose nanoseconds are below a second and have the sign of its seconds.
pub record IsNormal (t : Time) : Type 0 where
  pub below : (pos_part t.nsec < billion) × (neg_part t.nsec < billion)
  pub signs :
      (pos_part t.nsec ≡ 0) × (pos_part t.sec ≡ 0) ⊎ (neg_part t.nsec ≡ 0) × (neg_part t.sec ≡ 0)

-- nrm_time_fromns gives such a time.
pub fromns-IsNormal : (ns : ℤ) → IsNormal (fromns ns)
unfolding fromns
fromns-IsNormal (pos n) = record {
  below = omega (arith, rem_parts (pos n) billion (omega arith));
  signs = inr (
    omega (arith, rem_parts (pos n) billion (omega arith)),
    omega (arith, quot_parts (pos n) billion (omega arith)),
  );
}
fromns-IsNormal (negsuc n) = record {
  below = omega (arith, rem_parts (negsuc n) billion (omega arith));
  signs = inl (
    omega (arith, rem_parts (negsuc n) billion (omega arith)),
    omega (arith, quot_parts (negsuc n) billion (omega arith)),
  );
}

one_part : (a : ℤ) → (pos_part a ≡ 0) ⊎ (neg_part a ≡ 0)
one_part (pos n) = inr refl
one_part (negsuc n) = inl refl

module _ (t : Time) (v : IsNormal t) where
  tons_parts :
      (pos_part (tons t) ≡ pos_part t.nsec + billion * pos_part t.sec)
      × (neg_part (tons t) ≡ neg_part t.nsec + billion * neg_part t.sec)
  unfolding tons
  tons_parts = (
    omega (int_laws, scale_parts billion t.sec, one_part (tons t), v.signs),
    omega (int_laws, scale_parts billion t.sec, one_part (tons t), v.signs),
  )

  sec_back : quot (tons t) billion ≡ t.sec
  sec_back =
      eq_of_parts _ _
        (omega (arith, quot_parts (tons t) billion (omega arith), tons_parts, v.below))

  nsec_back : rem (tons t) billion ≡ t.nsec
  nsec_back =
      eq_of_parts _ _ (omega (arith, rem_parts (tons t) billion (omega arith), tons_parts, v.below))

  -- nrm_time_fromns undoes nrm_time_tons on a time whose nanoseconds are below a second, and have
  -- the sign of its seconds.
  pub fromns-tons : fromns (tons t) ≡ t
  unfolding fromns
  fromns-tons = ap₂ (λ s n. record { sec = s; nsec = n }) sec_back nsec_back

-- nrm_time_diff is the difference of the counts.
pub diff-tons : (start end : Time) → diff start end ≡ tons end -ℤ tons start
unfolding diff tons
diff-tons start end = omega (
  int_laws,
  scale_parts billion (end.sec -ℤ start.sec),
  scale_parts billion end.sec,
  scale_parts billion start.sec,
)
