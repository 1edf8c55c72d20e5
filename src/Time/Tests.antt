-- ===== src/Time/Tests.antt =====
-- src/utils/timers.c at particular times.
use libnrm.Prelude.{◌≡◌, refl, inr, arith}
use libnrm.Prelude.Int.{pos, ◌+ℤ◌, ◌-ℤ◌, ◌*ℤ◌, quot, rem}
use libnrm.Time.{Time, diff, tons, fromns, IsNormal, fromns-tons}

abbrev early : Time
early = record { sec = pos 3; nsec = pos 500000000 }

abbrev late : Time
late = record { sec = pos 5; nsec = pos 20 }

diff_runs : diff early late ≡ pos 1500000020
unfolding diff ◌+ℤ◌ ◌-ℤ◌ ◌*ℤ◌
diff_runs = refl

fromns_runs : fromns (pos 3500000000) ≡ early
unfolding fromns quot rem
fromns_runs = refl

tons_runs : tons early ≡ pos 3500000000
unfolding tons ◌+ℤ◌ ◌*ℤ◌
tons_runs = refl

early-IsNormal : IsNormal early
early-IsNormal = record { below = (omega arith, omega arith); signs = inr (refl, refl) }

fromns-tons_example : fromns (tons early) ≡ early
fromns-tons_example = fromns-tons early early-IsNormal
