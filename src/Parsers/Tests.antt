-- ===== src/Parsers/Tests.antt =====
-- src/utils/parsers.c with a conversion that reads the first byte as the number, in millions.
use libnrm.Prelude.{ℕ, ◌*◌, ◌≡◌, refl, [], ◌∷◌}
use libnrm.Prelude.Int.{ℤ, pos}
use libnrm.Prelude.Bytes.{Bytes}
use libnrm.Error.{success, einval, edom}
use libnrm.Parsers.{parse_int, parse_uint}

abbrev millions : Bytes → ℤ × ℕ
millions [] = (pos 0, 22)
millions (x ∷ l) = (pos (x * 1000000), 0)

parse_int_runs : parse_int millions (65 ∷ []) (pos 1) ≡ (success, pos 65000000)
unfolding parse_int
parse_int_runs = refl

parse_int_refuses : parse_int millions [] (pos 1) ≡ (einval, pos 1)
unfolding parse_int
parse_int_refuses = refl

-- More than an int holds, but not more than an unsigned int.
parse_uint_refuses : parse_uint millions (3000 ∷ []) (pos 1) ≡ (edom, pos 1)
unfolding parse_uint
parse_uint_refuses = refl
