-- ===== src/Parsers.antt =====
-- src/utils/parsers.c: numbers from text. The conversions are libc's: `strtol` gives a number and
-- what `errno` is afterwards, `strtod` and `strtoull` also tell whether any character was read.
pub mod Tests
pub mod Laws
use libnrm.Prelude.{ℕ, ◌-◌, ◌^◌, Bool, true, false, not, ◌||◌, ◌&&◌, ◌==◌, if◌then◌else◌}
use libnrm.Prelude.Int.{ℤ, pos, negsuc, ltb_ℤ}
use libnrm.Prelude.Bytes.{Bytes}
use libnrm.Error.{ErrorCode, success, einval, edom}
use libnrm.Ext.Doubles.{Doubles}

abbrev pub int_max : ℤ
int_max = pos 2147483647

abbrev pub int_min : ℤ
int_min = negsuc 2147483647

module _ (strtol : Bytes → ℤ × ℕ) where
  -- nrm_parse_int, with what `*p` was
  unfoldable pub parse_int : Bytes → ℤ → ErrorCode × ℤ
  parse_int str p =
      let (ret, errno) = strtol str in
      if not (errno == 0)
      then (einval, p)
      else if ltb_ℤ ret int_min || ltb_ℤ int_max ret
      then (edom, p)
      else (success, ret)

  -- nrm_parse_uint, with what `*p` was
  unfoldable pub parse_uint : Bytes → ℤ → ErrorCode × ℤ
  parse_uint str p =
      let (ret, errno) = strtol str in
      if not (errno == 0)
      then (einval, p)
      else if ltb_ℤ ret (pos 0) || ltb_ℤ int_max ret
      then (edom, p)
      else (success, ret)

-- nrm_parse_double
unfoldable pub parse_double :
    (fp : Doubles) → (Bytes → fp.Double × Bool × ℕ) → Bytes → fp.Double → ErrorCode × fp.Double
parse_double fp strtod str p =
    let (ret, moved, errno) = strtod str in
    if not (errno == 0)
    then (einval, p)
    else if fp.eq ret fp.zero && not moved
    then (einval, p)
    else (success, ret)

-- nrm_parse_llu
unfoldable pub parse_llu : (Bytes → ℕ × Bool × ℕ) → Bytes → ℕ → ErrorCode × ℕ
parse_llu strtoull str p =
    let (ret, moved, errno) = strtoull str in
    if not (errno == 0)
    then (einval, p)
    else if ret == 0 && not moved
    then (einval, p)
    else (success, ret)
