-- ===== src/Error.antt =====
-- Error codes (include/nrm/utils/error.h) and their texts (src/utils/error.c).
use Prim.Native.Nat.{ℕ}
use libnrm.Prelude.Int.{ℤ, pos, negsuc}

-- NRM_SUCCESS and the NRM_E* codes.
pub data ErrorCode : Type 0 where
  success failure enomem einval edom enotsup ebusy eperm enotfound : ErrorCode

-- The positive values of the macros.
abbrev pub value_of : ErrorCode → ℕ
value_of success = 0
value_of failure = 1
value_of enomem = 2
value_of einval = 3
value_of edom = 4
value_of enotsup = 5
value_of ebusy = 6
value_of eperm = 7
value_of enotfound = 8

abbrev pub error_max : ℕ
error_max = 9

-- What a function that fails with a code returns: `-NRM_E…`, and 0 on success.
abbrev pub returned : ErrorCode → ℤ
returned success = pos 0
returned failure = negsuc 0
returned enomem = negsuc 1
returned einval = negsuc 2
returned edom = negsuc 3
returned enotsup = negsuc 4
returned ebusy = negsuc 5
returned eperm = negsuc 6
returned enotfound = negsuc 7
