-- ===== src/Strings.antt =====
-- src/utils/strings.c: strings with their length and a count of references in front. Allocation
-- succeeds; `strncmp` is libc's, with the number of bytes that it looks at.
pub mod Tests
pub mod Laws
use libnrm.Prelude.{
  ℕ, zero, suc, ◌+◌, ◌%◌, ◌^◌, Option, none, some, List, [], ◌∷◌, ◌++◌, Bool, true, false, length,
  replicate, ◌==◌, if◌then◌else◌,
}
use libnrm.Prelude.Int.{ℤ, pos}
use libnrm.Prelude.Bytes.{Bytes}
use libnrm.Error.{ErrorCode, success, einval}
use libnrm.Vector.{Ptr}

-- struct nrm_realstring_s, with the bytes behind it, less the null byte at the end
pub record RealString : Type 0 where
  pub bytes : Bytes
  pub slen : ℕ
  pub mlen : ℕ
  pub rc : ℕ

-- nrm_string_new
unfoldable pub new : ℕ → RealString
new slen = record { bytes = replicate slen 0; slen = slen; mlen = slen + 1; rc = 1 }

-- nrm_string_frombuf, of a buffer of `len` bytes
unfoldable pub frombuf : Bytes → RealString
unfolding new
frombuf string = record (new (length string)) { bytes = string }

-- nrm_string_fromchar, of the bytes before the null byte
unfoldable pub fromchar : Ptr Bytes → Ptr RealString
unfolding frombuf
fromchar none = none
fromchar (some string) = some (frombuf string)

-- nrm_string_incref; the count is an unsigned int
unfoldable pub incref : RealString → RealString
incref s = record s { rc = (s.rc + 1) % 2 ^ 32 }

-- What nrm_string_decref leaves: the string with one reference less, nothing, or a failed assertion.
pub data Decref : Type 0 where
  kept : RealString → Decref
  freed : Decref
  failed_assertion : Decref

-- nrm_string_decref
unfoldable pub decref : RealString → Decref
decref s = elim s.rc [
  | zero ↦ failed_assertion
  | suc zero ↦ freed
  | suc (suc n) ↦ kept (record s { rc = suc n })
]

-- nrm_string_strlen
unfoldable pub strlen : Ptr RealString → ℕ
strlen none = 0
strlen (some s) = s.slen

-- nrm_string_cmp
unfoldable pub cmp : (Bytes → Bytes → ℕ → ℤ) → Ptr RealString → Ptr RealString → ℤ
cmp strncmp none none = pos 0
cmp strncmp none (some two) = pos 1
cmp strncmp (some one) none = pos 1
cmp strncmp (some one) (some two) = strncmp one.bytes two.bytes one.slen

-- The string that nrm_string_join makes of two.
unfoldable pub joined : RealString → ℕ → RealString → RealString
unfolding new
joined dest c src = record (new (dest.slen + src.slen + 1)) { bytes = dest.bytes ++ c ∷ src.bytes }

-- nrm_string_join on a location that holds a string; the old string loses a reference
unfoldable pub join : Ptr RealString → ℕ → Ptr RealString → ErrorCode × Ptr RealString
unfolding joined
join none c src = (einval, none)
join (some dest) c none = (success, some dest)
join (some dest) c (some src) = (success, some (joined dest c src))

-- The body of the loop of nrm_string_vjoin.
unfoldable pub join_next : ℕ → RealString → RealString → RealString
unfolding joined incref
join_next c ret s = if s.slen == 0 then ret else if ret.slen == 0 then incref s else joined ret c s

-- The loop of nrm_string_vjoin over the strings of a vector, from the string so far.
unfoldable pub vjoin_from : ℕ → RealString → List RealString → RealString
unfolding join_next
vjoin_from c ret [] = ret
vjoin_from c ret (s ∷ l) = vjoin_from c (join_next c ret s) l

-- nrm_string_vjoin
unfoldable pub vjoin : ℕ → List RealString → RealString
unfolding vjoin_from frombuf
vjoin c l = vjoin_from c (frombuf []) l
