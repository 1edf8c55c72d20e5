-- ===== src/Bitmap.antt =====
-- src/utils/bitmaps.c: a set of indices below 2048, kept in 32 words of 64 bits.
-- A pointer that the code tests for NULL is an `Option`. The allocation of the item array of
-- `nrm_bitmap_to_array` is taken to succeed.
pub mod Tests
pub mod Membership
pub mod Count
pub mod Arrays
use Prim.Native.Nat.{bit_and, bit_or}
use libnrm.Prelude.{
  ℕ, zero, suc, ◌+◌, ◌-◌, ◌*◌, ◌/◌, ◌%◌, ◌^◌, ◌<◌, ◌≡◌, Bool, true, false, not, Option, none, some,
  List, [], ◌∷◌, ltb, leb, ◌==◌, if◌then◌else◌, get_or, set, length, replicate,
}
use libnrm.Prelude.Int.{ℤ, pos, negsuc}

-- NRM_BITMAP_MAX, NRM_BITMAP_NBITS and NRM_BITMAP_SIZE
abbrev pub bitmap_max : ℕ
bitmap_max = 2048

abbrev pub bitmap_nbits : ℕ
bitmap_nbits = 64

abbrev pub bitmap_size : ℕ
bitmap_size = 32

pub record Bitmap : Type 0 where
  pub mask : List ℕ

-- `mask[NRM_BITMAP_NTH(i)] & (1UL << NRM_BITMAP_ITH(i))`, as a truth value
unfoldable pub test_bit : Bitmap → ℕ → Bool
test_bit m i = not (bit_and (get_or m.mask (i / 64) 0) (2 ^ (i % 64)) == 0)

-- `mask[NRM_BITMAP_NTH(i)] |= (1UL << NRM_BITMAP_ITH(i))`
unfoldable pub or_bit : Bitmap → ℕ → Bitmap
or_bit m i = record m {
  mask = set m.mask (i / 64) (bit_or (get_or m.mask (i / 64) 0) (2 ^ (i % 64)));
}

-- nrm_bitmap_isset: -1 on a NULL bitmap or an index out of range
unfoldable pub isset : Option Bitmap → ℕ → ℤ
isset none i = negsuc 0
isset (some m) i = if leb bitmap_max i then negsuc 0 else if test_bit m i then pos 1 else pos 0

-- nrm_bitmap_set
unfoldable pub set_bit : Option Bitmap → ℕ → ℤ × Option Bitmap
set_bit none i = (negsuc 0, none)
set_bit (some m) i = if leb bitmap_max i then (negsuc 0, some m) else (pos 0, some (or_bit m i))

-- nrm_bitmap_set_atomic: one atomic step, with the same effect on the word
unfoldable pub set_bit_atomic : Option Bitmap → ℕ → ℤ × Option Bitmap
set_bit_atomic none i = (negsuc 0, none)
set_bit_atomic (some m) i =
    if leb bitmap_max i then (negsuc 0, some m) else (pos 0, some (or_bit m i))

-- The inner loop of nrm_bitmap_nset: the bits of the word `b`, lowest first.
unfoldable pub count_bits : ℕ → ℕ → ℕ → ℕ
count_bits zero b nset = nset
count_bits (suc rounds) b nset =
    count_bits rounds (b / 2) (nset + (if bit_and b 1 == 0 then 0 else 1))

-- Its outer loop, over the words from `n`.
unfoldable pub count_words : ℕ → ℕ → Bitmap → ℕ → ℕ
count_words zero n m nset = nset
count_words (suc rounds) n m nset =
    count_words rounds (n + 1) m (count_bits bitmap_nbits (get_or m.mask n 0) nset)

-- The count for a bitmap that is there.
unfoldable pub nset_of : Bitmap → ℕ
nset_of m = count_words bitmap_size 0 m 0

-- nrm_bitmap_nset
unfoldable pub nset : Option Bitmap → ℤ
nset none = negsuc 0
nset (some m) = pos (nset_of m)

-- nrm_bitmap_copy: `memcpy` of the source's words over the destination's
unfoldable pub copy : Bitmap → Bitmap → Bitmap
copy dest src = record dest { mask = src.mask }

-- nrm_bitmap_reset
unfoldable pub reset : Bitmap → Bitmap
reset m = record m { mask = replicate bitmap_size 0 }

-- `if (nrm_bitmap_isset(map, i))`: any value but 0 counts
abbrev pub nonzero : ℤ → Bool
nonzero (pos n) = not (n == 0)
nonzero (negsuc n) = true

-- The loop of nrm_bitmap_to_array from index `i`, with `written` items stored so far.
unfoldable pub fill : Bitmap → ℕ → ℕ → ℕ → ℕ → List ℕ → List ℕ
fill m size zero i written items = items
fill m size (suc rounds) i written items =
    let hit = nonzero (isset (some m) i) in
    let rest =
      fill m size rounds (i + 1) (if hit then written + 1 else written)
        (if hit then set items written i else items) in
    if ltb written size then rest else items

-- nrm_bitmap_to_array: the number of items, and the items (non-negative int32_t values)
unfoldable pub to_array : Bitmap → ℕ × List ℕ
to_array m = let size = nset_of m in (size, fill m size bitmap_max 0 0 (replicate size 0))

-- int32_t to unsigned int, where an item becomes an index
abbrev pub to_unsigned : ℤ → ℕ
to_unsigned (pos n) = n % 2 ^ 32
to_unsigned (negsuc n) = 2 ^ 32 - 1 - n % 2 ^ 32

-- The effect of `nrm_bitmap_set(map, index)` with its result ignored.
unfoldable pub after_set : Bitmap → ℕ → Bitmap
after_set m i = elim (set_bit (some m) i).1 [ none ↦ m | some m' ↦ m' ]

-- The loop of nrm_bitmap_from_array.
unfoldable pub set_all : Bitmap → List ℤ → Bitmap
set_all m [] = m
set_all m (x ∷ xs) = set_all (after_set m (to_unsigned x)) xs

-- nrm_bitmap_from_array
unfoldable pub from_array : Bitmap → List ℤ → Bitmap
from_array m items = set_all (reset m) items
