-- ===== src/Bitmap/Tests.antt =====
-- Runs of utils/bitmaps.c on small bitmaps, and its theorems on them.
use libnrm.Prelude.{ltb, ◌&&◌, ◌≡◌, refl, some, [], ◌∷◌, map, ◌==◌, if◌then◌else◌}
use libnrm.Prelude.Int.{pos, negsuc}
use libnrm.Bitmap.{
  Bitmap, reset, after_set, set_bit, isset, to_array, from_array, test_bit, or_bit, set_all,
}
use libnrm.Bitmap.Membership.{IsValid, reset-IsValid, after_set-IsValid, isset-set_bit}
use libnrm.Bitmap.Arrays.{from_array-to_array}
use libnrm.Bitmap.Count.{count_from, indices_from, to_array_lem}

abbrev empty_map : Bitmap
empty_map = reset (record { mask = [] })

-- indices 5 and 70
abbrev two_bits : Bitmap
two_bits = after_set (after_set empty_map 5) 70

two_bits-IsValid : IsValid two_bits
two_bits-IsValid =
    after_set-IsValid (after_set empty_map 5) 70
      (after_set-IsValid empty_map 5 (reset-IsValid (record { mask = [] })))

read_array : from_array two_bits (pos 1 ∷ negsuc 0 ∷ pos 2048 ∷ []) ≡ after_set empty_map 1
unfolding from_array after_set set_bit set_all or_bit reset
read_array = refl

isset-set_bit_example :
    ((set_bit (some two_bits) 7).0 ≡ (if ltb 7 2048 then pos 0 else negsuc 0))
    × (isset (set_bit (some two_bits) 7).1 70
        ≡ (if ltb 7 2048 && 7 == 70 then pos 1 else isset (some two_bits) 70))
    × (isset (set_bit (some two_bits) 7).1 7 ≡ (if ltb 7 2048 then pos 1 else negsuc 0))
    × IsValid (after_set two_bits 7)
isset-set_bit_example = isset-set_bit two_bits 7 70 two_bits-IsValid

to_array_lem_example :
    to_array two_bits
    ≡ (count_from 0 2048 (test_bit two_bits), indices_from 0 2048 (test_bit two_bits))
to_array_lem_example = to_array_lem two_bits

from_array-to_array_example : from_array empty_map (map pos (to_array two_bits).1) ≡ two_bits
from_array-to_array_example = from_array-to_array two_bits empty_map two_bits-IsValid
