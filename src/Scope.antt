-- ===== src/Scope.antt =====
-- src/utils/scopes.c: a name and three bitmaps, of CPUs, NUMA nodes and GPUs.
pub mod Laws
pub mod Tests
use libnrm.Prelude.{ℕ, zero, suc, ◌+◌, none, some, List, [], ◌∷◌, get_or, set, if◌then◌else◌}
use libnrm.Prelude.Int.{ℤ, pos}
use libnrm.Prelude.Bytes.{Bytes}
use libnrm.Bitmap
use libnrm.Bitmap.{Bitmap}

-- NRM_SCOPE_TYPE_CPU, NRM_SCOPE_TYPE_NUMA and NRM_SCOPE_TYPE_GPU
abbrev pub type_cpu : ℕ
type_cpu = 0

abbrev pub type_numa : ℕ
type_numa = 1

abbrev pub type_gpu : ℕ
type_gpu = 2

-- struct nrm_scope; the maps are the three of NRM_SCOPE_TYPE_MAX
pub record Scope : Type 0 where
  pub uuid : Bytes
  pub maps : List Bitmap

-- a zeroed map, as `calloc` makes it
abbrev pub zero_map : Bitmap
zero_map = Bitmap.reset (record { mask = [] })

-- nrm_scope_create
unfoldable pub create : Bytes → Scope
create name = record { uuid = name; maps = zero_map ∷ zero_map ∷ zero_map ∷ [] }

abbrev pub map_of : Scope → ℕ → Bitmap
map_of s type = get_or s.maps type zero_map

-- nrm_scope_add and nrm_scope_add_atomic: the code of nrm_bitmap_set on the map
unfoldable pub add : Scope → ℕ → ℕ → ℤ × Scope
add s type num =
    let (code, m) = Bitmap.set_bit (some (map_of s type)) num in
    (code, elim m [ none ↦ s | some m' ↦ record s { maps = set s.maps type m' } ])

unfoldable pub add_atomic : Scope → ℕ → ℕ → ℤ × Scope
add_atomic s type num =
    let (code, m) = Bitmap.set_bit_atomic (some (map_of s type)) num in
    (code, elim m [ none ↦ s | some m' ↦ record s { maps = set s.maps type m' } ])

-- nrm_scope_length
unfoldable pub length_of : Scope → ℕ → ℕ
length_of s type = Bitmap.nset_of (map_of s type)

-- nrm_scope_dup
unfoldable pub dup : Scope → Scope
dup s =
    let fresh = create s.uuid in
    record {
      uuid = fresh.uuid;
      maps =
          Bitmap.copy (map_of fresh 0) (map_of s 0)
          ∷ Bitmap.copy (map_of fresh 1) (map_of s 1)
          ∷ Bitmap.copy (map_of fresh 2) (map_of s 2)
          ∷ [];
    }

-- nrm_scope_cmp and nrm_bitmap_cmp, with libc's `memcmp`
module _ (memcmp : List ℕ → List ℕ → ℤ) where
  unfoldable pub bitmap_cmp : Bitmap → Bitmap → ℤ
  bitmap_cmp one two = memcmp one.mask two.mask

  unfoldable pub cmp_from : ℕ → ℕ → Scope → Scope → ℤ
  cmp_from zero i one two = pos 0
  cmp_from (suc rounds) i one two =
      let rest = cmp_from rounds (i + 1) one two in
      if Bitmap.nonzero (bitmap_cmp (map_of one i) (map_of two i)) then pos 1 else rest

  unfoldable pub cmp : Scope → Scope → ℤ
  unfolding cmp_from bitmap_cmp
  cmp one two = cmp_from 3 0 one two

-- nrm_scope_threadshared and nrm_scope_threadprivate, with the CPU and the node that `getcpu` names
unfoldable pub threadshared : Scope → ℕ → ℕ → Scope
unfolding add_atomic
threadshared s cpu node = (add_atomic (add_atomic s type_cpu cpu).1 type_numa node).1

unfoldable pub threadprivate : Scope → ℕ → ℕ → Scope
unfolding add
threadprivate s cpu node = (add (add s type_cpu cpu).1 type_numa node).1
