-- ===== src/Vector/Sorting.antt =====
-- nrm_vector_sort and nrm_vector_sort_double_cmp of src/utils/vectors.c.
use libnrm.Prelude.{
  ◌≡◌, refl, false, none, some, List, [], ◌∷◌, if◌then◌else◌, arith, inl, inr, Bool-cases,
}
use mathlib.Core.List.{Perm}
use libnrm.Prelude.Int.{ℤ, pos, negsuc}
use libnrm.Error.{ErrorCode, success, einval}
use libnrm.Ext.Utarray.{Utarray}
use libnrm.Ext.Qsort.{Qsort, IsOrdering, IsSorted, AllAfter, Before}
use libnrm.Ext.Doubles
use libnrm.Ext.Doubles.{Doubles}
use libnrm.Vector.{Vector, Ptr}
use libnrm.Vector.Laws.{list_of}

-- nrm_vector_sort_double_cmp
unfoldable pub sort_double_cmp : (fp : Doubles) → fp.Double → fp.Double → ℤ
sort_double_cmp fp d1 d2 = if fp.lt d1 d2 then negsuc 0 else if fp.lt d2 d1 then pos 1 else pos 0

-- nrm_vector_sort
module _ (ua : Utarray) (qs : Qsort ua) {A : Type 0} where
  unfoldable pub sort : Ptr (Vector ua A) → Ptr (A → A → ℤ) → ErrorCode × Ptr (Vector ua A)
  sort none comp = (einval, none)
  sort (some v) none = (einval, some v)
  sort (some v) (some comp) = (success, some (record v { array = qs.sort A comp v.array }))

Before-iff : (fp : Doubles) (a b : fp.Double) → Before (sort_double_cmp fp) a b → fp.lt b a ≡ false
unfolding sort_double_cmp
Before-iff fp a b h = elim (Bool-cases (fp.lt b a)) [
  | inl e ↦ absurd (ground (arith, fp.lt_trans a b a, fp.lt_irrefl a))
  | inr e ↦ e
]

not_after : (fp : Doubles) (a b : fp.Double) → fp.lt b a ≡ false → Before (sort_double_cmp fp) a b
unfolding sort_double_cmp
not_after fp a b h = ground arith

-- nrm_vector_sort_double_cmp orders numbers.
pub sort_double_cmp-IsOrdering : (fp : Doubles) → IsOrdering fp.Double (sort_double_cmp fp)
sort_double_cmp-IsOrdering fp = record {
  total = λ a b. elim (Bool-cases (fp.lt b a)) [
    | inl e ↦ inr (not_after fp b a (Doubles.le_of_lt fp b a e))
    | inr e ↦ inl (not_after fp a b e)
  ];
  trans = λ a b c h k.
      not_after fp a c (Doubles.le_trans fp a b c (Before-iff fp a b h) (Before-iff fp b c k));
}

-- Numbers in ascending order.
abbrev pub AllAbove : (fp : Doubles) → fp.Double → List fp.Double → Type 0
AllAbove fp a [] = Unit {0}
AllAbove fp a (b ∷ l) = (fp.lt b a ≡ false) × AllAbove fp a l

abbrev pub IsAscending : (fp : Doubles) → List fp.Double → Type 0
IsAscending fp [] = Unit {0}
IsAscending fp (a ∷ l) = AllAbove fp a l × IsAscending fp l

ascending_all :
    (fp : Doubles) (a : fp.Double) (l : List fp.Double)
    → AllAfter (sort_double_cmp fp) a l
    → AllAbove fp a l
ascending_all fp a [] v = tt
ascending_all fp a (b ∷ l) v = (Before-iff fp a b v.0, ascending_all fp a l v.1)

pub ascending :
    (fp : Doubles) (l : List fp.Double) → IsSorted (sort_double_cmp fp) l → IsAscending fp l
ascending fp [] v = tt
ascending fp (a ∷ l) v = (ascending_all fp a l v.0, ascending fp l v.1)

-- Sorting a vector of numbers keeps its elements, each as often, and puts them in ascending order.
pub sort_doubles :
    (ua : Utarray) (qs : Qsort ua) (fp : Doubles) (v : Vector ua fp.Double)
    → (w : Vector ua fp.Double) × (sort ua qs (some v) (some (sort_double_cmp fp))
        ≡ (success, some w))
      × Perm (list_of ua w) (list_of ua v)
      × IsAscending fp (list_of ua w)
unfolding sort
sort_doubles ua qs fp v = (
  record v { array = qs.sort fp.Double (sort_double_cmp fp) v.array },
  refl,
  qs.sort-perm fp.Double (sort_double_cmp fp) v.array,
  ascending fp _
      (qs.sort-IsSorted fp.Double (sort_double_cmp fp) v.array (sort_double_cmp-IsOrdering fp)),
)
