-- ===== src/Ext/Qsort.antt =====
-- libc's `qsort`, as `utarray_sort` calls it on an array.
use libnrm.Prelude.{◌⊎◌, List, [], ◌∷◌}
use libnrm.Prelude.Int.{ℤ, pos, ◌≤ℤ◌}
use libnrm.Ext.Utarray.{Utarray}
use mathlib.Core.List.{Perm}

-- `cmp a b <= 0`: a may stand before b.
abbrev pub Before : {A : Type 0} → (A → A → ℤ) → A → A → Type 0
Before cmp a b = cmp a b ≤ℤ pos 0

pub record IsOrdering (A : Type 0) (cmp : A → A → ℤ) : Type 0 where
  pub total : (a b : A) → Before cmp a b ⊎ Before cmp b a
  pub trans : (a b c : A) → Before cmp a b → Before cmp b c → Before cmp a c

-- Each element may stand before those that follow it.
abbrev pub AllAfter : {A : Type 0} → (A → A → ℤ) → A → List A → Type 0
AllAfter cmp a [] = Unit {0}
AllAfter cmp a (b ∷ l) = Before cmp a b × AllAfter cmp a l

abbrev pub IsSorted : {A : Type 0} → (A → A → ℤ) → List A → Type 0
IsSorted cmp [] = Unit {0}
IsSorted cmp (a ∷ l) = AllAfter cmp a l × IsSorted cmp l

pub record Qsort (ua : Utarray) : Type 1 where
  pub sort : (A : Type 0) → (A → A → ℤ) → ua.Arr A → ua.Arr A
  pub sort-perm :
      (A : Type 0) (cmp : A → A → ℤ) (a : ua.Arr A)
      → Perm (ua.contents A (sort A cmp a)) (ua.contents A a)
  pub sort-IsSorted :
      (A : Type 0) (cmp : A → A → ℤ) (a : ua.Arr A)
      → IsOrdering A cmp
      → IsSorted cmp (ua.contents A (sort A cmp a))
