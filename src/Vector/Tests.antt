-- ===== src/Vector/Tests.antt =====
-- The theorems of utils/vectors.c on short vectors.
use libnrm.Prelude.{◌≡◌, some, [], ◌∷◌}
use mathlib.Core.List.{Perm}
use libnrm.Prelude.Int.{ℤ, pos}
use libnrm.Error.{success}
use libnrm.Ext.Models.{list_array}
use libnrm.Ext.Insertion.{insertion_sort}
use libnrm.Ext.Integers.{integers}
use libnrm.Vector.{Vector}
use libnrm.Vector.Laws.{list_of}
use libnrm.Vector.Sorting.{sort, sort_double_cmp, sort_doubles, IsAscending}

abbrev three : Vector list_array ℤ
three = record { array = pos 7 ∷ pos 3 ∷ pos 5 ∷ []; sz = 8 }

sort_doubles_example :
    (w : Vector list_array ℤ) × (sort list_array insertion_sort
        (some three)
        (some (sort_double_cmp integers))
      ≡ (success, some w))
    × Perm (list_of list_array w) (list_of list_array three)
    × IsAscending integers (list_of list_array w)
sort_doubles_example = sort_doubles list_array insertion_sort integers three
