-- ===== src/Actuator/Tests.antt =====
-- The theorems of the actuators on one with three choices, and whole numbers for `double`.
use libnrm.Prelude.{◌≡◌, refl, none, some, [], ◌∷◌}
use libnrm.Prelude.Int.{ℤ, pos}
use libnrm.Error.{success}
use mathlib.Core.List.{Perm}
use libnrm.Ext.Insertion.{insertion_sort}
use libnrm.Vector.Laws.{list_of}
use libnrm.Ext.Models.{list_array, list_memory}
use libnrm.Ext.Integers.{integers, abs}
use libnrm.Vector.{Vector}
use libnrm.Vector.Sorting.{IsAscending}
use libnrm.Actuator.{Actuator, discrete, choose, set_choices, corrected_value, validate_value}
use libnrm.Actuator.Values.{In, NoneNearer}
use libnrm.Actuator.Valid.{IsReadyFor, validate-corrected, choose_nearest, set_choices_lem}

abbrev pub choices : Vector list_array ℤ
choices = record { array = pos 10 ∷ pos 20 ∷ pos 40 ∷ []; sz = 8 }

abbrev pub dial : Actuator list_array integers
dial = record { uuid = 100 ∷ []; clientid = none; value = pos 10; kind = discrete choices }

IsAscending-choices : IsAscending integers (pos 10 ∷ pos 20 ∷ pos 40 ∷ [])
IsAscending-choices = ((refl, (refl, tt)), ((refl, tt), (tt, tt)))

ready : IsReadyFor list_array integers (pos 27) dial.kind
unfolding abs
ready = (IsAscending-choices, refl)

validate-corrected_example :
    ((corrected_value list_array integers dial (pos 27)).0 ≡ success)
    × (validate_value list_array integers dial (corrected_value list_array integers dial (pos 27)).1
        ≡ success)
validate-corrected_example = validate-corrected list_array integers dial (pos 27) ready

choose_nearest_example :
    (r : ℤ) × (choose list_array integers choices (pos 27) ≡ (success, r))
    × In r (pos 10 ∷ pos 20 ∷ pos 40 ∷ [])
    × NoneNearer list_array integers (pos 27) r (pos 10 ∷ pos 20 ∷ pos 40 ∷ [])
choose_nearest_example =
    choose_nearest list_array integers choices (pos 10) (pos 20 ∷ pos 40 ∷ []) (pos 27) refl ready.1
      refl refl

set_choices_lem_example :
    (w : Vector list_array ℤ) × (set_choices list_array integers insertion_sort
        (some dial)
        (some (pos 7 ∷ pos 3 ∷ []))
      ≡ (success, some (record dial { kind = discrete w })))
    × Perm (list_of list_array w) (pos 7 ∷ pos 3 ∷ [])
    × IsAscending integers (list_of list_array w)
set_choices_lem_example =
    set_choices_lem list_array integers insertion_sort list_memory dial choices (pos 7) (pos 3 ∷ [])
      refl
