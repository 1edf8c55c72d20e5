-- ===== src/Scope/Tests.antt =====
-- The theorems of utils/scopes.c on a new scope.
use libnrm.Prelude.{ltb, if◌then◌else◌, ◌≡◌, refl, [], ◌∷◌, ◌&&◌, ◌||◌, ◌==◌, arith}
use libnrm.Prelude.Int.{pos, negsuc}
use libnrm.Bitmap.{test_bit}
use libnrm.Bitmap.Membership.{IsValid, reset-IsValid}
use libnrm.Scope.{Scope, map_of, zero_map, type_numa, add}
use libnrm.Scope.Laws.{add_lem}

abbrev place : Scope
place = record { uuid = 112 ∷ []; maps = zero_map ∷ zero_map ∷ zero_map ∷ [] }

place-IsValid : IsValid (map_of place type_numa)
place-IsValid = reset-IsValid (record { mask = [] })

add_lem_example :
    ((add place type_numa 70).0 ≡ (if ltb 70 2048 then pos 0 else negsuc 0))
    × (test_bit (map_of (add place type_numa 70).1 1) 70
        ≡ (ltb 70 2048 && ((type_numa == 1) && 70 == 70)) || test_bit (map_of place 1) 70)
add_lem_example = add_lem place type_numa 70 1 70 refl (omega arith) place-IsValid
