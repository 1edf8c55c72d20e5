-- ===== src/Ringbuffer/Tests.antt =====
-- The theorem of utils/ringbuffer.c on five pushes into three places.
use libnrm.Prelude.{ℕ, ◌-◌, ◌≡◌, none, some, List, [], ◌∷◌, length, get_elem?, drop}
use libnrm.Error.{success, edom}
use libnrm.Ext.Rings.{list_ring}
use libnrm.Ringbuffer.{create, get}
use libnrm.Ringbuffer.Laws.{fill, get-fill}

abbrev five : List ℕ
five = 1 ∷ 2 ∷ 3 ∷ 4 ∷ 5 ∷ []

get-fill_example :
    (r : list_ring.Ring ℕ) × (fill list_ring (create list_ring 3 8).1 five ≡ some r)
    × (list_ring.contents ℕ r ≡ drop (length five - 3) five)
    × (get list_ring (some r) 0 (some none) ≡ elim (get_elem? (drop (length five - 3) five) 0) [
      | none ↦ (edom, some none)
      | some x ↦ (success, some (some x))
    ])
get-fill_example = get-fill list_ring 2 7 five 0 none
