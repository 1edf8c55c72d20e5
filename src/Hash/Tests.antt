-- ===== src/Hash/Tests.antt =====
-- The theorems of utils/hashes.c on a table with one key.
use libnrm.Prelude.{ℕ, ◌≡◌, none, some, [], ◌∷◌, if◌then◌else◌}
use libnrm.Prelude.Bytes.{Bytes}
use libnrm.Error.{success, failure}
use libnrm.Ext.Uthash.{Uthash}
use libnrm.Ext.Models.{assoc_table, bytes_key}
use libnrm.Hash.{add, find}
use libnrm.Hash.Laws.{find-add_lem}

abbrev table : Uthash Bytes
table = assoc_table bytes_key

abbrev one_key : table.Table ℕ
one_key = (97 ∷ [], 5) ∷ []

find-add_lem_example :
    ((add table one_key (98 ∷ []) 6).0
      ≡ elim (find table one_key (some (98 ∷ []))).1 [ none ↦ success | some w ↦ failure ])
    × ((find table (add table one_key (98 ∷ []) 6).1 (some (97 ∷ []))).1 ≡ (
        if table.key.same (98 ∷ []) (97 ∷ [])
        then elim (find table one_key (some (98 ∷ []))).1 [ none ↦ some 6 | some w ↦ some w ]
        else (find table one_key (some (97 ∷ []))).1))
find-add_lem_example = find-add_lem table one_key (98 ∷ []) (97 ∷ []) 6
