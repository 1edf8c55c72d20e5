-- ===== src/Hash.antt =====
-- src/utils/hashes.c: a map from byte strings to pointers over uthash. The tables own nothing but
-- their elements; a value is what its pointer points to. `malloc` of an element succeeds.
pub mod Tests
pub mod Laws
use libnrm.Prelude.{◌≡◌, Bool, true, false, Option, none, some, List, map, if◌then◌else◌, length, ℕ}
use libnrm.Prelude.Bytes.{Bytes}
use libnrm.Error.{ErrorCode, success, failure, einval, enotfound}
use libnrm.Ext.Uthash.{Uthash}

-- What nrm_hash_remove leaves in `*ptr`: the location untouched, NULL, or the address of the
-- element itself, which it has freed.
pub data Removed : Type 0 where
  untouched null_pointer freed_element : Removed

module _ (uh : Uthash Bytes) {V : Type 0} where
  -- nrm_hash_add
  unfoldable pub add : uh.Table V → Bytes → V → ErrorCode × uh.Table V
  add t uuid ptr = elim (uh.find V t uuid) [
    | some old ↦ (failure, t)
    | none ↦ (success, uh.add V t uuid ptr)
  ]

  -- nrm_hash_find; the result's second part is what `*ptr` is set to, or `none` where it is left
  -- as it was. The code tests its own argument `ptr` for NULL too, which no caller passes.
  unfoldable pub find : uh.Table V → Option Bytes → ErrorCode × Option V
  find t none = (einval, none)
  find t (some uuid) =
      if uh.is_null V t
      then (einval, none)
      else elim (uh.find V t uuid) [ none ↦ (enotfound, none) | some v ↦ (success, some v) ]

  -- nrm_hash_remove. It hands `&uuid`, the address of its own parameter, to HASH_FIND: the key it
  -- looks up is `stacked`, the bytes that lie in memory from that address on.
  unfoldable pub remove : uh.Table V → Option Bytes → Bytes → ErrorCode × uh.Table V × Removed
  remove t none stacked = (einval, t, untouched)
  remove t (some uuid) stacked =
      if uh.is_null V t then (einval, t, untouched) else elim (uh.find V t stacked) [
        | none ↦ (success, t, null_pointer)
        | some v ↦ (success, uh.delete V t stacked, freed_element)
      ]

  -- nrm_hash_destroy: the elements go, the head becomes NULL
  unfoldable pub destroy : uh.Table V → uh.Table V
  destroy t = uh.null V

  -- nrm_hash_size, HASH_COUNT of the table, with what `*len` was
  unfoldable pub size : uh.Table V → ℕ → ErrorCode × ℕ
  size t old = if uh.is_null V t then (einval, old) else (success, length (uh.items V t))

  -- nrm_hash_foreach with nrm_hash_iterator_get and nrm_hash_iterator_get_uuid
  unfoldable pub pointers : uh.Table V → List V
  pointers t = map (λ e. e.1) (uh.items V t)

  unfoldable pub uuids : uh.Table V → List Bytes
  uuids t = map (λ e. e.0) (uh.items V t)
