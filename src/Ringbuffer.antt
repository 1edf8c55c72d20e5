-- ===== src/Ringbuffer.antt =====
-- src/utils/ringbuffer.c over utringbuffer. `malloc` succeeds.
pub mod Tests
pub mod Laws
use libnrm.Prelude.{ℕ, zero, suc, Bool, true, false, Option, none, some}
use libnrm.Error.{ErrorCode, success, einval, edom}
use libnrm.Ext.Utringbuffer.{Utringbuffer}
use libnrm.Vector.{Ptr}

module _ (ur : Utringbuffer) {A : Type 0} where
  -- nrm_ringbuffer_create on a location that is there, with the size of the ring and of an element
  unfoldable pub create : ℕ → ℕ → ErrorCode × Ptr (ur.Ring A)
  create size zero = (einval, none)
  create zero (suc e) = (einval, none)
  create (suc n) (suc e) = (success, some (ur.new A (suc n)))

  -- nrm_ringbuffer_length, with what `*length` was
  unfoldable pub length_of : Ptr (ur.Ring A) → Ptr ℕ → ErrorCode × Ptr ℕ
  length_of none out = (einval, out)
  length_of (some r) none = (einval, none)
  length_of (some r) (some old) = (success, some (ur.len A r))

  -- nrm_ringbuffer_get; `*out` is a pointer to an element
  unfoldable pub get : Ptr (ur.Ring A) → ℕ → Ptr (Ptr A) → ErrorCode × Ptr (Ptr A)
  get none i out = (einval, out)
  get (some r) i none = (einval, none)
  get (some r) i (some old) = elim (ur.eltptr A r i) [
    | none ↦ (edom, some none)
    | some x ↦ (success, some (some x))
  ]

  -- nrm_ringbuffer_back
  unfoldable pub back : Ptr (ur.Ring A) → Ptr (Ptr A) → ErrorCode × Ptr (Ptr A)
  back none out = (einval, out)
  back (some r) none = (einval, none)
  back (some r) (some old) = elim (ur.back A r) [
    | none ↦ (edom, some none)
    | some x ↦ (success, some (some x))
  ]

  -- nrm_ringbuffer_push_back
  unfoldable pub push_back : Ptr (ur.Ring A) → Ptr A → ErrorCode × Ptr (ur.Ring A)
  push_back none x = (einval, none)
  push_back (some r) none = (einval, some r)
  push_back (some r) (some x) = (success, some (ur.push_back A r x))

  -- nrm_ringbuffer_isempty and nrm_ringbuffer_isfull
  unfoldable pub isempty : Ptr (ur.Ring A) → Bool
  isempty none = true
  isempty (some r) = ur.empty A r

  unfoldable pub isfull : Ptr (ur.Ring A) → Bool
  isfull none = false
  isfull (some r) = ur.full A r

  -- nrm_ringbuffer_clear
  unfoldable pub clear : Ptr (ur.Ring A) → ErrorCode × Ptr (ur.Ring A)
  clear none = (einval, none)
  clear (some r) = (success, some (ur.clear A r))
