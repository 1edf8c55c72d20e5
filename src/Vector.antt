-- ===== src/Vector.antt =====
-- src/utils/vectors.c: a vector of elements over utarray. A pointer is `Ptr`, with `none` for NULL;
-- a function that writes through its arguments returns what they then point to, after its code.
pub mod Tests
pub mod Laws
pub mod Sorting
use libnrm.Prelude.{ℕ, zero, suc, ◌+◌, Option, none, some, List, [], ◌∷◌}
use libnrm.Prelude.Int.{ℤ, pos}
use libnrm.Error.{ErrorCode, success, failure, enomem, einval, edom}
use libnrm.Ext.Utarray.{Utarray}

abbrev pub Ptr : Type 0 → Type 0
Ptr A = Option A

module _ (ua : Utarray) where
  -- struct nrm_vector_s: the array, and the element size of `icd`
  pub record Vector (A : Type 0) : Type 0 where
    pub array : ua.Arr A
    pub sz : ℕ

  module _ {A : Type 0} where
    -- nrm_vector_create, for a location of a vector pointer; `malloc` of the header succeeds
    unfoldable pub create : Ptr (Ptr (Vector A)) → ℕ → ErrorCode × Ptr (Ptr (Vector A))
    create none n = (einval, none)
    create (some old) zero = (einval, some old)
    create (some old) (suc n) = elim (ua.new A) [
      | none ↦ (enomem, some old)
      | some a ↦ (success, some (some (record { array = a; sz = suc n })))
    ]

    -- nrm_vector_destroy
    unfoldable pub destroy : Ptr (Ptr (Vector A)) → Ptr (Ptr (Vector A))
    destroy none = none
    destroy (some v) = some none

    -- what `array` becomes, or the old vector and NRM_ENOMEM
    unfoldable pub store : Vector A → Option (ua.Arr A) → ErrorCode × Vector A
    store v none = (enomem, v)
    store v (some a) = (success, record v { array = a })

    -- nrm_vector_copy
    unfoldable pub copy : Ptr (Ptr (Vector A)) → Ptr (Vector A) → ErrorCode × Ptr (Ptr (Vector A))
    unfolding create
    copy none src = (einval, none)
    copy (some old) none = (einval, some old)
    copy (some old) (some src) =
        let (c, made) = create (some none) src.sz in
        elim made [
          | none ↦ (c, some old)
          | some w ↦ elim w [
            | none ↦ (c, some old)
            | some v ↦ elim (ua.concat A v.array src.array) [
              | none ↦ (enomem, some old)
              | some a ↦ (success, some (some (record v { array = a })))
            ]
          ]
        ]

    -- nrm_vector_resize; `zeroed` is the element of zero bytes
    unfoldable pub resize : A → Ptr (Vector A) → ℕ → ErrorCode × Ptr (Vector A)
    unfolding store
    resize zeroed none n = (einval, none)
    resize zeroed (some v) n = let (c, v') = store v (ua.resize A zeroed v.array n) in (c, some v')

    -- nrm_vector_length
    unfoldable pub length_of : Ptr (Vector A) → Ptr ℕ → ErrorCode × Ptr ℕ
    length_of none out = (einval, out)
    length_of (some v) none = (einval, none)
    length_of (some v) (some old) = (success, some (ua.len A v.array))

    -- nrm_vector_get; `*out` is a pointer to an element
    unfoldable pub get : Ptr (Vector A) → ℕ → Ptr (Ptr A) → ErrorCode × Ptr (Ptr A)
    get none i out = (einval, out)
    get (some v) i none = (einval, none)
    get (some v) i (some old) = elim (ua.eltptr A v.array i) [
      | none ↦ (edom, some none)
      | some x ↦ (success, some (some x))
    ]

    -- nrm_vector_push_back, on a vector and an element that are there
    unfoldable pub append_one : Vector A → A → ErrorCode × Vector A
    unfolding store
    append_one v x = store v (ua.push_back A v.array x)

    -- nrm_vector_push_back
    unfoldable pub push_back : Ptr (Vector A) → Ptr A → ErrorCode × Ptr (Vector A)
    unfolding append_one
    push_back none x = (einval, none)
    push_back (some v) none = (einval, some v)
    push_back (some v) (some x) = let (c, v') = append_one v x in (c, some v')

    -- `utarray_back`: the last element, if there is one
    unfoldable pub back : Vector A → Option A
    back v = elim (ua.len A v.array) [ zero ↦ none | suc n ↦ ua.eltptr A v.array n ]

    -- nrm_vector_pop_back, with the location that the element is copied to
    unfoldable pub pop_back : Ptr (Vector A) → Ptr A → ErrorCode × Ptr (Vector A) × Ptr A
    unfolding back
    pop_back none out = (einval, none, out)
    pop_back (some v) none = (einval, some v, none)
    pop_back (some v) (some old) = elim (back v) [
      | none ↦ (edom, some v, some old)
      | some x ↦ (success, some (record v { array = ua.pop_back A v.array }), some x)
    ]

    -- nrm_vector_take: a NULL `out` only drops the element
    unfoldable pub take_at : Ptr (Vector A) → ℕ → Ptr A → ErrorCode × Ptr (Vector A) × Ptr A
    take_at none i out = (einval, none, out)
    take_at (some v) i out = elim (ua.eltptr A v.array i) [
      | none ↦ (edom, some v, out)
      | some x ↦ (
        success,
        some (record v { array = ua.erase A v.array i 1 }),
        elim out [ none ↦ none | some old ↦ some x ],
      )
    ]

    -- nrm_vector_clear
    unfoldable pub clear : Ptr (Vector A) → ErrorCode × Ptr (Vector A)
    clear none = (einval, none)
    clear (some v) = (success, some (record v { array = ua.clear A v.array }))

    -- The loop of nrm_vector_find: utarray_front and utarray_next go through the positions.
    unfoldable pub find_from : {K : Type 0} → ℕ → ℕ → Vector A → K → (K → A → ℤ) → Option ℕ
    find_from zero j v k comp = none
    find_from (suc rounds) j v k comp = elim (ua.eltptr A v.array j) [
      | none ↦ none
      | some x ↦ elim (comp k x) [ pos zero ↦ some j | _ ↦ find_from rounds (j + 1) v k comp ]
    ]

    -- nrm_vector_find, with the location that the position is written to
    unfoldable pub find :
        {K : Type 0} → Ptr (Vector A) → Ptr K → Ptr (K → A → ℤ) → ℕ → ErrorCode × ℕ
    unfolding find_from
    find none k comp at = (einval, at)
    find (some v) none comp at = (einval, at)
    find (some v) (some k) none at = (einval, at)
    find (some v) (some k) (some comp) at = elim (find_from (ua.len A v.array) 0 v k comp) [
      | none ↦ (failure, at)
      | some j ↦ (success, j)
    ]

    -- nrm_vector_foreach: the elements that an iteration hands out, front to back
    unfoldable pub iterate : ℕ → ℕ → Vector A → List A
    iterate zero j v = []
    iterate (suc rounds) j v = elim (ua.eltptr A v.array j) [
      | none ↦ []
      | some x ↦ x ∷ iterate rounds (j + 1) v
    ]

    -- the elements of a whole iteration
    unfoldable pub elements : Vector A → List A
    unfolding iterate
    elements v = iterate (ua.len A v.array) 0 v
