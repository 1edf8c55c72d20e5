-- ===== src/Vector/Laws.antt =====
-- The operations of utils/vectors.c on the list of a vector's elements.
use libnrm.Prelude.{
  ℕ, zero, suc, ◌+◌, ◌≤◌, ◌≡◌, refl, sym, ap, ◌∙◌, Option, none, some, List, [], ◌∷◌, ◌++◌, arith,
  length, length-append, get_elem?, take, drop,
}
use mathlib.Core.List.{append_assoc}
use libnrm.Prelude.Int.{ℤ, pos}
use libnrm.Error.{success, failure, enomem, edom}
use libnrm.Ext.Utarray.{Utarray, Memory}
use libnrm.Vector.{
  create, copy, get, Ptr, Vector, append_one, push_back, pop_back, back, take_at, elements, iterate,
  find, find_from,
}

module _ {ℓ} {A : Type ℓ} where
  pub get_elem?-length : (xs ys : List A) (y : A) → get_elem? (xs ++ y ∷ ys) (length xs) ≡ some y
  get_elem?-length [] ys y = refl
  get_elem?-length (x ∷ xs) ys y = get_elem?-length xs ys y

  get_elem?-end : (xs : List A) (j : ℕ) → length xs ≤ j → get_elem? xs j ≡ none
  get_elem?-end [] j h = refl
  get_elem?-end (x ∷ xs) zero h = absurd (omega arith)
  get_elem?-end (x ∷ xs) (suc j) h = get_elem?-end xs j (omega arith)

  get_elem?-inside : (xs : List A) (i : ℕ) (x : A) → get_elem? xs i ≡ some x → i + 1 ≤ length xs
  get_elem?-inside [] i x e = absurd (ground arith)
  get_elem?-inside (y ∷ xs) zero x e = omega arith
  get_elem?-inside (y ∷ xs) (suc i) x e = omega (arith, get_elem?-inside xs i x e)

module _ {A K : Type 0} where
  -- The position of the first element that matches, counted from `j`.
  pub first_match : ℕ → K → (K → A → ℤ) → List A → Option ℕ
  first_match j k comp [] = none
  first_match j k comp (x ∷ xs) =
      let rest = first_match (j + 1) k comp xs in elim (comp k x) [ pos zero ↦ some j | _ ↦ rest ]

module _ (ua : Utarray) where
  abbrev pub list_of : {A : Type 0} → Vector ua A → List A
  list_of {A} v = ua.contents A v.array

  -- nrm_vector_get on an element that is there.
  pub get_lem :
      {A : Type 0} (v : Vector ua A) (j : ℕ) (x : A)
      → ua.eltptr A v.array j ≡ some x
      → get ua (some v) j (some none) ≡ (success, some (some x))
  unfolding get
  get_lem v j x e = rw (e, get) refl

  module _ {A : Type 0} (v : Vector ua A) where
    pub at_head :
        (xs ys : List A) (y : A) (j : ℕ)
        → list_of v ≡ xs ++ y ∷ ys
        → j ≡ length xs
        → ua.eltptr A v.array j ≡ some y
    at_head xs ys y j e h = rw (ua.eltptr-contents A v.array j, e, h) (get_elem?-length xs ys y)

    iterate_lem :
        (ys xs : List A) (j : ℕ)
        → list_of v ≡ xs ++ ys
        → j ≡ length xs
        → iterate ua (length ys) j v ≡ ys
    unfolding iterate
    iterate_lem [] xs j e h = refl
    iterate_lem (y ∷ ys) xs j e h = rw (at_head xs ys y j e h) (
        ap (λ l. y ∷ l)
          (iterate_lem ys (xs ++ y ∷ []) (j + 1) (e ∙ sym (append_assoc xs (y ∷ []) ys))
            (omega (arith, length-append xs (y ∷ [])))))

    -- An iteration hands out the elements in order.
    pub elements_lem : elements ua v ≡ list_of v
    unfolding elements
    elements_lem = rw (ua.len-contents A v.array) (iterate_lem (list_of v) [] 0 refl refl)

    find_from_lem :
        {K : Type 0} (k : K) (comp : K → A → ℤ) (ys xs : List A) (j : ℕ)
        → list_of v ≡ xs ++ ys
        → j ≡ length xs
        → find_from ua (length ys) j v k comp ≡ first_match j k comp ys
    unfolding find_from first_match
    find_from_lem k comp [] xs j e h = refl
    find_from_lem k comp (y ∷ ys) xs j e h = rw (at_head xs ys y j e h) (
        ground (
          arith,
          find_from_lem k comp ys (xs ++ y ∷ []) (j + 1) (e ∙ sym (append_assoc xs (y ∷ []) ys))
              (omega (arith, length-append xs (y ∷ []))),
        ))

    -- nrm_vector_find returns the first position whose element compares equal to the key; with
    -- none it fails and leaves the location alone.
    pub find_lem :
        {K : Type 0} (k : K) (comp : K → A → ℤ) (at : ℕ)
        → find ua (some v) (some k) (some comp) at
          ≡ elim (first_match 0 k comp (list_of v)) [ none ↦ (failure, at) | some j ↦ (success, j) ]
    unfolding find
    find_lem k comp at =
        rw (ua.len-contents A v.array, find_from_lem k comp (list_of v) [] 0 refl refl, find)

    -- With memory left a push succeeds and adds the element at the end.
    pub append_one_lem :
        (m : Memory ua) (x : A)
        → ((append_one ua v x).0 ≡ success) × (list_of (append_one ua v x).1 ≡ list_of v ++ x ∷ [])
    unfolding append_one
    append_one_lem m x =
        let (b, e) = m.push_ok A v.array x in (rw e, rw e (ua.contents-push_back A v.array b x e))

    -- A failed push is NRM_ENOMEM and changes nothing.
    pub append_one_full :
        (x : A) → ua.push_back A v.array x ≡ none → append_one ua v x ≡ (enomem, v)
    unfolding append_one
    append_one_full x e = rw e

    pub back_append : (xs : List A) (x : A) → list_of v ≡ xs ++ x ∷ [] → back ua v ≡ some x
    unfolding back
    back_append xs x e =
        rw (ua.len-contents A v.array, e, length-append xs (x ∷ []), one, back)
          (at_head xs [] x (length xs) e refl)
      where
        one : length xs + 1 ≡ suc (length xs)
        one = omega arith

    take_at_result :
        (i : ℕ) (old : A) (o : Option A)
        → get_elem? (list_of v) i ≡ o
        → (w : Vector ua A) × (take_at ua (some v) i (some old)
            ≡ elim o [ none ↦ (edom, some w, some old) | some x ↦ (success, some w, some x) ])
          × (list_of w ≡ elim o [
            | none ↦ list_of v
            | some x ↦ take i (list_of v) ++ drop (i + 1) (list_of v)
          ])
    unfolding take_at
    take_at_result i old none e = (v, rw (ua.eltptr-contents A v.array i, e, take_at) refl, refl)
    take_at_result i old (some x) e = (
      record v { array = ua.erase A v.array i 1 },
      rw (ua.eltptr-contents A v.array i, e, take_at) refl,
      ua.contents-erase A v.array i 1 (get_elem?-inside (list_of v) i x e),
    )

    -- nrm_vector_take, on every position: where there is an element it returns that and closes the
    -- gap; past the end it returns NRM_EDOM and changes nothing.
    pub take_at_lem :
        (i : ℕ) (old : A)
        → (w : Vector ua A) × (take_at ua (some v) i (some old) ≡ elim (get_elem? (list_of v) i) [
          | none ↦ (edom, some w, some old)
          | some x ↦ (success, some w, some x)
        ])
          × (list_of w ≡ elim (get_elem? (list_of v) i) [
            | none ↦ list_of v
            | some x ↦ take i (list_of v) ++ drop (i + 1) (list_of v)
          ])
    take_at_lem i old = take_at_result i old (get_elem? (list_of v) i) refl

  -- nrm_vector_pop_back undoes nrm_vector_push_back: it returns the element pushed and leaves the
  -- elements that were there.
  pub pop_back-push_back :
      {A : Type 0} (m : Memory ua) (v : Vector ua A) (x old : A)
      → (w : Vector ua A) × (pop_back ua (push_back ua (some v) (some x)).1 (some old)
          ≡ (success, some w, some x))
        × (list_of w ≡ list_of v)
  unfolding push_back pop_back
  pop_back-push_back {A} m v x old =
      let v' = (append_one ua v x).1 in
      let e = (append_one_lem v m x).1 in
      (
        record v' { array = ua.pop_back A v'.array },
        rw (back_append v' (list_of v) x e, pop_back),
        ua.contents-pop_back A v'.array (list_of v) x e,
      )

  -- nrm_vector_copy, with memory left, makes a vector of its own with the same elements.
  pub copy_lem :
      {A : Type 0} (m : Memory ua) (v : Vector ua A) (old : Ptr (Vector ua A)) (n : ℕ)
      → v.sz ≡ suc n
      → (w : Vector ua A) × (copy ua (some old) (some v) ≡ (success, some (some w)))
        × (list_of w ≡ list_of v)
  unfolding copy create
  copy_lem {A} m v old n sized =
      let (fresh, made) = m.new_ok A in
      let (both, joined) = m.concat_ok A fresh v.array in
      (
        record { array = both; sz = suc n },
        rw (sized, copy, create, made, joined) refl,
        ua.contents-concat A fresh v.array both joined
            ∙ ap (λ l. l ++ list_of v) (ua.contents-new A fresh made),
      )

-- nrm_vector_create, with memory left, makes an empty vector.
pub create_lem :
    (ua : Utarray) (m : Memory ua) {A : Type 0}
    → (v : Vector ua A) × (create ua (some none) 8 ≡ (success, some (some v))) × (list_of ua v ≡ [])
unfolding create
create_lem ua m {A} =
    let (a, e) = m.new_ok A in
    (record { array = a; sz = 8 }, rw (e, create) refl, ua.contents-new A a e)
