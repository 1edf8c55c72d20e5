-- ===== src/Ext/Utarray.antt =====
-- utarray (include/internal/utarray.h, an outside library), as utils/vectors.c uses it: `none` is a
-- jump to `utarray_error`, when memory runs out.
use libnrm.Prelude.{
  ℕ, ◌+◌, ◌-◌, ◌≤◌, ◌≡◌, Option, some, List, [], ◌∷◌, ◌++◌, length, get_elem?, take, drop,
  replicate,
}

pub record Utarray : Type 1 where
  pub Arr : Type 0 → Type 0
  -- the elements, the first one first
  pub contents : (A : Type 0) → Arr A → List A
  pub new : (A : Type 0) → Option (Arr A)
  pub len : (A : Type 0) → Arr A → ℕ
  pub eltptr : (A : Type 0) → Arr A → ℕ → Option A
  pub push_back : (A : Type 0) → Arr A → A → Option (Arr A)
  pub pop_back : (A : Type 0) → Arr A → Arr A
  pub erase : (A : Type 0) → Arr A → ℕ → ℕ → Arr A
  pub clear : (A : Type 0) → Arr A → Arr A
  -- new elements are zero bytes, here the given element
  pub resize : (A : Type 0) → A → Arr A → ℕ → Option (Arr A)
  pub concat : (A : Type 0) → Arr A → Arr A → Option (Arr A)
  pub contents-new : (A : Type 0) (a : Arr A) → new A ≡ some a → contents A a ≡ []
  pub len-contents : (A : Type 0) (a : Arr A) → len A a ≡ length (contents A a)
  pub eltptr-contents : (A : Type 0) (a : Arr A) (j : ℕ) → eltptr A a j ≡ get_elem? (contents A a) j
  pub contents-push_back :
      (A : Type 0) (a b : Arr A) (x : A)
      → push_back A a x ≡ some b
      → contents A b ≡ contents A a ++ x ∷ []
  -- called with an element in the array
  pub contents-pop_back :
      (A : Type 0) (a : Arr A) (xs : List A) (x : A)
      → contents A a ≡ xs ++ x ∷ []
      → contents A (pop_back A a) ≡ xs
  pub contents-erase :
      (A : Type 0) (a : Arr A) (pos n : ℕ)
      → pos + n ≤ length (contents A a)
      → contents A (erase A a pos n) ≡ take pos (contents A a) ++ drop (pos + n) (contents A a)
  pub contents-clear : (A : Type 0) (a : Arr A) → contents A (clear A a) ≡ []
  pub contents-resize :
      (A : Type 0) (z : A) (a b : Arr A) (n : ℕ)
      → resize A z a n ≡ some b
      → contents A b ≡ take n (contents A a) ++ replicate (n - length (contents A a)) z
  pub contents-concat :
      (A : Type 0) (a b c : Arr A)
      → concat A a b ≡ some c
      → contents A c ≡ contents A a ++ contents A b

-- Memory does not run out.
pub record Memory (ua : Utarray) : Type 1 where
  pub new_ok : (A : Type 0) → (a : ua.Arr A) × (ua.new A ≡ some a)
  pub push_ok : (A : Type 0) (a : ua.Arr A) (x : A) → (b : ua.Arr A) × (ua.push_back A a x ≡ some b)
  pub resize_ok :
      (A : Type 0) (z : A) (a : ua.Arr A) (n : ℕ) → (b : ua.Arr A) × (ua.resize A z a n ≡ some b)
  pub concat_ok : (A : Type 0) (a b : ua.Arr A) → (c : ua.Arr A) × (ua.concat A a b ≡ some c)
