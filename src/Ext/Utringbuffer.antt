-- ===== src/Ext/Utringbuffer.antt =====
-- utringbuffer (include/internal/utringbuffer.h, an outside library), as utils/ringbuffer.c uses it.
use libnrm.Prelude.{
  ℕ, zero, suc, ◌<◌, ◌≡◌, ◌↔◌, Bool, true, Option, none, List, [], ◌∷◌, ◌++◌, length, get_elem?,
  drop,
}

-- The last element of a list.
abbrev pub last? {ℓ} : {A : Type ℓ} → List A → Option A
last? l = elim (length l) [ zero ↦ none | suc n ↦ get_elem? l n ]

pub record Utringbuffer : Type 1 where
  pub Ring : Type 0 → Type 0
  -- the elements, the oldest one first
  pub contents : (A : Type 0) → Ring A → List A
  pub capacity : (A : Type 0) → Ring A → ℕ
  pub new : (A : Type 0) → ℕ → Ring A
  pub len : (A : Type 0) → Ring A → ℕ
  pub eltptr : (A : Type 0) → Ring A → ℕ → Option A
  pub back : (A : Type 0) → Ring A → Option A
  pub push_back : (A : Type 0) → Ring A → A → Ring A
  pub empty : (A : Type 0) → Ring A → Bool
  pub full : (A : Type 0) → Ring A → Bool
  pub clear : (A : Type 0) → Ring A → Ring A
  pub contents-new : (A : Type 0) (n : ℕ) → contents A (new A n) ≡ []
  pub capacity-new : (A : Type 0) (n : ℕ) → capacity A (new A n) ≡ n
  pub len-contents : (A : Type 0) (r : Ring A) → len A r ≡ length (contents A r)
  pub eltptr-contents :
      (A : Type 0) (r : Ring A) (j : ℕ) → eltptr A r j ≡ get_elem? (contents A r) j
  pub back-contents : (A : Type 0) (r : Ring A) → back A r ≡ last? (contents A r)
  pub capacity-push_back :
      (A : Type 0) (r : Ring A) (x : A) → capacity A (push_back A r x) ≡ capacity A r
  -- in a ring with room the element is added; in a full one it takes the place of the oldest
  pub contents-push_room :
      (A : Type 0) (r : Ring A) (x : A)
      → length (contents A r) < capacity A r
      → contents A (push_back A r x) ≡ contents A r ++ x ∷ []
  pub contents-push_full :
      (A : Type 0) (r : Ring A) (x : A)
      → length (contents A r) ≡ capacity A r
      → contents A (push_back A r x) ≡ drop 1 (contents A r) ++ x ∷ []
  pub empty_iff : (A : Type 0) (r : Ring A) → (empty A r ≡ true) ↔ (length (contents A r) ≡ 0)
  pub full_iff :
      (A : Type 0) (r : Ring A) → (full A r ≡ true) ↔ (length (contents A r) ≡ capacity A r)
  pub contents-clear : (A : Type 0) (r : Ring A) → contents A (clear A r) ≡ []
