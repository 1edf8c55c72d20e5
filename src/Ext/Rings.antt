-- ===== src/Ext/Rings.antt =====
-- An instance of `Utringbuffer`: a capacity and a list.
use libnrm.Prelude.{
  ℕ, ◌<◌, ◌≡◌, ◌↔◌, refl, true, List, [], ◌∷◌, ◌++◌, length, get_elem?, drop, arith, ltb, ◌==◌,
  if◌then◌else◌,
}
use libnrm.Ext.Utringbuffer.{Utringbuffer, last?}

abbrev pushed {ℓ} : {A : Type ℓ} → ℕ × List A → A → ℕ × List A
pushed (n, l) x = (n, if ltb (length l) n then l ++ x ∷ [] else drop 1 l ++ x ∷ [])

pub pushed_room {ℓ} :
    {A : Type ℓ} (r : ℕ × List A) (x : A) → length r.1 < r.0 → (pushed r x).1 ≡ r.1 ++ x ∷ []
pushed_room (n, l) x h = ground arith

pub pushed_full {ℓ} :
    {A : Type ℓ} (r : ℕ × List A) (x : A) → length r.1 ≡ r.0 → (pushed r x).1 ≡ drop 1 r.1 ++ x ∷ []
pushed_full (n, l) x h = ground arith

pub equal_iff : (a b : ℕ) → ((a == b) ≡ true) ↔ (a ≡ b)
equal_iff a b = (λ h. ground arith, λ h. ground arith)

abbrev pub list_ring : Utringbuffer
list_ring = record {
  Ring = λ A. ℕ × List A;
  contents = λ A r. r.1;
  capacity = λ A r. r.0;
  new = λ A n. (n, []);
  len = λ A r. length r.1;
  eltptr = λ A r j. get_elem? r.1 j;
  back = λ A r. last? r.1;
  push_back = λ A r x. pushed r x;
  empty = λ A r. length r.1 == 0;
  full = λ A r. length r.1 == r.0;
  clear = λ A r. (r.0, []);
  contents-new = λ A n. refl;
  capacity-new = λ A n. refl;
  len-contents = λ A r. refl;
  eltptr-contents = λ A r j. refl;
  back-contents = λ A r. refl;
  capacity-push_back = λ A r x. refl;
  contents-push_room = λ A r x h. pushed_room r x h;
  contents-push_full = λ A r x h. pushed_full r x h;
  empty_iff = λ A r. equal_iff (length r.1) 0;
  full_iff = λ A r. equal_iff (length r.1) r.0;
  contents-clear = λ A r. refl;
}
