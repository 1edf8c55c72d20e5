-- ===== src/Ext/Models.antt =====
-- An instance of each library that the code takes: tables as association lists, arrays as lists.
-- They show that the assumptions can be met, and run in the tests.
use libnrm.Prelude.{
  ◌+◌, ◌-◌, ◌≡◌, ◌↔◌, refl, Bool, true, false, some, List, [], ◌∷◌, ◌++◌, arith, length, get_elem?,
  take, drop, replicate, ◌==◌, ◌∙◌, ap, sym,
}
use libnrm.Prelude.Int.{ℤ, pos, negsuc}
use libnrm.Prelude.Bytes.{Bytes, bytes_eq, bytes_eq_iff}
use libnrm.Ext.Assoc.{Key, lookup, modify, without}
use libnrm.Ext.Uthash.{Uthash}
use libnrm.Ext.Utarray.{Utarray, Memory}

abbrev pub bytes_key : Key Bytes
bytes_key = record { same = bytes_eq; same_iff = bytes_eq_iff }

unfoldable pub same_ℤ : ℤ → ℤ → Bool
same_ℤ (pos a) (pos b) = a == b
same_ℤ (negsuc a) (negsuc b) = a == b
same_ℤ (pos a) (negsuc b) = false
same_ℤ (negsuc a) (pos b) = false

pub same_ℤ_iff : (a b : ℤ) → (same_ℤ a b ≡ true) ↔ (a ≡ b)
unfolding same_ℤ
same_ℤ_iff a b = (λ h. ground arith, λ h. ground arith)

abbrev pub int_key : Key ℤ
int_key = record { same = same_ℤ; same_iff = same_ℤ_iff }

abbrev pub is_nil {ℓ} : {A : Type ℓ} → List A → Bool
is_nil [] = true
is_nil (x ∷ xs) = false

pub is_nil_iff {ℓ} : {A : Type ℓ} (l : List A) → (is_nil l ≡ true) ↔ (l ≡ [])
is_nil_iff [] = (λ h. refl, λ h. refl)
is_nil_iff (x ∷ xs) = (λ h. cc, λ h. cc)

abbrev pub assoc_table : {K : Type 0} → Key K → Uthash K
assoc_table {K} k = record {
  key = k;
  Table = λ V. List (K × V);
  null = λ V. [];
  is_null = λ V t. is_nil t;
  find = λ V t j. lookup k j t;
  add = λ V t j v. t ++ (j, v) ∷ [];
  delete = λ V t j. without k j t;
  update = λ V t j f. modify k j f t;
  items = λ V t. t;
  items-null = λ V. refl;
  is_null_iff = λ V t. is_nil_iff t;
  find-items = λ V t j. refl;
  items-add = λ V t j v h. refl;
  items-delete = λ V t j. refl;
  items-update = λ V t j f. refl;
}

pub some_eq {ℓ} : {A : Type ℓ} {a b : A} → some a ≡ some b → a ≡ b
some_eq h = cc

-- all elements but the last
abbrev pub init_of {ℓ} : {A : Type ℓ} → List A → List A
init_of [] = []
init_of (x ∷ []) = []
init_of (x ∷ y ∷ l) = x ∷ init_of (y ∷ l)

pub init_of-append_one {ℓ} : {A : Type ℓ} (xs : List A) (x : A) → init_of (xs ++ x ∷ []) ≡ xs
init_of-append_one [] x = refl
init_of-append_one (y ∷ []) x = refl
init_of-append_one (y ∷ z ∷ l) x = ap (λ k. y ∷ k) (init_of-append_one (z ∷ l) x)

abbrev pub list_array : Utarray
list_array = record {
  Arr = λ A. List A;
  contents = λ A l. l;
  new = λ A. some [];
  len = λ A l. length l;
  eltptr = λ A l j. get_elem? l j;
  push_back = λ A l x. some (l ++ x ∷ []);
  pop_back = λ A l. init_of l;
  erase = λ A l p n. take p l ++ drop (p + n) l;
  clear = λ A l. [];
  resize = λ A z l n. some (take n l ++ replicate (n - length l) z);
  concat = λ A a b. some (a ++ b);
  contents-new = λ A a h. sym (some_eq h);
  len-contents = λ A a. refl;
  eltptr-contents = λ A a j. refl;
  contents-push_back = λ A a b x h. sym (some_eq h);
  contents-pop_back = λ A a xs x h. ap init_of h ∙ init_of-append_one xs x;
  contents-erase = λ A a p n h. refl;
  contents-clear = λ A a. refl;
  contents-resize = λ A z a b n h. sym (some_eq h);
  contents-concat = λ A a b c h. sym (some_eq h);
}

abbrev pub list_memory : Memory list_array
list_memory = record {
  new_ok = λ A. ([], refl);
  push_ok = λ A a x. (a ++ x ∷ [], refl);
  resize_ok = λ A z a n. (take n a ++ replicate (n - length a) z, refl);
  concat_ok = λ A a b. (a ++ b, refl);
}
