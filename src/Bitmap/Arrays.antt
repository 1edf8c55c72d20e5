-- ===== src/Bitmap/Arrays.antt =====
-- nrm_bitmap_from_array, and its round trips with nrm_bitmap_to_array.
use libnrm.Prelude.{
  ℕ, zero, suc, ◌+◌, ◌*◌, ◌/◌, ◌%◌, ◌≤◌, ◌<◌, ◌≡◌, refl, sym, ap, ap₂, ◌∙◌, Bool, true, false, not,
  ◌||◌, ◌&&◌, List, [], ◌∷◌, map, arith, ltb, leb, ◌==◌, get_or, length, Bool-cases, inl, inr,
}
use libnrm.Prelude.Int.{ℤ, pos}
use libnrm.Prelude.Bits.{testbit, testbit-le-one, eq_of_testbits}
use libnrm.Bitmap.{Bitmap, test_bit, after_set, set_all, from_array, to_array, to_unsigned, reset}
use libnrm.Bitmap.Membership.{
  IsValid, test_bit-testbit, test_bit-after_set, after_set-IsValid, reset-IsValid, test_bit-reset,
}
use libnrm.Bitmap.Count.{indices_from, to_array_lem}

-- Whether an array names the index `j`: an int32_t counts as the unsigned int of its bit pattern,
-- and what is then 2048 or more names nothing.
pub names : ℕ → List ℤ → Bool
names j [] = false
names j (x ∷ xs) = (ltb (to_unsigned x) 2048 && to_unsigned x == j) || names j xs

pub set_all-IsValid : (xs : List ℤ) (m : Bitmap) → IsValid m → IsValid (set_all m xs)
unfolding set_all
set_all-IsValid [] m v = v
set_all-IsValid (x ∷ xs) m v =
    set_all-IsValid xs (after_set m (to_unsigned x)) (after_set-IsValid m _ v)

regroup : (a b c : Bool) → a || (b || c) ≡ (b || a) || c
regroup true true c = refl
regroup true false c = refl
regroup false true c = refl
regroup false false c = refl

test_bit-set_all :
    (xs : List ℤ) (m : Bitmap) (j : ℕ)
    → IsValid m
    → test_bit (set_all m xs) j ≡ names j xs || test_bit m j
unfolding set_all names
test_bit-set_all [] m j v = refl
test_bit-set_all (x ∷ xs) m j v =
    test_bit-set_all xs (after_set m (to_unsigned x)) j (after_set-IsValid m _ v)
    ∙ ap (λ b. names j xs || b) (test_bit-after_set m (to_unsigned x) j v)
    ∙ regroup (names j xs) _ (test_bit m j)

or-false : (b : Bool) → b || false ≡ b
or-false true = refl
or-false false = refl

-- nrm_bitmap_from_array forgets the old contents: it gives a well-formed bitmap with exactly the
-- indices on that the array names.
pub from_array_lem :
    (m : Bitmap) (xs : List ℤ)
    → IsValid (from_array m xs) × ((j : ℕ) → test_bit (from_array m xs) j ≡ names j xs)
unfolding from_array
from_array_lem m xs = (
  set_all-IsValid xs (reset m) (reset-IsValid m),
  λ j.
      test_bit-set_all xs (reset m) j (reset-IsValid m)
      ∙ ap (λ b. names j xs || b) (test_bit-reset m j)
      ∙ or-false (names j xs),
)

-- The array of an index range names its indices.
names-indices :
    (p : ℕ → Bool) (r i j : ℕ)
    → i + r ≤ 2048
    → names j (map pos (indices_from i r p)) ≡ leb i j && ltb j (i + r) && p j
unfolding names indices_from
names-indices p zero i j h = ground arith
names-indices p (suc r) i j h = elim (Bool-cases (i == j)) [
  | inl e ↦ ground (arith, names-indices p r (i + 1) j, ap p (same e))
  | inr e ↦ ground (arith, names-indices p r (i + 1) j)
]
  where
    same : (i == j) ≡ true → i ≡ j
    same e = ground arith

get_or_ext :
    (xs ys : List ℕ) → length xs ≡ length ys → ((n : ℕ) → get_or xs n 0 ≡ get_or ys n 0) → xs ≡ ys
get_or_ext [] [] h e = refl
get_or_ext [] (y ∷ ys) h e = absurd (omega arith)
get_or_ext (x ∷ xs) [] h e = absurd (omega arith)
get_or_ext (x ∷ xs) (y ∷ ys) h e = ap₂ ◌∷◌ (e 0) (get_or_ext xs ys (omega arith) (λ n. e (suc n)))

same_bit : (a b : ℕ) → a ≤ 1 → b ≤ 1 → not (a == 0) ≡ not (b == 0) → a ≡ b
same_bit a b ha hb h = ground arith

get_or_beyond : (xs : List ℕ) (n : ℕ) → length xs ≤ n → get_or xs n 0 ≡ 0
get_or_beyond [] n h = refl
get_or_beyond (x ∷ xs) zero h = absurd (omega arith)
get_or_beyond (x ∷ xs) (suc n) h = get_or_beyond xs n (omega arith)

-- A well-formed bitmap is known by the bits below 2048.
module _ (a b : Bitmap) (va : IsValid a) (vb : IsValid b)
    (same : (j : ℕ) → j < 2048 → test_bit a j ≡ test_bit b j) where
  same_word_bit :
      (n i : ℕ) → n < 32 → i < 64 → testbit (get_or a.mask n 0) i ≡ testbit (get_or b.mask n 0) i
  same_word_bit n i hn hi =
      same_bit _ _ (testbit-le-one (get_or a.mask n 0) i) (testbit-le-one (get_or b.mask n 0) i)
        (sym (at a) ∙ same (n * 64 + i) (omega arith) ∙ at b)
    where
      word : (n * 64 + i) / 64 ≡ n
      word = omega arith

      bit : (n * 64 + i) % 64 ≡ i
      bit = omega arith

      at : (m : Bitmap) → test_bit m (n * 64 + i) ≡ not (testbit (get_or m.mask n 0) i == 0)
      at m =
          test_bit-testbit m (n * 64 + i)
          ∙ ap₂ (λ k l. not (testbit (get_or m.mask k 0) l == 0)) word bit

  same_words : (n : ℕ) → get_or a.mask n 0 ≡ get_or b.mask n 0
  same_words n = elim (Bool-cases (ltb n 32)) [
    | inl e ↦
        eq_of_testbits 64 _ _ (va.words n) (vb.words n)
          (λ i hi. same_word_bit n i (ground arith) hi)
    | inr e ↦
        get_or_beyond a.mask n (ground (arith, va.sized))
        ∙ sym (get_or_beyond b.mask n (ground (arith, vb.sized)))
  ]

  pub Bitmap_ext : a ≡ b
  Bitmap_ext =
      ap (λ l. record { mask = l }) (get_or_ext a.mask b.mask (va.sized ∙ sym vb.sized) same_words)

-- Writing a well-formed bitmap to an array and reading it back, into whatever bitmap, gives it
-- again.
pub from_array-to_array : (m old : Bitmap) → IsValid m → from_array old (map pos (to_array m).1) ≡ m
from_array-to_array m old v = Bitmap_ext _ m (from_array_lem old items).0 v (λ j h.
    (from_array_lem old items).1 j
    ∙ ap (λ l. names j (map pos l.1)) (to_array_lem m)
    ∙ names-indices (test_bit m) 2048 0 j (omega arith)
    ∙ ground arith)
  where
    items : List ℤ
    items = map pos (to_array m).1
