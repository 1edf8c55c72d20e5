-- ===== src/Bitmap/Membership.antt =====
-- What the single-bit operations of utils/bitmaps.c do to the set of indices that are on.
use libnrm.Prelude.{
  ℕ, zero, suc, ◌/◌, ◌%◌, ◌^◌, ◌≤◌, ◌<◌, ◌≡◌, refl, ap, ◌∙◌, Bool, true, false, not, ◌||◌, ◌&&◌,
  some, List, [], ◌∷◌, arith, ltb, leb, ◌==◌, if◌then◌else◌, get_or, set, length, length-set,
  replicate, max, length-replicate, Bool-cases, inl, inr,
}
use libnrm.Prelude.Bits.{
  testbit, testbit-le-one, testbit-pow, testbit-bit_or, bit_and-pow-eq, bit_or-lt, two_pow-lt,
}
use Prim.Native.Nat.{bit_or}
use libnrm.Prelude.Int.{pos, negsuc}
use libnrm.Bitmap.{Bitmap, test_bit, or_bit, isset, set_bit, after_set, reset, nonzero}

-- 32 words, each of 64 bits.
pub record IsValid (m : Bitmap) : Type 0 where
  pub sized : length m.mask ≡ 32
  pub words : (n : ℕ) → get_or m.mask n 0 < 2 ^ 64

module _ {ℓ} {A : Type ℓ} where
  pub get_or-set :
      (xs : List A) (i j : ℕ) (v d : A)
      → i < length xs
      → get_or (set xs i v) j d ≡ (if i == j then v else get_or xs j d)
  get_or-set [] i j v d h = absurd (omega arith)
  get_or-set (x ∷ xs) zero zero v d h = refl
  get_or-set (x ∷ xs) zero (suc j) v d h = ground arith
  get_or-set (x ∷ xs) (suc i) zero v d h = ground arith
  get_or-set (x ∷ xs) (suc i) (suc j) v d h = ground (arith, get_or-set xs i j v d (omega arith))

-- The bit of index i, in its word.
pub test_bit-testbit :
    (m : Bitmap) (i : ℕ) → test_bit m i ≡ not (testbit (get_or m.mask (i / 64) 0) (i % 64) == 0)
unfolding test_bit
test_bit-testbit m i = ap not (bit_and-pow-eq (get_or m.mask (i / 64) 0) (i % 64))

max-test : (a b : ℕ) → a ≤ 1 → b ≤ 1 → not (max a b == 0) ≡ not (b == 0) || not (a == 0)
max-test zero zero ha hb = refl
max-test zero (suc b) ha hb = ground arith
max-test (suc a) zero ha hb = ground arith
max-test (suc a) (suc b) ha hb = ground arith

test-pow : (i j : ℕ) → not (testbit (2 ^ i) j == 0) ≡ (i == j)
test-pow i j = ground (arith, testbit-pow i j)

same_index : (i j : ℕ) → i / 64 ≡ j / 64 → (i % 64 == j % 64) ≡ (i == j)
same_index i j h = ground arith

other_word : (i j : ℕ) → (i / 64 == j / 64) ≡ false → (i == j) ≡ false
other_word i j h = ground arith

same_word : (i j : ℕ) → (i / 64 == j / 64) ≡ true → i / 64 ≡ j / 64
same_word i j h = ground arith

joined :
    (i j w : ℕ)
    → i / 64 ≡ j / 64
    → not (testbit (bit_or w (2 ^ (i % 64))) (j % 64) == 0)
      ≡ (i == j) || not (testbit w (j % 64) == 0)
joined i j w e = rw (testbit-bit_or w (2 ^ (i % 64)) (j % 64)) (
    max-test (testbit w (j % 64)) (testbit (2 ^ (i % 64)) (j % 64)) (testbit-le-one w (j % 64))
      (testbit-le-one (2 ^ (i % 64)) (j % 64))
    ∙ ap (λ b. b || not (testbit w (j % 64) == 0)) (test-pow (i % 64) (j % 64) ∙ same_index i j e))

-- After `or_bit m i` exactly index i is added.
pub test_bit-or_bit :
    (m : Bitmap) (i j : ℕ)
    → i < 2048
    → IsValid m
    → test_bit (or_bit m i) j ≡ (i == j) || test_bit m j
test_bit-or_bit m i j hi v =
    rw (test_bit-testbit (or_bit m i) j, test_bit-testbit m j)
      (unfold or_bit in
        rw (get_or-set m.mask (i / 64) (j / 64) _ 0 inside) (elim (Bool-cases (i / 64 == j / 64)) [
          | inl e ↦
              rw e
                (joined i j _ (same_word i j e) ∙ ap (λ k. (i == j) || bit_at k) (same_word i j e))
          | inr e ↦ rw (e, other_word i j e)
        ]))
  where
    bit_at : ℕ → Bool
    bit_at k = not (testbit (get_or m.mask k 0) (j % 64) == 0)

    inside : i / 64 < length m.mask
    inside = omega (arith, v.sized)

pub or_bit-IsValid : (m : Bitmap) (i : ℕ) → i < 2048 → IsValid m → IsValid (or_bit m i)
unfolding or_bit
or_bit-IsValid m i hi v = record {
  sized = length-set m.mask _ _ ∙ v.sized;
  words = λ n.
      rw (get_or-set m.mask (i / 64) n _ 0 (omega (arith, v.sized)))
        (elim (Bool-cases (i / 64 == n)) [
          | inl e ↦ rw e (bit_or-lt 64 _ _ (v.words _) (two_pow-lt _ 64 (omega arith)))
          | inr e ↦ rw e (v.words n)
        ]);
}

get_or-replicate : (k n : ℕ) → get_or {A = ℕ} (replicate k 0) n 0 ≡ 0
get_or-replicate zero n = refl
get_or-replicate (suc k) zero = refl
get_or-replicate (suc k) (suc n) = get_or-replicate k n

testbit-zero : (i : ℕ) → testbit 0 i ≡ 0
testbit-zero zero = refl
testbit-zero (suc i) = testbit-zero i

pub reset-IsValid : (m : Bitmap) → IsValid (reset m)
unfolding reset
reset-IsValid m = record {
  sized = length-replicate {A = ℕ} 32 0;
  words = λ n. rw (get_or-replicate 32 n) (omega arith);
}

pub test_bit-reset : (m : Bitmap) (i : ℕ) → test_bit (reset m) i ≡ false
test_bit-reset m i =
    test_bit-testbit (reset m) i
    ∙ (unfold reset in
        ap (λ w. not (testbit w (i % 64) == 0)) (get_or-replicate 32 (i / 64))
        ∙ ap (λ (t : ℕ). not (t == 0)) (testbit-zero (i % 64)))

-- What the test of `nrm_bitmap_isset` answers, in range.
pub nonzero-isset : (m : Bitmap) (i : ℕ) → i < 2048 → nonzero (isset (some m) i) ≡ test_bit m i
unfolding isset
nonzero-isset m i h = ground arith

-- The effect of a set whose result is ignored, on every index.
pub test_bit-after_set :
    (m : Bitmap) (i j : ℕ)
    → IsValid m
    → test_bit (after_set m i) j ≡ (ltb i 2048 && i == j) || test_bit m j
unfolding after_set set_bit
test_bit-after_set m i j v = ground (arith, test_bit-or_bit m i j)

pub after_set-IsValid : (m : Bitmap) (i : ℕ) → IsValid m → IsValid (after_set m i)
unfolding after_set set_bit
after_set-IsValid m i v = elim (Bool-cases (leb 2048 i)) [
  | inl e ↦ rw (e, after_set, set_bit) v
  | inr e ↦ rw (e, after_set, set_bit) (or_bit-IsValid m i (ground arith) v)
]

-- nrm_bitmap_set and nrm_bitmap_isset together, on every index: a set below 2048 returns 0, and
-- afterwards isset answers 1 at that index and what it answered before at any other; from 2048 on
-- set returns -1, isset answers as before everywhere, and it answers -1 at that index. A well-formed
-- bitmap stays well formed.
pub isset-set_bit :
    (m : Bitmap) (i j : ℕ)
    → IsValid m
    → ((set_bit (some m) i).0 ≡ (if ltb i 2048 then pos 0 else negsuc 0))
      × (isset (set_bit (some m) i).1 j
          ≡ (if ltb i 2048 && i == j then pos 1 else isset (some m) j))
      × (isset (set_bit (some m) i).1 i ≡ (if ltb i 2048 then pos 1 else negsuc 0))
      × IsValid (after_set m i)
unfolding isset set_bit
isset-set_bit m i j v = (
  ground arith,
  ground (arith, test_bit-or_bit m i j),
  ground (arith, test_bit-or_bit m i i),
  after_set-IsValid m i v,
)
