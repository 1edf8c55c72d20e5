-- ===== src/Bitmap/Count.antt =====
-- nrm_bitmap_nset and nrm_bitmap_to_array: the count is the number of indices that are on, and the
-- array lists exactly those, in ascending order.
use libnrm.Prelude.{
  ℕ, zero, suc, ◌+◌, ◌*◌, ◌/◌, ◌%◌, ◌≤◌, ◌<◌, ◌≡◌, refl, sym, ap, ap₂, ◌∙◌, Bool, not, List, [],
  ◌∷◌, ◌++◌, arith, ◌==◌, if◌then◌else◌, lt→ltb, get_or, set, length, length-append, replicate,
  Bool-cases, inl, inr,
}
use mathlib.Core.List.{append_assoc}
use libnrm.Prelude.Bits.{testbit, bit_and-pow-eq}
use Prim.Native.Nat.{bit_and}
use libnrm.Bitmap.{Bitmap, test_bit, count_bits, count_words, nset_of, fill, to_array}
use libnrm.Bitmap.Membership.{test_bit-testbit, nonzero-isset}

-- How many of the `r` numbers from `i` on pass a test, and which.
unfoldable pub count_from : ℕ → ℕ → (ℕ → Bool) → ℕ
count_from i zero p = 0
count_from i (suc r) p = (if p i then 1 else 0) + count_from (i + 1) r p

unfoldable pub indices_from : ℕ → ℕ → (ℕ → Bool) → List ℕ
indices_from i zero p = []
indices_from i (suc r) p = let rest = indices_from (i + 1) r p in if p i then i ∷ rest else rest

pub length-indices_from : (i r : ℕ) (p : ℕ → Bool) → length (indices_from i r p) ≡ count_from i r p
unfolding count_from indices_from
length-indices_from i zero p = refl
length-indices_from i (suc r) p = ground (arith, length-indices_from (i + 1) r p)

count_from-add :
    (i a b : ℕ) (p : ℕ → Bool) → count_from i (a + b) p ≡ count_from i a p + count_from (i + a) b p
unfolding count_from
count_from-add i zero b p = rw (left, right) (omega arith)
  where
    left : 0 + b ≡ b
    left = omega arith

    right : i + 0 ≡ i
    right = omega arith
count_from-add i (suc a) b p = rw (left, right) (omega (arith, count_from-add (i + 1) a b p))
  where
    left : suc a + b ≡ suc (a + b)
    left = omega arith

    right : i + suc a ≡ i + 1 + a
    right = omega arith

lowest_bit : (b : ℕ) → (bit_and b 1 == 0) ≡ (testbit b 0 == 0)
lowest_bit b = bit_and-pow-eq b 0

-- The inner loop adds the bits of one word.
count_bits_lem :
    (p : ℕ → Bool) (r i b acc : ℕ)
    → ((j : ℕ) → j < r → p (i + j) ≡ not (testbit b j == 0))
    → count_bits r b acc ≡ acc + count_from i r p
unfolding count_bits count_from
count_bits_lem p zero i b acc h = omega arith
count_bits_lem p (suc r) i b acc h =
    count_bits_lem p r (i + 1) (b / 2) (acc + (if bit_and b 1 == 0 then 0 else 1)) later
    ∙ ground (arith, first, lowest_bit b)
  where
    later : (j : ℕ) → j < r → p (i + 1 + j) ≡ not (testbit (b / 2) j == 0)
    later j hj = ap p (omega arith) ∙ h (suc j) (omega arith)

    first : p i ≡ not (testbit b 0 == 0)
    first = ap p (omega arith) ∙ h 0 (omega arith)

word_bits :
    (m : Bitmap) (n j : ℕ)
    → j < 64
    → test_bit m (n * 64 + j) ≡ not (testbit (get_or m.mask n 0) j == 0)
word_bits m n j h =
    test_bit-testbit m (n * 64 + j) ∙ ap₂ (λ k l. not (testbit (get_or m.mask k 0) l == 0)) word bit
  where
    word : (n * 64 + j) / 64 ≡ n
    word = omega arith

    bit : (n * 64 + j) % 64 ≡ j
    bit = omega arith

-- The outer loop adds up the words from `n` on.
count_words_lem :
    (m : Bitmap) (r n acc : ℕ)
    → count_words r n m acc ≡ acc + count_from (n * 64) (r * 64) (test_bit m)
unfolding count_words
count_words_lem m zero n acc = unfold count_from in omega arith
count_words_lem m (suc r) n acc =
    count_words_lem m r (n + 1) (count_bits 64 (get_or m.mask n 0) acc)
    ∙ rw
        (
          count_bits_lem (test_bit m) 64 (n * 64) (get_or m.mask n 0) acc (word_bits m n),
          left,
          right,
        )
        (omega (arith, count_from-add (n * 64) 64 (r * 64) (test_bit m)))
  where
    left : suc r * 64 ≡ 64 + r * 64
    left = omega arith

    right : (n + 1) * 64 ≡ n * 64 + 64
    right = omega arith

-- nrm_bitmap_nset counts the indices below 2048 that are on.
pub nset_of-eq-count : (m : Bitmap) → nset_of m ≡ count_from 0 2048 (test_bit m)
unfolding nset_of
nset_of-eq-count m = count_words_lem m 32 0 0 ∙ omega arith

set-length-append :
    (done rest : List ℕ) (v w : ℕ) → set (done ++ v ∷ rest) (length done) w ≡ done ++ w ∷ rest
set-length-append [] rest v w = refl
set-length-append (x ∷ done) rest v w = ap (λ l. x ∷ l) (set-length-append done rest v w)

no_indices : (i r : ℕ) (p : ℕ → Bool) → 0 ≡ count_from i r p → indices_from i r p ≡ []
unfolding count_from indices_from
no_indices i zero p h = refl
no_indices i (suc r) p h = ground (arith, no_indices (i + 1) r p)

-- The loop that fills the array: what is stored so far stays, and the indices to come follow.
fill_lem :
    (m : Bitmap) (size r i k : ℕ) (done : List ℕ) (written : ℕ) (items : List ℕ)
    → i + r ≤ 2048
    → k ≡ count_from i r (test_bit m)
    → size ≡ length done + k
    → written ≡ length done
    → items ≡ done ++ replicate k 0
    → fill m size r i written items ≡ done ++ indices_from i r (test_bit m)
unfolding fill indices_from count_from
fill_lem m size zero i k done written items hi hk hs hw he = he ∙ ap (λ t. done ++ replicate t 0) hk
fill_lem m size (suc r) i zero done written items hi hk hs hw he =
    rw (no_indices i (suc r) (test_bit m) hk) (ground arith)
fill_lem m size (suc r) i (suc k) done written items hi hk hs hw he =
    elim (Bool-cases (test_bit m i)) [
      | inl e ↦
          rw (e, nonzero-isset m i (omega arith), e, lt→ltb written size (omega arith))
            (fill_lem m size r (i + 1) k (done ++ i ∷ []) (written + 1) (set items written i)
                (omega arith) (ground arith) (omega (arith, grown)) (omega (arith, grown))
                (stored ∙ sym (append_assoc done (i ∷ []) (replicate k 0)))
              ∙ append_assoc done (i ∷ []) (indices_from (i + 1) r (test_bit m)))
      | inr e ↦
          rw (e, nonzero-isset m i (omega arith), e, lt→ltb written size (omega arith))
            (fill_lem m size r (i + 1) (suc k) done written items (omega arith) (ground arith) hs hw
              he)
    ]
  where
    grown : length (done ++ i ∷ []) ≡ length done + 1
    grown = omega (arith, length-append done (i ∷ []))

    stored : set items written i ≡ done ++ i ∷ replicate k 0
    stored = rw (he, hw) (set-length-append done (replicate k 0) 0 i)

-- nrm_bitmap_to_array gives the count and, in ascending order and with no gap, every index below
-- 2048 that is on: the early end of its loop loses none.
pub to_array_lem :
    (m : Bitmap) → to_array m ≡ (count_from 0 2048 (test_bit m), indices_from 0 2048 (test_bit m))
unfolding to_array
to_array_lem m =
    ap₂ (λ n l. (n, l)) (nset_of-eq-count m)
      (fill_lem m (nset_of m) 2048 0 (nset_of m) [] 0 (replicate (nset_of m) 0) (omega arith)
        (nset_of-eq-count m) (omega arith) refl refl)
