-- ===== src/Prelude/Bits.antt =====
-- The bits of a machine word: `testbit w i` is bit i of w, and what `|` and `&` do to it.
use Prim.Native.Nat.{
  ℕ, zero, suc, ◌+◌, ◌*◌, ◌/◌, ◌%◌, ◌^◌, ◌≤◌, ◌<◌, min, max, bit_and, bit_or, digits,
  bit_and-bitwise, bit_or-bitwise,
}
use mathlib.Core.Path.{◌≡◌, refl, ap, ◌∙◌}
use native.Mathlib.Omega.{arith}
use native.Mathlib.Nat.{pow-suc}
use libnrm.Prelude.Tests.{◌==◌, if◌then◌else◌}

abbrev pub testbit : ℕ → ℕ → ℕ
testbit w zero = w % 2
testbit w (suc i) = testbit (w / 2) i

testbit-zero : (i : ℕ) → testbit 0 i ≡ 0
testbit-zero zero = refl
testbit-zero (suc i) = testbit-zero i

pub testbit-le-one : (w i : ℕ) → testbit w i ≤ 1
testbit-le-one w zero = omega arith
testbit-le-one w (suc i) = testbit-le-one (w / 2) i

two_pow_suc : (i : ℕ) → 2 ^ suc i ≡ 2 ^ i * 2
two_pow_suc i = pow-suc 2 i

-- The only bit of a power of two.
pub testbit-pow : (i j : ℕ) → testbit (2 ^ i) j ≡ (if i == j then 1 else 0)
testbit-pow zero zero = refl
testbit-pow zero (suc j) = ground (arith, testbit-zero j)
testbit-pow (suc i) zero = ground (arith, two_pow_suc i)
testbit-pow (suc i) (suc j) = rw two_pow_suc (rw half (testbit-pow i j ∙ shift))
  where
    half : 2 ^ i * 2 / 2 ≡ 2 ^ i
    half = omega arith

    shift : ◌≡◌ {A = ℕ} (if i == j then 1 else 0) (if suc i == suc j then 1 else 0)
    shift = ground arith

or_digits :
    (n a b i : ℕ) → a ≤ n → testbit (digits (λ x. x) max n a b) i ≡ max (testbit a i) (testbit b i)
or_digits zero zero b i h = omega (arith, testbit-zero i)
or_digits zero (suc a) b i h = absurd (omega arith)
or_digits (suc n) zero b i h = omega (arith, testbit-zero i)
or_digits (suc n) (suc a) b zero h = omega arith
or_digits (suc n) (suc a) b (suc i) h = rw half (or_digits n (suc a / 2) (b / 2) i (omega arith))
  where
    half :
        (digits (λ x. x) max n (suc a / 2) (b / 2) * 2 + max (suc a % 2) (b % 2)) / 2
        ≡ digits (λ x. x) max n (suc a / 2) (b / 2)
    half = omega arith

-- `|` joins the bits.
pub testbit-bit_or : (a b i : ℕ) → testbit (bit_or a b) i ≡ max (testbit a i) (testbit b i)
testbit-bit_or a b i = rw (bit_or-bitwise a b) (or_digits a a b i (omega arith))

and_digits-zero : (n a : ℕ) → digits (λ x. 0) min n a 0 ≡ 0
and_digits-zero zero a = refl
and_digits-zero (suc n) zero = refl
and_digits-zero (suc n) (suc a) = omega (arith, and_digits-zero n (suc a / 2))

and_digits-pow : (n w i : ℕ) → w ≤ n → digits (λ x. 0) min n w (2 ^ i) ≡ testbit w i * 2 ^ i
and_digits-pow zero zero i h = omega (arith, ap (λ (t : ℕ). t * 2 ^ i) (testbit-zero i))
and_digits-pow zero (suc w) i h = absurd (omega arith)
and_digits-pow (suc n) zero i h = omega (arith, ap (λ (t : ℕ). t * 2 ^ i) (testbit-zero i))
and_digits-pow (suc n) (suc w) zero h = omega (arith, and_digits-zero n (suc w / 2))
and_digits-pow (suc n) (suc w) (suc i) h =
    rw (two_pow_suc i) (rw half (omega (arith, and_digits-pow n (suc w / 2) i (omega arith))))
  where
    half : 2 ^ i * 2 / 2 ≡ 2 ^ i
    half = omega arith

-- `&` with a single bit.
pub bit_and-pow : (w i : ℕ) → bit_and w (2 ^ i) ≡ testbit w i * 2 ^ i
bit_and-pow w i = rw (bit_and-bitwise w (2 ^ i)) (and_digits-pow w w i (omega arith))

two_pow_pos : (i : ℕ) → 0 < 2 ^ i
two_pow_pos zero = omega arith
two_pow_pos (suc i) = omega (arith, two_pow_suc i, two_pow_pos i)

-- The test `w & (1 << i)` is on bit i.
pub bit_and-pow-eq : (w i : ℕ) → (bit_and w (2 ^ i) == 0) ≡ (testbit w i == 0)
bit_and-pow-eq w i = rw (bit_and-pow w i) (cases (testbit w i) (testbit-le-one w i))
  where
    cases : (t : ℕ) → t ≤ 1 → (t * 2 ^ i == 0) ≡ (t == 0)
    cases zero h = ground arith
    cases (suc zero) h = ground (arith, two_pow_pos i)
    cases (suc (suc t)) h = absurd (omega arith)

-- A word of k bits is known by its bits.
pub eq_of_testbits :
    (k a b : ℕ) → a < 2 ^ k → b < 2 ^ k → ((i : ℕ) → i < k → testbit a i ≡ testbit b i) → a ≡ b
eq_of_testbits zero a b ha hb h = omega arith
eq_of_testbits (suc k) a b ha hb h = omega (
  arith,
  eq_of_testbits k (a / 2) (b / 2) (omega (arith, two_pow_suc k)) (omega (arith, two_pow_suc k))
      (λ i hi. h (suc i) (omega arith)),
  h 0 (omega arith),
)

or_digits-lt : (k n a b : ℕ) → a ≤ n → a < 2 ^ k → b < 2 ^ k → digits (λ x. x) max n a b < 2 ^ k
or_digits-lt k zero a b h ha hb = hb
or_digits-lt k (suc n) zero b h ha hb = hb
or_digits-lt zero (suc n) (suc a) b h ha hb = absurd (omega arith)
or_digits-lt (suc k) (suc n) (suc a) b h ha hb = omega (
  arith,
  two_pow_suc k,
  or_digits-lt k n (suc a / 2) (b / 2) (omega arith) (omega (arith, two_pow_suc k))
      (omega (arith, two_pow_suc k)),
)

-- `|` stays within the width of its operands.
pub bit_or-lt : (k a b : ℕ) → a < 2 ^ k → b < 2 ^ k → bit_or a b < 2 ^ k
bit_or-lt k a b ha hb = rw (bit_or-bitwise a b) (or_digits-lt k a a b (omega arith) ha hb)

pub two_pow-lt : (i k : ℕ) → i < k → 2 ^ i < 2 ^ k
two_pow-lt zero zero h = absurd (omega arith)
two_pow-lt zero (suc k) h = omega (arith, two_pow_suc k, two_pow_pos k)
two_pow-lt (suc i) zero h = absurd (omega arith)
two_pow-lt (suc i) (suc k) h =
    omega (arith, two_pow_suc i, two_pow_suc k, two_pow-lt i k (omega arith))
