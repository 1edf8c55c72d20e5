-- ===== src/Prelude/Int.antt =====
-- Signed integers over the native numbers, under the library's names (its ℤ stands on the unary ℕ).
-- Sums and orders go through the two parts of an integer, which are numbers that `omega` reads.
use libnrm.Prelude.{
  ℕ, zero, suc, ◌+◌, ◌-◌, ◌*◌, ◌/◌, ◌%◌, ◌≤◌, ◌<◌, ◌≡◌, refl, ◌⊎◌, Bool, arith, ltb, leb,
  if◌then◌else◌,
}

-- `negsuc n` is -(n + 1).
pub data ℤ : Type 0 where
  pos : ℕ → ℤ
  negsuc : ℕ → ℤ

abbrev pub pos_part : ℤ → ℕ
pos_part (pos n) = n
pos_part (negsuc n) = 0

abbrev pub neg_part : ℤ → ℕ
neg_part (pos n) = 0
neg_part (negsuc n) = suc n

-- a - b, as an integer.
abbrev pub sub_ℕ : ℕ → ℕ → ℤ
sub_ℕ a b = if leb b a then pos (a - b) else negsuc (b - a - 1)

infixl 65 ◌+ℤ◌ ◌-ℤ◌
infixl 70 ◌*ℤ◌
infix 50 ◌≤ℤ◌
unfoldable pub ◌+ℤ◌ : ℤ → ℤ → ℤ
a +ℤ b = sub_ℕ (pos_part a + pos_part b) (neg_part a + neg_part b)

unfoldable pub ◌-ℤ◌ : ℤ → ℤ → ℤ
a -ℤ b = sub_ℕ (pos_part a + neg_part b) (neg_part a + pos_part b)

unfoldable pub ◌*ℤ◌ : ℤ → ℤ → ℤ
a *ℤ b =
    sub_ℕ (pos_part a * pos_part b + neg_part a * neg_part b)
      (pos_part a * neg_part b + neg_part a * pos_part b)

abbrev pub ◌≤ℤ◌ : ℤ → ℤ → Type 0
a ≤ℤ b = pos_part a + neg_part b ≤ pos_part b + neg_part a

abbrev pub ltb_ℤ : ℤ → ℤ → Bool
ltb_ℤ a b = ltb (pos_part a + neg_part b) (pos_part b + neg_part a)

-- With the operations unfolded `ground` splits on the signs.
pub +ℤ_comm : (a b : ℤ) → a +ℤ b ≡ b +ℤ a
unfolding ◌+ℤ◌
+ℤ_comm a b = ground arith

pub +ℤ_assoc : (a b c : ℤ) → a +ℤ b +ℤ c ≡ a +ℤ (b +ℤ c)
unfolding ◌+ℤ◌
+ℤ_assoc a b c = ground arith

pub +ℤ_cancel : (a b : ℤ) → a +ℤ b -ℤ b ≡ a
unfolding ◌+ℤ◌ ◌-ℤ◌
+ℤ_cancel a b = ground arith

pub ≤ℤ_total : (a b : ℤ) → (a ≤ℤ b) ⊎ (b ≤ℤ a)
≤ℤ_total a b = omega arith

-- One lemma for each operation lets `omega` work with the operations shut, at any depth.
pub +ℤ_parts :
    (a b : ℤ)
    → pos_part (a +ℤ b) + neg_part a + neg_part b ≡ neg_part (a +ℤ b) + pos_part a + pos_part b
unfolding ◌+ℤ◌
+ℤ_parts a b = ground arith

pub -ℤ_parts :
    (a b : ℤ)
    → pos_part (a -ℤ b) + neg_part a + pos_part b ≡ neg_part (a -ℤ b) + pos_part a + neg_part b
unfolding ◌-ℤ◌
-ℤ_parts a b = ground arith

pub eq_of_parts : (a b : ℤ) → pos_part a + neg_part b ≡ pos_part b + neg_part a → a ≡ b
eq_of_parts a b h = ground arith

pub ruleset int_laws = (arith, +ℤ_parts, -ℤ_parts, eq_of_parts)

pub neg : ℕ → ℤ
neg zero = pos 0
neg (suc n) = negsuc n

-- C's `/` and `%` by a positive constant: both round towards zero.
unfoldable pub quot : ℤ → ℕ → ℤ
unfolding neg
quot (pos n) d = pos (n / d)
quot (negsuc n) d = neg (suc n / d)

unfoldable pub rem : ℤ → ℕ → ℤ
unfolding neg
rem (pos n) d = pos (n % d)
rem (negsuc n) d = neg (suc n % d)

neg_parts : (n : ℕ) → (pos_part (neg n) ≡ 0) × (neg_part (neg n) ≡ n)
unfolding neg
neg_parts zero = (refl, refl)
neg_parts (suc n) = (refl, refl)

-- Rounding towards zero acts on the two parts alike.
pub quot_parts :
    (a : ℤ) (d : ℕ)
    → 0 < d
    → (pos_part (quot a d) ≡ pos_part a / d) × (neg_part (quot a d) ≡ neg_part a / d)
unfolding quot
quot_parts (pos n) d h = (refl, zero_div d h)
  where
    zero_div : (d : ℕ) → 0 < d → 0 ≡ 0 / d
    zero_div d h = grind arith
quot_parts (negsuc n) d h = (rw (neg_parts (suc n / d)).0 (zero_div d h), (neg_parts (suc n / d)).1)
  where
    zero_div : (d : ℕ) → 0 < d → 0 ≡ 0 / d
    zero_div d h = grind arith

pub rem_parts :
    (a : ℤ) (d : ℕ)
    → 0 < d
    → (pos_part (rem a d) ≡ pos_part a % d) × (neg_part (rem a d) ≡ neg_part a % d)
unfolding rem
rem_parts (pos n) d h = (refl, zero_mod d h)
  where
    zero_mod : (d : ℕ) → 0 < d → 0 ≡ 0 % d
    zero_mod d h = grind arith
rem_parts (negsuc n) d h = (rw (neg_parts (suc n % d)).0 (zero_mod d h), (neg_parts (suc n % d)).1)
  where
    zero_mod : (d : ℕ) → 0 < d → 0 ≡ 0 % d
    zero_mod d h = grind arith

-- A product with a number, on the parts.
pub scale_parts :
    (c : ℕ) (a : ℤ)
    → pos_part (pos c *ℤ a) + c * neg_part a ≡ neg_part (pos c *ℤ a) + c * pos_part a
unfolding ◌*ℤ◌
scale_parts c (pos n) = ground arith
scale_parts c (negsuc n) = ground arith
