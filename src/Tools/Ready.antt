-- ===== src/Tools/Ready.antt =====
-- The options that nrm_tools_parse_args of src/tools.c offers have what their cases need.
use libnrm.Prelude.{
  ℕ, ◌≤◌, ◌≡◌, refl, ap, ◌∙◌, ◌⊎◌, inl, inr, Bool, true, false, not, ◌&&◌, ◌||◌, ◌==◌, Option, some,
  List, [], ◌∷◌, arith, if◌then◌else◌,
}
use libnrm.Prelude.Int.{ℤ, pos, negsuc, ltb_ℤ, ◌+ℤ◌}
use libnrm.Prelude.Bytes.{Bytes}
use libnrm.Error.{ErrorCode}
use libnrm.Ext.Getopt.{IsOffered, all_options}
use libnrm.Parsers.{parse_int, parse_uint, int_min, int_max}
use libnrm.Tools.Options.{
  Letter, no_letter, other, uri, pub_port, rpc_port, level, freq, event, inherit, letter,
  full_shortopts, full_longopts,
}

-- What a case needs: the flag of its assertion, and an argument where it reads one.
unfoldable pub ready : Bool → Bool → Bool → Letter → Bool → Bool
ready f e i pub_port has = has
ready f e i rpc_port has = has
ready f e i level has = has
ready f e i freq has = f && has
ready f e i uri has = has
ready f e i event has = e && has
ready f e i inherit has = i
ready f e i no_letter has = false
ready f e i other has = false
ready f e i l has = true

every : (ℕ × Bool → Bool) → List (ℕ × Bool) → Bool
every p [] = true
every p (o ∷ l) = p o && every p l

offered_ready :
    (f e i : Bool)
    → every
        (λ o. ready f e i (letter o.0) o.1)
        (all_options (full_shortopts f e i) (full_longopts f e i))
      ≡ true
unfolding every ready letter full_shortopts full_longopts
offered_ready true true true = refl
offered_ready true true false = refl
offered_ready true false true = refl
offered_ready true false false = refl
offered_ready false true true = refl
offered_ready false true false = refl
offered_ready false false true = refl
offered_ready false false false = refl

offered :
    (p : ℕ × Bool → Bool) (c : ℕ) (arg : Option Bytes) (l : List (ℕ × Bool))
    → every p l ≡ true
    → IsOffered c arg l
    → (has : Bool) × (p (c, has) ≡ true) × (has ≡ true → (s : Bytes) × (arg ≡ some s))
unfolding every
offered p c arg [] h x = elim x [ ]
offered p c arg ((d, has) ∷ l) h (inl (e, given)) =
    (has, ap (λ x. p (x, has)) e ∙ ground arith, given)
offered p c arg ((d, has) ∷ l) h (inr o) = offered p c arg l (ground arith) o

pub known_ready :
    (f e i : Bool) (n : ℕ) (arg : Option Bytes)
    → (n ≡ 63)
      ⊎ (n ≡ 58)
      ⊎ IsOffered n arg (all_options (full_shortopts f e i) (full_longopts f e i))
    → (has : Bool) × (ready f e i (letter n) has ≡ true)
      × (has ≡ true → (s : Bytes) × (arg ≡ some s))
unfolding ready letter
known_ready f e i n arg (inl k) = (
  false,
  ap (λ m. ready f e i (letter m) false) k ∙ wrong_ready f e i,
  λ h. absurd (ground (arith, h)),
)
  where
    wrong_ready : (f e i : Bool) → ready f e i (letter 63) false ≡ true
    wrong_ready f e i = refl
known_ready f e i n arg (inr (inl k)) = (
  false,
  ap (λ m. ready f e i (letter m) false) k ∙ missing_ready f e i,
  λ h. absurd (ground (arith, h)),
)
  where
    missing_ready : (f e i : Bool) → ready f e i (letter 58) false ≡ true
    missing_ready f e i = refl
known_ready f e i n arg (inr (inr k)) =
    offered (λ o. ready f e i (letter o.0) o.1) n arg
      (all_options (full_shortopts f e i) (full_longopts f e i)) (offered_ready f e i) k

-- The number is one that an unsigned int and an int can hold.
abbrev pub IsPort : ℤ → Type 0
IsPort n = (m : ℕ) × (n ≡ pos m) × (m ≤ 2147483647)

if_either :
    {A : Type 0} (P : A → Type 0) (b : Bool) {x y : A}
    → (b ≡ true → P x)
    → (b ≡ false → P y)
    → P (if b then x else y)
if_either P true h k = h refl
if_either P false h k = k refl

pub parse_uint-IsPort :
    (strtol : Bytes → ℤ × ℕ) (s : Bytes) (p : ℤ) → IsPort p → IsPort (parse_uint strtol s p).1
unfolding parse_uint
parse_uint-IsPort strtol s p h =
    if_either {A = ErrorCode × ℤ} (λ r. IsPort r.1) (not ((strtol s).1 == 0)) (λ e. h)
      (λ e.
        if_either {A = ErrorCode × ℤ} (λ r. IsPort r.1)
          (ltb_ℤ (strtol s).0 (pos 0) || ltb_ℤ int_max (strtol s).0) (λ e. h)
          (in_range (strtol s).0))
  where
    in_range : (n : ℤ) → (ltb_ℤ n (pos 0) || ltb_ℤ int_max n) ≡ false → IsPort n
    in_range (pos n) e = (n, refl, ground arith)
    in_range (negsuc n) e = absurd (ground arith)

-- The number is an int.
abbrev pub IsInt : ℤ → Type 0
IsInt n = (ltb_ℤ n int_min ≡ false) × (ltb_ℤ int_max n ≡ false)

pub parse_int-IsInt :
    (strtol : Bytes → ℤ × ℕ) (s : Bytes) (p : ℤ) → IsInt p → IsInt (parse_int strtol s p).1
unfolding parse_int
parse_int-IsInt strtol s p h =
    if_either {A = ErrorCode × ℤ} (λ r. IsInt r.1) (not ((strtol s).1 == 0)) (λ e. h)
      (λ e.
        if_either {A = ErrorCode × ℤ} (λ r. IsInt r.1)
          (ltb_ℤ (strtol s).0 int_min || ltb_ℤ int_max (strtol s).0) (λ e. h)
          (λ e. (ground (arith, e), ground (arith, e))))

-- One more is an int too, but for the greatest one.
pub IsInt-more : (n : ℤ) → IsInt n → ltb_ℤ n int_max ≡ true → IsInt (n +ℤ pos 1)
unfolding ◌+ℤ◌
IsInt-more (pos n) h e = (ground arith, ground arith)
IsInt-more (negsuc n) h e = (ground arith, ground arith)

pub greatest : (n : ℤ) → IsInt n → ltb_ℤ n int_max ≡ false → n ≡ int_max
greatest (pos n) h e = ap pos (ground (arith, h.1))
greatest (negsuc n) h e = absurd (ground arith)
