-- ===== src/Ext/Getopt.antt =====
-- getopt_long of libc, as src/tools.c calls it: short options as a string, long options as a list, whose
-- results are the characters in `val`. Optional arguments are not used.
use libnrm.Prelude.{
  ℕ, ◌<◌, ◌≡◌, ◌⊎◌, Bool, true, false, Option, some, List, [], ◌∷◌, ◌++◌, map, ◌==◌, if◌then◌else◌,
}
use libnrm.Prelude.Int.{ℤ, pos, negsuc}
use libnrm.Prelude.Bytes.{Bytes}

-- struct option, where `flag` is 0
pub record LongOption : Type 0 where
  pub name : Bytes
  pub has_arg : Bool
  pub val : ℕ

-- The characters of a string of short options, each with whether a colon says that it takes an argument.
abbrev pub colon : Bytes → Bool
colon [] = false
colon (c ∷ l) = c == 58

abbrev pub short_options : Bytes → List (ℕ × Bool)
short_options [] = []
short_options (c ∷ l) = let rest = short_options l in if c == 58 then rest else (c, colon l) ∷ rest

abbrev pub after_plus : Bytes → Bytes
after_plus [] = []
after_plus (c ∷ l) = if c == 43 then l else c ∷ l

-- All options; a plus sign or a colon at the start of the string are none.
abbrev pub all_options : Bytes → List LongOption → List (ℕ × Bool)
all_options short longs = short_options (after_plus short) ++ map (λ o. (o.val, o.has_arg)) longs

-- A result is one of the options, with an argument where that takes one.
abbrev pub IsOffered : ℕ → Option Bytes → List (ℕ × Bool) → Type 0
IsOffered c arg [] = ⊥
IsOffered c arg ((d, has_arg) ∷ l) =
    ((c ≡ d) × (has_arg ≡ true → (s : Bytes) × (arg ≡ some s))) ⊎ IsOffered c arg l

pub record Getopt : Type 1 where
  pub State : Type 0
  -- the arguments, with optind set to 1
  pub start : List Bytes → State
  -- the result and optarg
  pub getopt_long : Bytes → List LongOption → State → ℤ × Option Bytes × State
  pub optind : State → ℕ
  -- how much of the arguments is left
  pub left : State → ℕ
  -- An option is consumed; it is a question mark or a colon for those that are wrong, or it is offered.
  pub consumed :
      (short : Bytes) (longs : List LongOption) (s : State) (c : ℕ) (arg : Option Bytes) (r : State)
      → getopt_long short longs s ≡ (pos c, arg, r)
      → left r < left s
  pub known :
      (short : Bytes) (longs : List LongOption) (s : State) (c : ℕ) (arg : Option Bytes) (r : State)
      → getopt_long short longs s ≡ (pos c, arg, r)
      → (c ≡ 63) ⊎ (c ≡ 58) ⊎ IsOffered c arg (all_options short longs)
  -- Below zero it is -1, when the options are read.
  pub ended :
      (short : Bytes) (longs : List LongOption) (s : State) (n : ℕ) (arg : Option Bytes) (r : State)
      → getopt_long short longs s ≡ (negsuc n, arg, r)
      → n ≡ 0
