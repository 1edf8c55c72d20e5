-- ===== src/Tools/Tests.antt =====
-- The theorem on src/tools.c at a command line, with a getopt that reads options of two characters.
use libnrm.Prelude.{
  ℕ, suc, ◌-◌, ◌≤◌, ◌<◌, ◌≡◌, refl, ap, subst, ◌⊎◌, inl, inr, Bool, true, false, Option, none, some,
  List, [], ◌∷◌, ◌==◌, ==_iff, Bool-cases, if◌then◌else◌, length, arith,
}
use libnrm.Prelude.Int.{ℤ, pos, negsuc, pos_part, neg_part, ◌+ℤ◌}
use libnrm.Prelude.Bytes.{Bytes, ascii}
use libnrm.Ext.Arithmetic.{whole_arithmetic}
use libnrm.Ext.Models.{list_array}
use libnrm.Ext.Integers.{integers}
use libnrm.Parsers.{parse_uint, parse_int}
use libnrm.Strings.{fromchar, frombuf}
use libnrm.Tools.Options.{full_shortopts, full_longopts, letter, isset}
use libnrm.Tools.{
  Args, parse_args, parse_from, handle, parsed, asserted, finish, with_defaults, uri_of,
}
use libnrm.Ext.Getopt.{Getopt, IsOffered, all_options}

abbrev find_has : ℕ → List (ℕ × Bool) → Option Bool
find_has c [] = none
find_has c ((d, has) ∷ l) = let rest = find_has c l in if c == d then some has else rest

IsOffered-find :
    (c : ℕ) (arg : Option Bytes) (l : List (ℕ × Bool)) (has : Bool)
    → find_has c l ≡ some has
    → (has ≡ true → (s : Bytes) × (arg ≡ some s))
    → IsOffered c arg l
IsOffered-find c arg [] has e g = absurd (ground (arith, e))
IsOffered-find c arg ((d, h) ∷ l) has e g = elim (Bool-cases (c == d)) [
  | inl same ↦ inl ((==_iff c d).0 same, λ t. g (ground (arith, e, same, t)))
  | inr other ↦ inr (IsOffered-find c arg l has (ground (arith, e, other)) g)
]

abbrev result : ℕ → Option Bool → List Bytes → ℤ × Option Bytes × List Bytes
result c none rest = (pos 63, none, rest)
result c (some false) rest = (pos c, none, rest)
result c (some true) [] = (pos 58, none, [])
result c (some true) (a ∷ rest) = (pos c, some a, rest)

abbrev IsResult : List (ℕ × Bool) → List Bytes → ℤ × Option Bytes × List Bytes → Type 0
IsResult l rest x =
    (length x.2 ≤ length rest)
    × ((pos_part x.0 ≡ 63) ⊎ (pos_part x.0 ≡ 58) ⊎ IsOffered (pos_part x.0) x.1 l)

result-IsResult :
    (c : ℕ) (look : Option Bool) (rest : List Bytes) (l : List (ℕ × Bool))
    → find_has c l ≡ look
    → IsResult l rest (result c look rest)
result-IsResult c none rest l e = (omega arith, inl refl)
result-IsResult c (some false) rest l e =
    (omega arith, inr (inr (IsOffered-find c none l false e (λ h. absurd (ground (arith, h))))))
result-IsResult c (some true) [] l e = (omega arith, inr (inl refl))
result-IsResult c (some true) (a ∷ rest) l e =
    (omega arith, inr (inr (IsOffered-find c (some a) l true e (λ h. (a, refl)))))

-- A word of a dash and a letter is an option.
abbrev letter_of : Bytes → Option ℕ
letter_of (d ∷ c ∷ []) = if d == 45 then some c else none
letter_of w = none

abbrev read_word : Option ℕ → List (ℕ × Bool) → Bytes → List Bytes → ℤ × Option Bytes × List Bytes
read_word none l w rest = (negsuc 0, none, w ∷ rest)
read_word (some c) l w rest = result c (find_has c l) rest

abbrev next : List (ℕ × Bool) → List Bytes → ℤ × Option Bytes × List Bytes
next l [] = (negsuc 0, none, [])
next l (w ∷ rest) = read_word (letter_of w) l w rest

next_lem :
    (l : List (ℕ × Bool)) (s : List Bytes) (c : ℕ) (arg : Option Bytes) (r : List Bytes)
    → next l s ≡ (pos c, arg, r)
    → (length r < length s) × ((c ≡ 63) ⊎ (c ≡ 58) ⊎ IsOffered c arg l)
next_lem l [] c arg r e = absurd (omega (arith, ap (λ x. neg_part x.0) e))
next_lem l (w ∷ rest) c arg r e = of_word (letter_of w) e
  where
    of_word :
        (o : Option ℕ)
        → read_word o l w rest ≡ (pos c, arg, r)
        → (length r < suc (length rest)) × ((c ≡ 63) ⊎ (c ≡ 58) ⊎ IsOffered c arg l)
    of_word none e = absurd (omega (arith, ap (λ x. neg_part x.0) e))
    of_word (some d) e =
        let (shorter, known) =
          subst (IsResult l rest) e (result-IsResult d (find_has d l) rest l refl) in
        (omega (arith, shorter), known)

not_negative :
    (c : ℕ) (look : Option Bool) (rest : List Bytes) → neg_part (result c look rest).0 ≡ 0
not_negative c none rest = refl
not_negative c (some false) rest = refl
not_negative c (some true) [] = refl
not_negative c (some true) (a ∷ rest) = refl

next_ended :
    (l : List (ℕ × Bool)) (s : List Bytes) (n : ℕ) (arg : Option Bytes) (r : List Bytes)
    → next l s ≡ (negsuc n, arg, r)
    → n ≡ 0
next_ended l [] n arg r e = omega (arith, ap (λ x. neg_part x.0) e)
next_ended l (w ∷ rest) n arg r e = of_word (letter_of w) e
  where
    of_word : (o : Option ℕ) → read_word o l w rest ≡ (negsuc n, arg, r) → n ≡ 0
    of_word none e = omega (arith, ap (λ x. neg_part x.0) e)
    of_word (some d) e =
        absurd (omega (arith, ap (λ x. neg_part x.0) e, not_negative d (find_has d l) rest))

-- Of a command line of six words after the program's name.
abbrev words : Getopt
words = record {
  State = List Bytes;
  start = λ argv. argv;
  getopt_long = λ short longs s. next (all_options short longs) s;
  optind = λ s. 7 - length s;
  left = length;
  consumed = λ short longs s c arg r e. (next_lem (all_options short longs) s c arg r e).0;
  known = λ short longs s c arg r e. (next_lem (all_options short longs) s c arg r e).1;
  ended = λ short longs s n arg r e. next_ended (all_options short longs) s n arg r e;
}

abbrev first_byte : Bytes → ℤ × ℕ
first_byte [] = (pos 0, 22)
first_byte (x ∷ l) = (pos x, 0)

abbrev huge : Bytes → ℤ × ℕ
huge s = (pos 2147483647, 0)

abbrev first_number : Bytes → ℤ × Bool × ℕ
first_number [] = (pos 0, false, 0)
first_number (x ∷ l) = (pos x, true, 0)

abbrev command : List Bytes
command = ascii "-p" ∷ ascii "A" ∷ ascii "-v" ∷ ascii "-e" ∷ ascii "watts" ∷ ascii "sleep" ∷ []

abbrev empty : Args list_array integers whole_arithmetic
empty = record {
  flags = 2;
  upstream_uri = none;
  pub_port = pos 0;
  rpc_port = pos 0;
  log_level = pos 0;
  ask_help = true;
  ask_version = true;
  freq = pos 0;
  events = none;
  inheritance = false;
}

abbrev outcome : Option (ℤ × Args list_array integers whole_arithmetic) → Option (ℤ × ℤ × ℤ)
outcome none = none
outcome (some (r, b)) = some (r, b.pub_port, b.log_level)

-- The command is the sixth word, the port the code of the letter, and the level one more than normal.
parse_args_runs :
    outcome
      (parse_args list_array integers whole_arithmetic first_byte first_number words command empty)
    ≡ some (pos 6, pos 65, pos 4)
unfolding parse_args parse_from full_shortopts full_longopts letter isset handle parsed asserted
    parse_uint finish with_defaults ◌+ℤ◌ uri_of fromchar frombuf
parse_args_runs = refl

-- One more than the greatest log level has no meaning.
parse_args_overflows :
    parse_args list_array integers whole_arithmetic huge first_number words
      (ascii "-l" ∷ ascii "A" ∷ ascii "-v" ∷ [])
      empty
    ≡ none
unfolding parse_args parse_from full_shortopts full_longopts letter isset handle parsed asserted
    parse_int finish with_defaults
parse_args_overflows = refl
