-- ===== src/Tools/Options.antt =====
-- src/tools.c: the flags and the tables of options of nrm_tools_parse_args, and the cases of its switch.
use libnrm.Prelude.{
  ℕ, ◌+◌, ◌*◌, ◌<◌, arith, length, Bool, true, false, not, List, [], ◌∷◌, ◌++◌, if◌then◌else◌, ◌==◌,
}
use Prim.Native.Nat.{bit_and}
use libnrm.Prelude.Bytes.{Bytes, ascii}
use libnrm.Ext.Getopt.{LongOption}

-- NRM_TOOLS_ARGS_FLAG_FREQ, NRM_TOOLS_ARGS_FLAG_EVENT, NRM_TOOLS_ARGS_FLAG_INHERIT
abbrev pub flag_freq : ℕ
flag_freq = 1

abbrev pub flag_event : ℕ
flag_event = 2

abbrev pub flag_inherit : ℕ
flag_inherit = 4

abbrev pub flag_max : ℕ
flag_max = 3

-- NRM_TOOLS_FLAGS_ISSET
unfoldable pub isset : ℕ → ℕ → Bool
isset f i = not (bit_and f i == 0)

abbrev pub common_shortopts : Bytes
common_shortopts = ascii "+:vhqVl:u:r:p:"

abbrev option : Bytes → Bool → Bytes → List LongOption
option name has_arg (c ∷ []) = record { name = name; has_arg = has_arg; val = c } ∷ []
option name has_arg s = []

-- common_longopts, less the entry of zeros at its end
abbrev pub common_longopts : List LongOption
common_longopts =
    option (ascii "help") false (ascii "h")
    ++ option (ascii "version") false (ascii "V")
    ++ option (ascii "log-level") true (ascii "l")
    ++ option (ascii "quiet") false (ascii "q")
    ++ option (ascii "verbose") false (ascii "v")
    ++ option (ascii "uri") true (ascii "u")
    ++ option (ascii "rpc") true (ascii "r")
    ++ option (ascii "pub") true (ascii "p")

-- full_shortopts and full_longopts, by the flags for frequencies, events and inheritance, less the zeros
-- at their ends
unfoldable pub full_shortopts : Bool → Bool → Bool → Bytes
full_shortopts f e i =
    common_shortopts
    ++ (if f then ascii "f:" else [])
    ++ (if e then ascii "e:" else [])
    ++ (if i then ascii "i" else [])

unfoldable pub full_longopts : Bool → Bool → Bool → List LongOption
full_longopts f e i =
    common_longopts
    ++ (if f then option (ascii "freq") true (ascii "f") else [])
    ++ (if e then option (ascii "event") true (ascii "e") else [])
    ++ (if i then option (ascii "inherit") false (ascii "i") else [])

-- full_short_size and full_long_size, with the zeros at their ends
abbrev pub full_short_size : ℕ
full_short_size = 15 + 2 * flag_max

abbrev pub full_long_size : ℕ
full_long_size = 9 + flag_max

-- The cases of the switch
pub data Letter : Type 0 where
  no_letter help version pub_port rpc_port uri verbose quiet level freq event inherit : Letter
  missing wrong other : Letter

unfoldable pub letter : ℕ → Letter
letter c =
    if c == 0
    then no_letter
    else if c == 104
    then help
    else if c == 86
    then version
    else if c == 112
    then pub_port
    else if c == 114
    then rpc_port
    else if c == 117
    then uri
    else if c == 118
    then verbose
    else if c == 113
    then quiet
    else if c == 108
    then level
    else if c == 102
    then freq
    else if c == 101
    then event
    else if c == 105
    then inherit
    else if c == 58
    then missing
    else if c == 63
    then wrong
    else other

-- nrm_tools_parse_args has room for the options and the zeros that end them, whatever the flags are.
pub full_options_fit :
    (f e i : Bool)
    → (length (full_shortopts f e i) < full_short_size)
      × (length (full_longopts f e i) < full_long_size)
unfolding full_shortopts full_longopts
full_options_fit true true true = (omega arith, omega arith)
full_options_fit true true false = (omega arith, omega arith)
full_options_fit true false true = (omega arith, omega arith)
full_options_fit true false false = (omega arith, omega arith)
full_options_fit false true true = (omega arith, omega arith)
full_options_fit false true false = (omega arith, omega arith)
full_options_fit false false true = (omega arith, omega arith)
full_options_fit false false false = (omega arith, omega arith)
