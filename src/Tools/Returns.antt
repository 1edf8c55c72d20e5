-- ===== src/Tools/Returns.antt =====
-- What nrm_tools_parse_args of src/tools.c returns: no assertion fails, and its loop ends.
use libnrm.Prelude.{◌>>=◌, ℕ, zero, suc, ◌≡◌, Bool, Option, none, some, List}
use libnrm.Prelude.Int.{ℤ, pos, negsuc}
use libnrm.Prelude.Bytes.{Bytes, ascii}
use libnrm.Error.{ErrorCode, success, einval, returned}
use libnrm.Ext.Doubles.{Doubles}
use libnrm.Ext.Arithmetic.{Arithmetic}
use libnrm.Ext.Utarray.{Utarray}
use libnrm.Ext.Getopt.{LongOption, Getopt}
use libnrm.Parsers.{int_max}
use libnrm.Tools.Options.{
  letter, isset, flag_freq, flag_event, flag_inherit, full_shortopts, full_longopts,
}
use libnrm.Tools.{Args, handle, finish, parse_from}
use libnrm.Tools.Handled.{HasInts, IsRead}

module _ (ua : Utarray) (fp : Doubles) (ar : Arithmetic fp) (strtol : Bytes → ℤ × ℕ)
    (strtod : Bytes → fp.Double × Bool × ℕ) where
  abbrev pub connected : Args ua fp ar → Args ua fp ar
  connected a = record a {
    upstream_uri = some (elim a.upstream_uri [ none ↦ ascii "tcp://127.0.0.1" | some u ↦ u ]);
  }

  -- The ports and the log level are in the ranges of their types.
  abbrev pub IsFitting : Args ua fp ar → Type 0
  IsFitting = HasInts ua fp ar strtol strtod

  module _ (go : Getopt) (flags : ℕ) where
    abbrev short : Bytes
    short =
        full_shortopts (isset flags flag_freq) (isset flags flag_event) (isset flags flag_inherit)

    abbrev longs : List LongOption
    longs =
        full_longopts (isset flags flag_freq) (isset flags flag_event) (isset flags flag_inherit)

    -- Options that getopt_long gives, each handled with success, lead from one state to another.
    pub data IsReached : go.State → Args ua fp ar → go.State → Args ua fp ar → Type 0 where
      here : {s : go.State} {a : Args ua fp ar} → IsReached s a s a
      after :
          {s r t : go.State} {a b c : Args ua fp ar} (n : ℕ) (arg : Option Bytes)
          → go.getopt_long short longs s ≡ (pos n, arg, r)
          → IsRead ua fp ar strtol strtod n arg a success b
          → IsReached r b t c
          → IsReached s a t c

    -- The results from a state: the options end, one is refused, or the log level overflows.
    pub data IsOutcome (s : go.State) (a : Args ua fp ar)
        : Option (ℤ × Args ua fp ar) → Type 0 where
      ended :
          {t : go.State} {b : Args ua fp ar} (arg : Option Bytes) (r : go.State)
          → IsReached s a t b
          → go.getopt_long short longs t ≡ (negsuc 0, arg, r)
          → IsFitting b
          → IsOutcome s a (some (pos (go.optind r), connected b))
      refused :
          {t : go.State} {b c : Args ua fp ar} (n : ℕ) (arg : Option Bytes) (r : go.State)
          (err : ErrorCode) (m : ℕ)
          → IsReached s a t b
          → go.getopt_long short longs t ≡ (pos n, arg, r)
          → IsRead ua fp ar strtol strtod n arg b err c
          → returned err ≡ negsuc m
          → IsFitting c
          → IsOutcome s a (some (negsuc m, c))
      overflow :
          {t : go.State} {b : Args ua fp ar} (n : ℕ) (arg : Option Bytes) (r : go.State)
          → IsReached s a t b
          → go.getopt_long short longs t ≡ (pos n, arg, r)
          → n ≡ 118
          → b.log_level ≡ int_max
          → IsOutcome s a none

    abbrev Returns : ℕ → go.State → Args ua fp ar → Type 0
    Returns fuel st a = IsOutcome st a (parse_from ua fp ar strtol strtod go fuel short longs st a)

    unfoldable chosen :
        Option (ℤ × Args ua fp ar) → ErrorCode × Args ua fp ar → Option (ℤ × Args ua fp ar)
    chosen rest h = elim h.0 [ success ↦ rest | err ↦ some (returned err, h.1) ]

    unfoldable taken : ℕ → Args ua fp ar → ℤ × Option Bytes × go.State → Option (ℤ × Args ua fp ar)
    taken fuel a (c, optarg, r) = elim c [
      | negsuc zero ↦ some (finish ua fp ar strtol strtod (go.optind r) a)
      | negsuc (suc n) ↦ some (returned einval, a)
      | pos n ↦ handle ua fp ar strtol strtod (letter n) optarg a >>= (λ h. elim h.0 [
        | success ↦ parse_from ua fp ar strtol strtod go fuel short longs r h.1
        | err ↦ some (returned err, h.1)
      ])
    ]
