-- ===== src/Tools.antt =====
-- src/tools.c: the options that the command line programs share. getopt_long and the conversions of
-- libc are parameters. Logging is left out. A result `none` is a failed assertion, an overflow of the log
-- level, which is an int, a null pointer that is read, or fuel that ran out.
pub mod Options
pub mod Ready
pub mod Handled
pub mod Returns
pub mod Tests
use libnrm.Prelude.{
  ◌>>=◌, ℕ, zero, suc, ◌+◌, ◌*◌, Bool, true, false, not, Option, none, some, List, [], ◌∷◌, ◌++◌,
  if◌then◌else◌, ◌==◌,
}
use libnrm.Prelude.Int.{ℤ, pos, negsuc, ◌+ℤ◌, ltb_ℤ}
use libnrm.Prelude.Bytes.{Bytes, ascii}
use libnrm.Error.{ErrorCode, success, einval, returned}
use libnrm.Ext.Doubles.{Doubles}
use libnrm.Ext.Arithmetic.{Arithmetic}
use libnrm.Ext.Utarray.{Utarray}
use libnrm.Ext.Getopt.{LongOption, Getopt}
use libnrm.Vector
use libnrm.Vector.{Vector, Ptr}
use libnrm.Strings.{RealString, fromchar}
use libnrm.Tools.Options.{
  Letter, no_letter, help, version, pub_port, rpc_port, uri, verbose, quiet, level, freq, event,
  inherit, missing, wrong, other, letter, isset, flag_freq, flag_event, flag_inherit,
  full_shortopts, full_longopts,
}
use libnrm.Parsers.{int_max, parse_int, parse_uint, parse_double}

module _ (ua : Utarray) (fp : Doubles) (ar : Arithmetic fp) where
  -- nrm_tools_args_t
  pub record Args : Type 0 where
    pub flags : ℕ
    pub upstream_uri : Ptr Bytes
    pub pub_port : ℤ
    pub rpc_port : ℤ
    pub log_level : ℤ
    pub ask_help : Bool
    pub ask_version : Bool
    pub freq : fp.Double
    pub events : Ptr (Vector ua (Ptr RealString))
    pub inheritance : Bool

  -- What handling the flags, and the default values, make of the arguments.
  unfoldable pub with_defaults : Args → Args
  unfolding isset
  with_defaults args =
      let made = (Vector.create ua (some args.events) 8).1 in
      record args {
        freq = if isset args.flags flag_freq then ar.one else args.freq;
        events =
            if isset args.flags flag_event
            then elim made [ none ↦ args.events | some v ↦ v ]
            else args.events;
        inheritance = if isset args.flags flag_inherit then false else args.inheritance;
        ask_help = false;
        ask_version = false;
        log_level = pos 3;
        pub_port = pos 2345;
        rpc_port = pos 3456;
        upstream_uri = none;
      }

  -- nrm_parse_uint, nrm_parse_int and nrm_parse_double, whose argument is not NULL.
  unfoldable pub parsed :
      {A : Type 0} → (Bytes → A → ErrorCode × A) → Ptr Bytes → A → Option (ErrorCode × A)
  parsed parse none old = none
  parsed parse (some optarg) old = some (parse optarg old)

  -- A failed assertion has no result.
  unfoldable pub asserted : {A : Type 0} → Bool → Option A → Option A
  asserted true r = r
  asserted false r = none

  -- nrm_string_fromchar, of which the bytes are read later
  unfoldable pub uri_of : Ptr Bytes → Ptr Bytes
  uri_of optarg = elim (fromchar optarg) [ none ↦ none | some s ↦ some s.bytes ]

  module _ (strtol : Bytes → ℤ × ℕ) (strtod : Bytes → fp.Double × Bool × ℕ) where
    -- The switch of nrm_tools_parse_args: a code other than success is returned.
    unfoldable pub handle : Letter → Ptr Bytes → Args → Option (ErrorCode × Args)
    unfolding parsed asserted uri_of isset
    handle no_letter optarg args = some (success, args)
    handle help optarg args = some (success, record args { ask_help = true })
    handle version optarg args = some (success, record args { ask_version = true })
    handle pub_port optarg args = do
      (err, n) ← parsed (parse_uint strtol) optarg args.pub_port
      some (err, record args { pub_port = n })
    handle rpc_port optarg args = do
      (err, n) ← parsed (parse_uint strtol) optarg args.rpc_port
      some (err, record args { rpc_port = n })
    handle uri optarg args = some (success, record args { upstream_uri = uri_of optarg })
    handle verbose optarg args =
        if ltb_ℤ args.log_level int_max
        then some (success, record args { log_level = args.log_level +ℤ pos 1 })
        else none
    handle quiet optarg args = some (success, record args { log_level = pos 0 })
    handle level optarg args = do
      (err, n) ← parsed (parse_int strtol) optarg args.log_level
      some (err, record args { log_level = n })
    handle freq optarg args = asserted (isset args.flags flag_freq) (
        parsed (parse_double fp strtod) optarg args.freq
        >>= (λ r. some (r.0, record args { freq = r.1 })))
    handle event optarg args = asserted (isset args.flags flag_event) (
        some (
          success,
          record args { events = (Vector.push_back ua args.events (some (fromchar optarg))).1 },
        ))
    handle inherit optarg args =
        asserted (isset args.flags flag_inherit)
          (some (success, record args { inheritance = true }))
    handle missing optarg args = some (einval, args)
    handle wrong optarg args = some (einval, args)
    handle other optarg args = some (einval, args)

    -- What nrm_tools_parse_args returns when the options are read.
    unfoldable pub finish : ℕ → Args → ℤ × Args
    finish optind args = (
      pos optind,
      elim args.upstream_uri [
        | none ↦ record args { upstream_uri = some (ascii "tcp://127.0.0.1") }
        | some u ↦ args
      ],
    )

    module _ (go : Getopt) where
      -- The loop of nrm_tools_parse_args, on fuel.
      unfoldable pub parse_from : ℕ → Bytes → List LongOption → go.State → Args → Option (ℤ × Args)
      unfolding letter handle finish
      parse_from zero short longs s args = none
      parse_from (suc fuel) short longs s args =
          let (c, optarg, r) = go.getopt_long short longs s in
          elim c [
            | negsuc zero ↦ some (finish (go.optind r) args)
            | negsuc (suc n) ↦ some (returned einval, args)
            | pos n ↦ handle (letter n) optarg args >>= (λ h. elim h.0 [
              | success ↦ parse_from fuel short longs r h.1
              | err ↦ some (returned err, h.1)
            ])
          ]

      -- nrm_tools_parse_args
      unfoldable pub parse_args : List Bytes → Args → Option (ℤ × Args)
      unfolding with_defaults isset full_shortopts full_longopts parse_from
      parse_args argv args =
          let f = isset args.flags flag_freq in
          let e = isset args.flags flag_event in
          let i = isset args.flags flag_inherit in
          parse_from (go.left (go.start argv) + 1) (full_shortopts f e i) (full_longopts f e i)
            (go.start argv) (with_defaults args)
