-- ===== src/Tools/Handled.antt =====
-- What the switch of nrm_tools_parse_args of src/tools.c does on what getopt_long gives.
-- An option is told by its character, as in the help text.
use libnrm.Prelude.{
  ℕ, ◌≡◌, ◌≢◌, refl, sym, ◌∙◌, ◌⊎◌, ◌==◌, ==_iff, if◌then◌else◌, false, inl, inr, Bool, true, ◌&&◌,
  Option, none, some, arith, Bool-cases,
}
use libnrm.Prelude.Int.{ℤ, pos, ◌+ℤ◌, ltb_ℤ}
use libnrm.Prelude.Bytes.{Bytes}
use libnrm.Error.{ErrorCode, success, einval}
use libnrm.Ext.Doubles.{Doubles}
use libnrm.Ext.Arithmetic.{Arithmetic}
use libnrm.Ext.Utarray.{Utarray}
use libnrm.Vector
use libnrm.Vector.{Ptr}
use libnrm.Strings.{fromchar, frombuf}
use libnrm.Parsers.{parse_int, parse_uint, parse_double, int_max}
use libnrm.Tools.Options.{
  Letter, no_letter, help, version, pub_port, rpc_port, uri, verbose, quiet, level, freq, event,
  inherit, missing, wrong, other, letter, isset, flag_freq, flag_event, flag_inherit,
}
use libnrm.Tools.{Args, handle, parsed, asserted, uri_of}
use libnrm.Tools.Ready.{
  ready, IsPort, parse_uint-IsPort, IsInt, parse_int-IsInt, IsInt-more, greatest,
}

not_given : (s : Bytes) → ◌≢◌ {A = Option Bytes} none (some s)
not_given s h = ground arith

never : ◌≢◌ {A = Bool} false true
never h = ground arith

and_left : (a b : Bool) → (a && b) ≡ true → a ≡ true
and_left a b h = ground arith

and_right : (a b : Bool) → (a && b) ≡ true → b ≡ true
and_right a b h = ground arith

-- The character of a case.
abbrev code : ℕ → Letter → ℕ
code n no_letter = 0
code n help = 104
code n version = 86
code n pub_port = 112
code n rpc_port = 114
code n uri = 117
code n verbose = 118
code n quiet = 113
code n level = 108
code n freq = 102
code n event = 101
code n inherit = 105
code n missing = 58
code n wrong = 63
code n other = n

one_case :
    (n k : ℕ) (l rest : Letter)
    → code n l ≡ k
    → code n rest ≡ n
    → code n (if n == k then l else rest) ≡ n
one_case n k l rest e h = elim (Bool-cases (n == k)) [
  | inl same ↦ rw same (e ∙ sym ((==_iff n k).0 same))
  | inr not ↦ rw not h
]

pub code-letter : (n : ℕ) → code n (letter n) ≡ n
unfolding letter
code-letter n = one_case n 0 no_letter _ refl (
    one_case n 104 help _ refl (
      one_case n 86 version _ refl (
        one_case n 112 pub_port _ refl (
          one_case n 114 rpc_port _ refl (
            one_case n 117 uri _ refl (
              one_case n 118 verbose _ refl (
                one_case n 113 quiet _ refl (
                  one_case n 108 level _ refl (
                    one_case n 102 freq _ refl (
                      one_case n 101 event _ refl (
                        one_case n 105 inherit _ refl (
                          one_case n 58 missing _ refl (one_case n 63 wrong _ refl refl)))))))))))))

module _ (ua : Utarray) (fp : Doubles) (ar : Arithmetic fp) (strtol : Bytes → ℤ × ℕ)
    (strtod : Bytes → fp.Double × Bool × ℕ) where
  -- The ports and the log level are in the ranges of their types.
  abbrev pub HasInts : Args ua fp ar → Type 0
  HasInts a = IsPort a.pub_port × IsPort a.rpc_port × IsInt a.log_level

  -- What each option does: its character, its argument, what was known, the error and what is known
  -- then.
  pub data IsRead : ℕ → Option Bytes → Args ua fp ar → ErrorCode → Args ua fp ar → Type 0 where
    asks_help :
        {arg : Option Bytes} {a : Args ua fp ar}
        → IsRead 104 arg a success (record a { ask_help = true })
    asks_version :
        {arg : Option Bytes} {a : Args ua fp ar}
        → IsRead 86 arg a success (record a { ask_version = true })
    names_pub :
        {t : Bytes} {a : Args ua fp ar}
        → IsRead 112
            (some t)
            a
            (parse_uint strtol t a.pub_port).0
            (record a { pub_port = (parse_uint strtol t a.pub_port).1 })
    names_rpc :
        {t : Bytes} {a : Args ua fp ar}
        → IsRead 114
            (some t)
            a
            (parse_uint strtol t a.rpc_port).0
            (record a { rpc_port = (parse_uint strtol t a.rpc_port).1 })
    names_uri :
        {t : Bytes} {a : Args ua fp ar}
        → IsRead 117 (some t) a success (record a { upstream_uri = some t })
    says_more :
        {arg : Option Bytes} {a : Args ua fp ar}
        → ltb_ℤ a.log_level int_max ≡ true
        → IsRead 118 arg a success (record a { log_level = a.log_level +ℤ pos 1 })
    is_quiet :
        {arg : Option Bytes} {a : Args ua fp ar}
        → IsRead 113 arg a success (record a { log_level = pos 0 })
    names_level :
        {t : Bytes} {a : Args ua fp ar}
        → IsRead 108
            (some t)
            a
            (parse_int strtol t a.log_level).0
            (record a { log_level = (parse_int strtol t a.log_level).1 })
    names_freq :
        {t : Bytes} {a : Args ua fp ar}
        → IsRead 102
            (some t)
            a
            (parse_double fp strtod t a.freq).0
            (record a { freq = (parse_double fp strtod t a.freq).1 })
    names_event :
        {t : Bytes} {a : Args ua fp ar}
        → IsRead 101
            (some t)
            a
            success
            (record a { events = (Vector.push_back ua a.events (some (some (frombuf t)))).1 })
    inherits :
        {arg : Option Bytes} {a : Args ua fp ar}
        → IsRead 105 arg a success (record a { inheritance = true })
    lacks_argument : {arg : Option Bytes} {a : Args ua fp ar} → IsRead 58 arg a einval a
    is_unknown : {arg : Option Bytes} {a : Args ua fp ar} → IsRead 63 arg a einval a

  -- The case is read as the option says, or one more is asked for than the greatest log level.
  abbrev pub Handled : ℕ → Letter → Option Bytes → Args ua fp ar → Type 0
  Handled n l arg a =
      ((err : ErrorCode) × (b : Args ua fp ar) × (handle ua fp ar strtol strtod l arg a
          ≡ some (err, b))
        × IsRead (code n l) arg a err b
        × (b.flags ≡ a.flags)
        × HasInts b)
      ⊎ ((handle ua fp ar strtol strtod l arg a ≡ none)
          × (code n l ≡ 118)
          × (a.log_level ≡ int_max))

  pub handle-Handled :
      (n : ℕ) (l : Letter) (has : Bool) (arg : Option Bytes) (a : Args ua fp ar)
      → ready
          (isset a.flags flag_freq)
          (isset a.flags flag_event)
          (isset a.flags flag_inherit)
          l
          has
        ≡ true
      → (has ≡ true → (s : Bytes) × (arg ≡ some s))
      → HasInts a
      → Handled n l arg a
  unfolding handle ready parsed asserted uri_of fromchar frombuf
  handle-Handled n help has arg a h g s = inl (_, _, refl, asks_help, refl, s)
  handle-Handled n version has arg a h g s = inl (_, _, refl, asks_version, refl, s)
  handle-Handled n missing has arg a h g s = inl (_, _, refl, lacks_argument, refl, s)
  handle-Handled n wrong has arg a h g s = inl (_, _, refl, is_unknown, refl, s)
  handle-Handled n no_letter has arg a h g s = absurd (never h)
  handle-Handled n other has arg a h g s = absurd (never h)
  handle-Handled n quiet has arg a h g s =
      inl (_, _, refl, is_quiet, refl, (s.0, s.1, (refl, refl)))
  handle-Handled n verbose has arg a h g s = elim (Bool-cases (ltb_ℤ a.log_level int_max)) [
    | inl e ↦ inl (
      success,
      record a { log_level = a.log_level +ℤ pos 1 },
      rw e refl,
      says_more e,
      refl,
      (s.0, s.1, IsInt-more a.log_level s.2 e),
    )
    | inr e ↦ inr (rw e refl, refl, greatest a.log_level s.2 e)
  ]
  handle-Handled n pub_port has none a h g s = absurd (not_given _ (g h).1)
  handle-Handled n pub_port has (some t) a h g s =
      inl (_, _, refl, names_pub, refl, (parse_uint-IsPort strtol t a.pub_port s.0, s.1, s.2))
  handle-Handled n rpc_port has none a h g s = absurd (not_given _ (g h).1)
  handle-Handled n rpc_port has (some t) a h g s =
      inl (_, _, refl, names_rpc, refl, (s.0, parse_uint-IsPort strtol t a.rpc_port s.1, s.2))
  handle-Handled n level has none a h g s = absurd (not_given _ (g h).1)
  handle-Handled n level has (some t) a h g s =
      inl (_, _, refl, names_level, refl, (s.0, s.1, parse_int-IsInt strtol t a.log_level s.2))
  handle-Handled n uri has none a h g s = absurd (not_given _ (g h).1)
  handle-Handled n uri has (some t) a h g s = inl (_, _, refl, names_uri, refl, s)
  handle-Handled n freq has none a h g s = absurd (not_given _ (g (and_right _ _ h)).1)
  handle-Handled n event has none a h g s = absurd (not_given _ (g (and_right _ _ h)).1)
  handle-Handled n freq has (some t) a h g s = inl (
    (parse_double fp strtod t a.freq).0,
    record a { freq = (parse_double fp strtod t a.freq).1 },
    rw (and_left (isset a.flags flag_freq) has h) refl,
    names_freq,
    refl,
    s,
  )
  handle-Handled n event has (some t) a h g s = inl (
    success,
    record a { events = (Vector.push_back ua a.events (some (some (frombuf t)))).1 },
    rw (and_left (isset a.flags flag_event) has h) refl,
    names_event,
    refl,
    s,
  )
  handle-Handled n inherit has arg a h g s =
      inl (success, record a { inheritance = true }, rw h refl, inherits, refl, s)
