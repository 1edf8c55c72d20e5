-- ===== src/Json/Times.antt =====
-- The JSON of times in src/utils/timers.c: a string of the nanoseconds, as snprintf and sscanf of libc
-- write and read numbers. A whole result `none` is a failed assertion.
use libnrm.Prelude.{◌>>=◌, bind_some, ◌≡◌, ap, ◌∙◌, Option, none, some}
use libnrm.Prelude.Int.{ℤ}
use libnrm.Prelude.Bytes.{Bytes}
use libnrm.Error.{ErrorCode, success, failure}
use libnrm.Ext.Doubles.{Doubles}
use libnrm.Ext.Jansson.{Jansson, IsAscii}
use libnrm.Time.{Time, tons, fromns, IsNormal, fromns-tons}

-- snprintf and sscanf with PRId64; `none` is a text without a number.
pub record Numerals : Type 0 where
  pub printed : ℤ → Bytes
  pub scanned : Bytes → Option ℤ
  pub printed-IsAscii : (n : ℤ) → IsAscii (printed n)
  pub scanned-printed : (n : ℤ) → scanned (printed n) ≡ some n

module _ (fp : Doubles) (js : Jansson fp) (nl : Numerals) where
  -- nrm_time_to_json
  unfoldable pub time_to_json : Time → Option js.Json
  time_to_json time = js.string (nl.printed (tons time))

  -- nrm_time_from_json, with the time that was there before
  unfoldable pub time_from_json : Time → Option js.Json → Option (ErrorCode × Time)
  time_from_json time json = elim (json >>= js.string_value) [
    | none ↦ some (failure, time)
    | some s ↦ do ns ← nl.scanned s; some (success, fromns ns)
  ]

  -- A time whose nanoseconds are below a second, and have the sign of its seconds, is written as JSON, and
  -- nrm_time_from_json reads it back, whatever the time was before.
  pub time_from_json-time_to_json :
      (time old : Time)
      → IsNormal time
      → (j : js.Json) × (time_to_json time ≡ some j)
        × (time_from_json old (some j) ≡ some (success, time))
  unfolding time_to_json time_from_json
  time_from_json-time_to_json time old h =
      let (j, made, read) =
        js.string_lem (nl.printed (tons time))
          (js.text_of_ascii _ (nl.printed-IsAscii (tons time))) in
      (
        j,
        made,
        ap
              (λ o. elim o [
                | none ↦ some (failure, old)
                | some s ↦ nl.scanned s >>= (λ ns. some (success, fromns ns))
              ])
              read
            ∙ bind_some (nl.scanned-printed (tons time)) (λ ns. some (success, fromns ns))
            ∙ ap (λ t. some (success, t)) (fromns-tons time h),
      )
