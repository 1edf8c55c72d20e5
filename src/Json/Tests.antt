-- ===== src/Json/Tests.antt =====
-- The theorems on JSON, with JSON as a data type.
use libnrm.Prelude.{
  ℕ, zero, suc, ◌≡◌, refl, ap, inr, Option, none, some, [], ◌∷◌, replicate, length-replicate,
  length, ◌==◌, if◌then◌else◌, arith,
}
use libnrm.Prelude.Bytes.{Bytes}
use libnrm.Ext.Jansson.{IsAscii}
use libnrm.Time.{Time, IsNormal}
use libnrm.Json.Times.{Numerals, time_to_json, time_from_json, time_from_json-time_to_json}
use libnrm.Prelude.Int.{ℤ, pos, negsuc}
use libnrm.Error.{success}
use libnrm.Ext.Models.{list_array}
use libnrm.Ext.Integers.{integers}
use libnrm.Ext.JsonValues.{json_values, Value}
use libnrm.Vector.{Vector}
use libnrm.Scope
use libnrm.State.Tests.{cap}
use libnrm.Client.Tests.{place, place-IsWhole}
use libnrm.Json.{scope_to_json, scope_from_json, actuator_to_json, actuator_from_json}
use libnrm.Json.Scopes.{scope_from_json-scope_to_json}
use libnrm.Json.Actuators.{actuator_from_json-actuator_to_json}

scope_from_json-scope_to_json_example :
    (j : Value integers) × (scope_to_json integers (json_values integers) place ≡ some j)
    × (scope_from_json integers (json_values integers) (Scope.create []) (some j)
        ≡ (success, place))
scope_from_json-scope_to_json_example =
    scope_from_json-scope_to_json integers (json_values integers) place (Scope.create []) tt
      place-IsWhole

abbrev watts : Vector list_array ℤ
watts = record { array = pos 40 ∷ pos 20 ∷ []; sz = 8 }

actuator_from_json-actuator_to_json_example :
    (j : Value integers) × (actuator_to_json integers (json_values integers) list_array cap
      ≡ some j)
    × (actuator_from_json integers (json_values integers) list_array cap (some j) ≡ none)
actuator_from_json-actuator_to_json_example =
    actuator_from_json-actuator_to_json integers (json_values integers) list_array cap cap tt tt

-- Numbers as a sign and as many ones.
abbrev ones : ℤ → Bytes
ones (pos n) = 43 ∷ replicate n 49
ones (negsuc n) = 45 ∷ replicate n 49

abbrev counted : Bytes → Option ℤ
counted [] = none
counted (d ∷ l) = if d == 43 then some (pos (length l)) else some (negsuc (length l))

ones-IsAscii : (n : ℕ) → IsAscii (replicate n 49)
ones-IsAscii zero = tt
ones-IsAscii (suc n) = (omega arith, omega arith, ones-IsAscii n)

abbrev tallies : Numerals
tallies = record {
  printed = ones;
  scanned = counted;
  printed-IsAscii = signed;
  scanned-printed = back;
}
  where
    signed : (n : ℤ) → IsAscii (ones n)
    signed (pos n) = (omega arith, omega arith, ones-IsAscii n)
    signed (negsuc n) = (omega arith, omega arith, ones-IsAscii n)

    back : (n : ℤ) → counted (ones n) ≡ some n
    back (pos n) = ap (λ k. some (pos k)) (length-replicate n 49)
    back (negsuc n) = ap (λ k. some (negsuc k)) (length-replicate n 49)

abbrev moment : Time
moment = record { sec = pos 0; nsec = pos 7 }

abbrev moment-IsNormal : IsNormal moment
moment-IsNormal = record { below = (omega arith, omega arith); signs = inr (refl, refl) }

time_from_json-time_to_json_example :
    (j : Value integers) × (time_to_json integers (json_values integers) tallies moment ≡ some j)
    × (time_from_json integers
          (json_values integers)
          tallies
          (record { sec = pos 1; nsec = pos 2 })
          (some j)
        ≡ some (success, moment))
time_from_json-time_to_json_example =
    time_from_json-time_to_json integers (json_values integers) tallies moment
      (record { sec = pos 1; nsec = pos 2 }) moment-IsNormal
