-- ===== src/Command.antt =====
-- src/binaries/nrmc.c: the commands of the command line client. `argv` starts with the command's own
-- name. A command's outcome is its exit code, the JSON that it prints and the client afterwards;
-- `none` is a failed assertion, a call that does not end, or a behaviour that C does not define.
pub mod Shown
pub mod Tests
pub mod Actions
pub mod Added
use libnrm.Prelude.{
  ◌>>=◌, ℕ, zero, suc, ◌+◌, Bool, true, false, Option, none, some, List, [], ◌∷◌, if◌then◌else◌,
  length,
}
use libnrm.Prelude.Int.{ℤ, pos}
use libnrm.Prelude.Bytes.{Bytes}
use libnrm.Error.{ErrorCode, success}
use libnrm.Ext.Utarray.{Utarray}
use libnrm.Ext.Qsort.{Qsort}
use libnrm.Ext.Doubles.{Doubles}
use libnrm.Ext.Jansson.{Jansson}
use libnrm.Time.{Time}
use libnrm.Scope
use libnrm.Scope.{Scope}
use libnrm.Vector.{Vector, Ptr, elements}
use libnrm.Actuator.{Actuator}
use libnrm.State.{Sensor, Slice}
use libnrm.Message.{
  TargetType, slice_target, sensor_target, scope_target, actuator_target, other_target,
}
use libnrm.Json.{actuator_to_json, scope_to_json, scope_from_json, named_to_json}
use libnrm.Parsers.{parse_uint}
use libnrm.Client.{Transport}
use libnrm.Client.Calls.{
  actuate, add_scope, add_slice, add_sensor, list_actuators, list_scopes, list_sensors, list_slices,
}
use libnrm.Client.Search.{Found, actuators_found, scopes_found, sensors_found, slices_found, find}
use libnrm.Client.Sending.{send_event, send_exit, send_tick}

-- EXIT_FAILURE
abbrev pub exit_failure : ℤ
exit_failure = pos 1

-- The loop of cmd_connect: whether a try succeeds, from the try `i` on, and how many were made. A try
-- is a call of nrm_client_create.
unfoldable pub tries : (ℕ → ErrorCode) → ℕ → ℕ → ℤ × ℕ
tries create zero i = (exit_failure, i)
tries create (suc retries) i =
    let rest = tries create retries (i + 1) in
    elim (create i) [ success ↦ (pos 0, i + 1) | err ↦ rest ]

-- the retries as a size_t; parse_uint gives no negative number
abbrev pub count_of : ℤ → ℕ
count_of (pos n) = n
count_of r = 0

-- `assert(err == 0)` and the loop
unfoldable pub tries_given : (ℕ → ErrorCode) → ErrorCode × ℤ → Option (ℤ × ℕ)
unfolding tries
tries_given create (success, retries) = some (tries create (count_of retries) 0)
tries_given create (err, retries) = none

-- cmd_connect, with its 5 tries by default
unfoldable pub connect : (Bytes → ℤ × ℕ) → (ℕ → ErrorCode) → List Bytes → Option (ℤ × ℕ)
unfolding tries tries_given
connect strtol create [] = some (tries create 5 0)
connect strtol create (name ∷ []) = some (tries create 5 0)
connect strtol create (name ∷ given ∷ []) = tries_given create (parse_uint strtol given (pos 5))
connect strtol create (name ∷ given ∷ more ∷ []) = some (tries create 5 0)
connect strtol create (name ∷ given ∷ more ∷ other ∷ l) = some (exit_failure, 0)

module _ (ua : Utarray) (fp : Doubles) (qs : Qsort ua) (net : Transport fp.Double)
    (js : Jansson fp) where
  abbrev pub Outcome : Type 0
  Outcome = Option (ℤ × List js.Json × net.World)

  -- What a loop over a vector of pointers puts into a JSON array, which refuses NULL values.
  unfoldable pub jsons : {A : Type 0} → (A → Option js.Json) → List (Ptr A) → Option (List js.Json)
  jsons to_json [] = some []
  jsons to_json (none ∷ l) = none
  jsons to_json (some a ∷ l) =
      let rest = jsons to_json l in
      rest >>= (λ k. some (elim (to_json a) [ none ↦ k | some j ↦ j ∷ k ]))

  -- The end of the find and list commands: the objects' JSON is printed as one array.
  unfoldable pub show_all :
      {A : Type 0} → (A → Option js.Json) → Vector ua (Ptr A) → net.World → Outcome
  unfolding jsons
  show_all to_json v w = do l ← jsons to_json (elements ua v); some (pos 0, js.array l ∷ [], w)

  -- What a list command does with its call's result.
  unfoldable pub show_listed :
      {A : Type 0}
      → (A → Option js.Json)
      → Option (ErrorCode × Ptr (Vector ua (Ptr A)) × net.World)
      → Outcome
  unfolding show_all
  show_listed to_json result = do
    r ← result
    elim r.0 [
      | success ↦ r.1 >>= (λ v. show_all to_json v r.2)
      | err ↦ some (exit_failure, [], r.2)
    ]

  -- cmd_list_actuators, cmd_list_scopes, cmd_list_sensors and cmd_list_slices
  unfoldable pub cmd_list_actuators : net.World → Outcome
  unfolding show_listed
  cmd_list_actuators w = show_listed (actuator_to_json fp js ua) (list_actuators ua fp qs net w)

  unfoldable pub cmd_list_scopes : net.World → Outcome
  unfolding show_listed
  cmd_list_scopes w = show_listed (scope_to_json fp js) (list_scopes ua fp qs net w)

  unfoldable pub cmd_list_sensors : net.World → Outcome
  unfolding show_listed
  cmd_list_sensors w = show_listed (λ n. named_to_json fp js n.uuid) (list_sensors ua fp qs net w)

  unfoldable pub cmd_list_slices : net.World → Outcome
  unfolding show_listed
  cmd_list_slices w = show_listed (λ l. named_to_json fp js l.uuid) (list_slices ua fp qs net w)

  -- The vector that nrm_client_find made, as the command takes it.
  unfoldable pub show_found : Found ua fp qs net → net.World → Outcome
  unfolding show_all
  show_found (actuators_found v) w = show_all (actuator_to_json fp js ua) v w
  show_found (scopes_found v) w = show_all (scope_to_json fp js) v w
  show_found (sensors_found v) w = show_all (λ n. named_to_json fp js n.uuid) v w
  show_found (slices_found v) w = show_all (λ l. named_to_json fp js l.uuid) v w

  -- cmd_find_actuator, cmd_find_scope, cmd_find_sensor and cmd_find_slice, by the type they ask for
  unfoldable pub cmd_find : TargetType → net.World → List Bytes → Outcome
  unfolding show_found
  cmd_find t w (cmd ∷ name ∷ l) = do
    r ← find ua fp qs net w t (some name)
    elim r.0 [
      | success ↦ r.1 >>= (λ found. show_found found r.2)
      | err ↦ some (exit_failure, [], r.2)
    ]
  cmd_find t w argv = some (exit_failure, [], w)

  -- What json_dumpf prints of a value; it fails on NULL.
  abbrev pub dumped : Option js.Json → List js.Json
  dumped none = []
  dumped (some j) = j ∷ []

  -- The end of the add commands.
  unfoldable pub show_added :
      {A : Type 0} → (A → Option js.Json) → Option (ErrorCode × Ptr A × net.World) → Outcome
  show_added to_json result = do
    r ← result
    elim r.0 [
      | success ↦ r.1 >>= (λ a. some (pos 0, dumped (to_json a), r.2))
      | err ↦ some (exit_failure, [], r.2)
    ]

  -- cmd_add_scope, with json_loads: the client's part, with the scope that was read, and the whole
  unfoldable pub add_read : ErrorCode × Scope → net.World → Outcome
  unfolding show_added
  add_read (success, place) w =
      show_added (scope_to_json fp js) (add_scope ua fp qs net w (some place))
  add_read (err, place) w = some (exit_failure, [], w)

  unfoldable pub cmd_add_scope : (Bytes → Ptr js.Json) → net.World → List Bytes → Outcome
  unfolding add_read
  cmd_add_scope json_loads w (cmd ∷ name ∷ param ∷ []) =
      add_read (scope_from_json fp js (Scope.create name) (json_loads param)) w
  cmd_add_scope json_loads w argv = some (exit_failure, [], w)

  -- cmd_add_slice and cmd_add_sensor
  unfoldable pub cmd_add_slice : net.World → List Bytes → Outcome
  unfolding show_added
  cmd_add_slice w (cmd ∷ name ∷ l) =
      show_added (λ s. named_to_json fp js s.uuid)
        (add_slice ua fp qs net w (some (record { uuid = name })))
  cmd_add_slice w argv = some (exit_failure, [], w)

  unfoldable pub cmd_add_sensor : net.World → List Bytes → Outcome
  unfolding show_added
  cmd_add_sensor w (cmd ∷ name ∷ l) =
      show_added (λ s. named_to_json fp js s.uuid)
        (add_sensor ua fp qs net w (some (record { uuid = name })))
  cmd_add_sensor w argv = some (exit_failure, [], w)

  -- `assert(len == 1)` and the element
  unfoldable pub only : {A : Type 0} → Vector ua (Ptr A) → Option A
  only v = elim (elements ua v) [ [] ↦ none | p ∷ l ↦ elim l [ [] ↦ p | _ ↦ none ] ]

  -- cmd_actuate, with strtod; the code of the actuation is not looked at
  unfoldable pub cmd_actuate : (Bytes → fp.Double) → net.World → List Bytes → Outcome
  unfolding only
  cmd_actuate strtod w (cmd ∷ name ∷ value ∷ l) = do
    r ← find ua fp qs net w actuator_target (some name)
    elim r.0 [
      | success ↦ r.1 >>= (λ found. elim found [
        | actuators_found v ↦ only v >>= (λ a.
            actuate ua fp qs net r.2 (some a) (strtod value) >>= (λ sent. some (pos 0, [], sent.1)))
        | _ ↦ none
      ])
      | err ↦ some (exit_failure, [], r.2)
    ]
  cmd_actuate strtod w argv = some (exit_failure, [], w)

  -- cmd_send_event, with what `getcpu`, nrm_time_gettime and `rand` give
  unfoldable pub cmd_send_event : ℕ → ℕ → Time → fp.Double → net.World → List Bytes → Outcome
  unfolding only
  cmd_send_event cpu node time value w (cmd ∷ name ∷ place ∷ l) = do
    r ← find ua fp qs net w sensor_target (some name)
    elim r.0 [
      | success ↦ r.1 >>= (λ found. elim found [
        | sensors_found v ↦ only v >>= (λ sensor.
            send_event ua fp qs net r.2 time (some sensor)
              (some (Scope.threadprivate (Scope.create place) cpu node)) value
            >>= (λ sent. some (pos 0, [], sent.1)))
        | _ ↦ none
      ])
      | err ↦ some (exit_failure, [], r.2)
    ]
  cmd_send_event cpu node time value w argv = some (exit_failure, [], w)

  -- cmd_exit and cmd_tick
  unfoldable pub cmd_exit : net.World → Outcome
  cmd_exit w = do r ← send_exit ua fp qs net w; some (pos 0, [], r.1)

  unfoldable pub cmd_tick : net.World → Outcome
  cmd_tick w = do r ← send_tick ua fp qs net w; some (pos 0, [], r.1)

  -- The number of objects that were found.
  unfoldable pub found_length : Found ua fp qs net → ℕ
  found_length (actuators_found v) = length (elements ua v)
  found_length (scopes_found v) = length (elements ua v)
  found_length (sensors_found v) = length (elements ua v)
  found_length (slices_found v) = length (elements ua v)

  -- `ask_all ? len : len > 0 ? 1 : 0`
  unfoldable pub to_remove : Bool → ℕ → ℕ
  to_remove true len = len
  to_remove false zero = 0
  to_remove false (suc len) = 1

  -- cmd_remove_scope, cmd_remove_sensor and cmd_remove_slice after their options: whether all are
  -- asked for, the first argument and the name that is looked for. The loop takes the location of the
  -- pointer in the vector for the object itself.
  unfoldable pub cmd_remove : TargetType → net.World → Bool → Ptr Bytes → Ptr Bytes → Outcome
  unfolding found_length to_remove
  cmd_remove t w ask_all none name = some (exit_failure, [], w)
  cmd_remove t w ask_all (some argument) name = do
    r ← find ua fp qs net w t name
    elim r.0 [
      | success ↦ r.1 >>= (λ found. elim (to_remove ask_all (found_length found)) [
        | zero ↦ some (pos 0, js.array [] ∷ [], r.2)
        | suc n ↦ none
      ])
      | err ↦ some (exit_failure, [], r.2)
    ]
