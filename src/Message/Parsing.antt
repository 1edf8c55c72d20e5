-- ===== src/Message/Parsing.antt =====
-- src/messages.c: the library's objects made from messages, and brought up to date by them. `none` is
-- the reading of a union's member that is not there.
use libnrm.Prelude.{◌>>=◌, Option, none, some, [], ◌∷◌}
use libnrm.Error.{ErrorCode, success, einval}
use libnrm.Ext.Utarray.{Utarray}
use libnrm.Ext.Qsort.{Qsort}
use libnrm.Ext.Doubles.{Doubles}
use libnrm.Bitmap
use libnrm.Scope
use libnrm.Scope.{Scope, map_of, type_cpu, type_numa, type_gpu}
use libnrm.Vector.{Ptr}
use libnrm.Actuator
use libnrm.Actuator.{Actuator}
use libnrm.State.{Sensor, Slice}
use libnrm.Message.{
  ScopeMsg, SensorMsg, SliceMsg, ActuatorMsg, discrete_type, continuous_type, other_actuator,
  no_limits, choices, limits,
}

-- The three calls of nrm_bitmap_from_array on a scope's maps.
unfoldable pub with_maps : Scope → ScopeMsg → Scope
with_maps s msg = record s {
  maps =
      Bitmap.from_array (map_of s type_cpu) msg.cpus
      ∷ Bitmap.from_array (map_of s type_numa) msg.numas
      ∷ Bitmap.from_array (map_of s type_gpu) msg.gpus
      ∷ [];
}

-- nrm_scope_create_frommsg
unfoldable pub scope_create_frommsg : Ptr ScopeMsg → Ptr Scope
unfolding with_maps
scope_create_frommsg none = none
scope_create_frommsg (some msg) = some (with_maps (Scope.create msg.uuid) msg)

-- nrm_scope_update_frommsg
unfoldable pub scope_update_frommsg : Ptr Scope → Ptr ScopeMsg → ErrorCode × Ptr Scope
unfolding with_maps
scope_update_frommsg none msg = (einval, none)
scope_update_frommsg (some s) none = (einval, some s)
scope_update_frommsg (some s) (some msg) = (success, some (with_maps s msg))

-- nrm_sensor_create_frommsg and nrm_slice_create_frommsg
unfoldable pub sensor_create_frommsg : Ptr SensorMsg → Ptr Sensor
sensor_create_frommsg none = none
sensor_create_frommsg (some msg) = some (record { uuid = msg.uuid })

unfoldable pub slice_create_frommsg : Ptr SliceMsg → Ptr Slice
slice_create_frommsg none = none
slice_create_frommsg (some msg) = some (record { uuid = msg.uuid })

-- nrm_sensor_update_frommsg and nrm_slice_update_frommsg
unfoldable pub sensor_update_frommsg : Ptr Sensor → Ptr SensorMsg → ErrorCode × Ptr Sensor
sensor_update_frommsg none msg = (einval, none)
sensor_update_frommsg (some s) none = (einval, some s)
sensor_update_frommsg (some s) (some msg) = (success, some s)

unfoldable pub slice_update_frommsg : Ptr Slice → Ptr SliceMsg → ErrorCode × Ptr Slice
slice_update_frommsg none msg = (einval, none)
slice_update_frommsg (some s) none = (einval, some s)
slice_update_frommsg (some s) (some msg) = (success, some s)

module _ (ua : Utarray) (fp : Doubles) (qs : Qsort ua) where
  -- The client's name and the value, as a message has them; a NULL name leaves the old one.
  unfoldable pub with_fields : Actuator ua fp → ActuatorMsg fp.Double → Actuator ua fp
  with_fields a msg = record a {
    clientid = elim msg.clientid [ none ↦ a.clientid | some c ↦ some c ];
    value = msg.value;
  }

  -- nrm_actuator_continuous_set_limits and nrm_actuator_discrete_set_choices on what a message has
  unfoldable pub with_limits : Actuator ua fp → ActuatorMsg fp.Double → Option (Actuator ua fp)
  with_limits a msg = elim msg.data_case [
    | no_limits ↦ none
    | choices l ↦ none
    | limits min max ↦ (Actuator.set_limits ua fp (some a) min max).1
  ]

  unfoldable pub with_choices : Actuator ua fp → ActuatorMsg fp.Double → Option (Actuator ua fp)
  with_choices a msg = elim msg.data_case [
    | no_limits ↦ none
    | choices l ↦ (Actuator.set_choices ua fp qs (some a) (some l)).1
    | limits min max ↦ none
  ]

  -- nrm_actuator_continuous_create_frommsg
  unfoldable pub continuous_create_frommsg : ActuatorMsg fp.Double → Option (Actuator ua fp)
  unfolding with_fields with_limits
  continuous_create_frommsg msg =
      with_limits (with_fields (Actuator.continuous_create ua fp msg.uuid) msg) msg

  -- nrm_actuator_discrete_create_frommsg; it writes to what it created without a test
  unfoldable pub discrete_create_frommsg : ActuatorMsg fp.Double → Option (Actuator ua fp)
  unfolding with_fields with_choices
  discrete_create_frommsg msg = do
    ret ← Actuator.discrete_create ua fp msg.uuid
    with_choices (with_fields ret msg) msg

  -- nrm_actuator_create_frommsg: NULL for a NULL message or a type that names nothing
  unfoldable pub actuator_create_frommsg :
      Ptr (ActuatorMsg fp.Double) → Option (Ptr (Actuator ua fp))
  unfolding continuous_create_frommsg discrete_create_frommsg
  actuator_create_frommsg none = some none
  actuator_create_frommsg (some msg) = elim msg.type [
    | discrete_type ↦ do ret ← discrete_create_frommsg msg; some (some ret)
    | continuous_type ↦ do ret ← continuous_create_frommsg msg; some (some ret)
    | other_actuator ↦ some none
  ]

  -- nrm_actuator_update_frommsg
  unfoldable pub actuator_update_frommsg :
      Ptr (Actuator ua fp) → Ptr (ActuatorMsg fp.Double) → Option (ErrorCode × Ptr (Actuator ua fp))
  unfolding with_fields with_limits with_choices
  actuator_update_frommsg none msg = some (einval, none)
  actuator_update_frommsg (some a) none = some (einval, some a)
  actuator_update_frommsg (some a) (some msg) =
      let named = with_fields (record a { uuid = msg.uuid }) msg in
      elim msg.type [
        | discrete_type ↦ do ret ← with_choices named msg; some (success, some ret)
        | continuous_type ↦ do ret ← with_limits named msg; some (success, some ret)
        | other_actuator ↦ some (success, some named)
      ]
