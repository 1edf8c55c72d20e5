-- ===== src/Client/Calls.antt =====
-- src/client.c: the client's calls, one definition each, on an object that may be NULL.
use libnrm.Prelude.{◌>>=◌, Bool, Option, none, some, List}
use libnrm.Error.{ErrorCode, success, einval}
use libnrm.Ext.Utarray.{Utarray}
use libnrm.Ext.Qsort.{Qsort}
use libnrm.Ext.Doubles.{Doubles}
use libnrm.Scope.{Scope}
use libnrm.Vector.{Vector, Ptr}
use libnrm.Actuator
use libnrm.Actuator.{Actuator}
use libnrm.State.{Sensor, Slice}
use libnrm.Message
use libnrm.Message.{
  Message, TargetType, slice_target, sensor_target, scope_target, actuator_target, other_target,
  ack_type, list_type, add_type, remove_type, events_type, actuate_type, exit_type, tick_type,
  ScopeMsg, SensorMsg, SliceMsg, ActuatorMsg, EventMsg, TimeserieMsg, AddData, slice_data,
  sensor_data, scope_data, actuator_data, series, actuation, created, set_remove, set_actuate,
}
use libnrm.Message.Parsing.{
  scope_create_frommsg, scope_update_frommsg, sensor_create_frommsg, sensor_update_frommsg,
  slice_create_frommsg, slice_update_frommsg, actuator_create_frommsg, actuator_update_frommsg,
}
use libnrm.Client.{
  Transport, added_part, listed_part, slices_in, sensors_in, scopes_in, actuators_in,
  nothing_skipped, gather, with_vector,
}

module _ (ua : Utarray) (fp : Doubles) (qs : Qsort ua) (net : Transport fp.Double) where
  abbrev Msg : Type 0
  Msg = Message fp.Double

  abbrev World : Type 0
  World = net.World

  -- The middle of a call: the request goes out, and the answer is waited for.
  unfoldable pub exchange : World → Msg → Option (Msg × World)
  exchange w msg = do after ← net.role_send w msg; net.role_recv after

  -- A call whose answer is to be an acknowledgement.
  unfoldable pub acknowledged : World → Msg → Option (ErrorCode × World)
  unfolding exchange
  acknowledged w msg = do
    r ← exchange w msg
    elim r.0.type [ ack_type ↦ some (success, r.1) | _ ↦ none ]

  -- nrm_client_actuate
  unfoldable pub actuate : World → Ptr (Actuator ua fp) → fp.Double → Option (ErrorCode × World)
  unfolding acknowledged
  actuate w none value = some (einval, w)
  actuate w (some a) value = elim (Actuator.validate_value ua fp a value) [
    | success ↦ acknowledged w (set_actuate (created actuate_type) a.uuid value)
    | err ↦ some (err, w)
  ]

  -- nrm_client_add_actuator
  unfoldable pub add_actuator :
      World → Ptr (Actuator ua fp) → Option (ErrorCode × Ptr (Actuator ua fp) × World)
  unfolding exchange
  add_actuator w none = some (einval, none, w)
  add_actuator w (some a) = do
    r ← exchange w (Message.set_add_actuator ua fp (created add_type) a)
    part ← added_part r.0 actuator_target
    msg ← elim part [ actuator_data m ↦ some m | _ ↦ none ]
    updated ← actuator_update_frommsg ua fp qs (some a) (some msg)
    some (success, updated.1, r.1)

  -- nrm_client_add_scope
  unfoldable pub add_scope : World → Ptr Scope → Option (ErrorCode × Ptr Scope × World)
  unfolding exchange
  add_scope w none = some (einval, none, w)
  add_scope w (some s) = do
    r ← exchange w (Message.set_add_scope ua fp (created add_type) s)
    part ← added_part r.0 scope_target
    msg ← elim part [ scope_data m ↦ some m | _ ↦ none ]
    some (success, (scope_update_frommsg (some s) (some msg)).1, r.1)

  -- nrm_client_add_slice
  unfoldable pub add_slice : World → Ptr Slice → Option (ErrorCode × Ptr Slice × World)
  unfolding exchange
  add_slice w none = some (einval, none, w)
  add_slice w (some s) = do
    r ← exchange w (Message.set_add_slice ua fp (created add_type) s)
    part ← added_part r.0 slice_target
    msg ← elim part [ slice_data m ↦ some m | _ ↦ none ]
    some (success, (slice_update_frommsg (some s) (some msg)).1, r.1)

  -- nrm_client_add_sensor
  unfoldable pub add_sensor : World → Ptr Sensor → Option (ErrorCode × Ptr Sensor × World)
  unfolding exchange
  add_sensor w none = some (einval, none, w)
  add_sensor w (some s) = do
    r ← exchange w (Message.set_add_sensor ua fp (created add_type) s)
    part ← added_part r.0 sensor_target
    msg ← elim part [ sensor_data m ↦ some m | _ ↦ none ]
    some (success, (sensor_update_frommsg (some s) (some msg)).1, r.1)

  -- The loops over an answer's objects, with what they skip.
  unfoldable pub gather_actuators :
      (ActuatorMsg fp.Double → Bool)
      → List (ActuatorMsg fp.Double)
      → Vector ua (Ptr (Actuator ua fp))
      → Option (Vector ua (Ptr (Actuator ua fp)))
  gather_actuators skip l v = gather ua (λ m. actuator_create_frommsg ua fp qs (some m)) skip v l

  unfoldable pub gather_scopes :
      (ScopeMsg → Bool) → List ScopeMsg → Vector ua (Ptr Scope) → Option (Vector ua (Ptr Scope))
  gather_scopes skip l v = gather ua (λ m. some (scope_create_frommsg (some m))) skip v l

  unfoldable pub gather_sensors :
      (SensorMsg → Bool) → List SensorMsg → Vector ua (Ptr Sensor) → Option (Vector ua (Ptr Sensor))
  gather_sensors skip l v = gather ua (λ m. some (sensor_create_frommsg (some m))) skip v l

  unfoldable pub gather_slices :
      (SliceMsg → Bool) → List SliceMsg → Vector ua (Ptr Slice) → Option (Vector ua (Ptr Slice))
  gather_slices skip l v = gather ua (λ m. some (slice_create_frommsg (some m))) skip v l

  -- The requests of the four kinds of list.
  unfoldable pub list_request : TargetType → Msg
  list_request slice_target = Message.set_list_slices ua fp (created list_type) none
  list_request sensor_target = Message.set_list_sensors ua fp (created list_type) none
  list_request scope_target = Message.set_list_scopes ua fp (created list_type) none
  list_request actuator_target = Message.set_list_actuators ua fp (created list_type) none
  list_request other_target = created list_type

  -- A call for a list: the vector, and then the assertions on the answer and the loop.
  unfoldable pub list_call :
      {A L : Type 0}
      → World
      → TargetType
      → (Message.ListData fp.Double → Option L)
      → (L → Vector ua A → Option (Vector ua A))
      → Option (ErrorCode × Ptr (Vector ua A) × World)
  unfolding exchange list_request
  list_call w t part loop = do
    r ← exchange w (list_request t)
    made ← with_vector ua (λ v. do d ← listed_part r.0 t; l ← part d; loop l v)
    some (made.0, made.1, r.1)

  -- nrm_client_list_actuators and the like, with a location for the result
  unfoldable pub list_actuators :
      World → Option (ErrorCode × Ptr (Vector ua (Ptr (Actuator ua fp))) × World)
  unfolding list_call gather_actuators
  list_actuators w = list_call w actuator_target actuators_in (gather_actuators nothing_skipped)

  unfoldable pub list_scopes : World → Option (ErrorCode × Ptr (Vector ua (Ptr Scope)) × World)
  unfolding list_call gather_scopes
  list_scopes w = list_call w scope_target scopes_in (gather_scopes nothing_skipped)

  unfoldable pub list_sensors : World → Option (ErrorCode × Ptr (Vector ua (Ptr Sensor)) × World)
  unfolding list_call gather_sensors
  list_sensors w = list_call w sensor_target sensors_in (gather_sensors nothing_skipped)

  unfoldable pub list_slices : World → Option (ErrorCode × Ptr (Vector ua (Ptr Slice)) × World)
  unfolding list_call gather_slices
  list_slices w = list_call w slice_target slices_in (gather_slices nothing_skipped)
