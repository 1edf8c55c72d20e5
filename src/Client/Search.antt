-- ===== src/Client/Search.antt =====
-- src/client.c: nrm_client_find, the search for the objects of a kind that have a name.
use libnrm.Prelude.{◌>>=◌, Option, none, some}
use libnrm.Prelude.Bytes.{Bytes}
use libnrm.Error.{ErrorCode, einval}
use libnrm.Ext.Utarray.{Utarray}
use libnrm.Ext.Qsort.{Qsort}
use libnrm.Ext.Doubles.{Doubles}
use libnrm.Scope.{Scope}
use libnrm.Vector.{Vector, Ptr}
use libnrm.Actuator.{Actuator}
use libnrm.State.{Sensor, Slice}
use libnrm.Message.{
  TargetType, slice_target, sensor_target, scope_target, actuator_target, other_target, ListData,
}
use libnrm.Client.{
  Transport, listed_part, slices_in, sensors_in, scopes_in, actuators_in, other_name, with_vector,
}
use libnrm.Client.Calls.{
  exchange, list_request, gather_actuators, gather_scopes, gather_sensors, gather_slices,
}

module _ (ua : Utarray) (fp : Doubles) (qs : Qsort ua) (net : Transport fp.Double) where
  -- The vector that the call makes, by the kind of its objects.
  pub data Found : Type 0 where
    actuators_found : Vector ua (Ptr (Actuator ua fp)) → Found
    scopes_found : Vector ua (Ptr Scope) → Found
    sensors_found : Vector ua (Ptr Sensor) → Found
    slices_found : Vector ua (Ptr Slice) → Found

  -- The assertions on the answer, then the vector and the loop of one kind.
  unfoldable pub find_call :
      {A L : Type 0}
      → net.World
      → TargetType
      → (ListData fp.Double → Option L)
      → (L → Vector ua A → Option (Vector ua A))
      → (Vector ua A → Found)
      → Option (ErrorCode × Ptr Found × net.World)
  unfolding exchange list_request
  find_call w t part loop found = do
    r ← exchange ua fp qs net w (list_request ua fp qs net t)
    d ← listed_part r.0 t
    made ← with_vector ua (λ v. do l ← part d; loop l v)
    some (made.0, elim made.1 [ none ↦ none | some v ↦ some (found v) ], r.1)

  -- nrm_client_find; `other_target` is a type out of range
  unfoldable pub find :
      net.World → TargetType → Ptr Bytes → Option (ErrorCode × Ptr Found × net.World)
  unfolding find_call gather_actuators gather_scopes gather_sensors gather_slices
  find w t none = some (einval, none, w)
  find w actuator_target (some uuid) =
      find_call w actuator_target actuators_in
        (gather_actuators ua fp qs net (other_name (λ m. m.uuid) uuid)) actuators_found
  find w scope_target (some uuid) =
      find_call w scope_target scopes_in
        (gather_scopes ua fp qs net (other_name (λ m. m.uuid) uuid)) scopes_found
  find w sensor_target (some uuid) =
      find_call w sensor_target sensors_in
        (gather_sensors ua fp qs net (other_name (λ m. m.uuid) uuid)) sensors_found
  find w slice_target (some uuid) =
      find_call w slice_target slices_in
        (gather_slices ua fp qs net (other_name (λ m. m.uuid) uuid)) slices_found
  find w other_target (some uuid) = some (einval, none, w)
