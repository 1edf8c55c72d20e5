-- ===== src/Client.antt =====
-- src/client.c: the calls that a program makes to the daemon, over a role that sends and receives
-- messages. `none` is a failed assertion, a message that never comes, or a behaviour that C does
-- not define. The client is there; the lock around the role and the logging are left out.
pub mod Calls
pub mod Search
pub mod Sending
pub mod Link
pub mod Gather
pub mod Connected
pub mod Answers
pub mod Listed
pub mod Finding
pub mod Adding
pub mod Events
pub mod Orders
pub mod Tests
pub mod Sessions
use libnrm.Prelude.{◌>>=◌, ℕ, Bool, true, false, Option, none, some, List, [], ◌∷◌, if◌then◌else◌}
use libnrm.Prelude.Int.{ℤ, pos}
use libnrm.Prelude.Bytes.{Bytes, bytes_eq}
use libnrm.Error.{ErrorCode, success, einval}
use libnrm.Ext.Utarray.{Utarray}
use libnrm.Ext.Qsort.{Qsort}
use libnrm.Ext.Doubles.{Doubles}
use libnrm.Time.{Time, fromns}
use libnrm.Scope.{Scope}
use libnrm.Timeserie
use libnrm.Vector
use libnrm.Vector.{Vector, Ptr}
use libnrm.Actuator
use libnrm.Actuator.{Actuator}
use libnrm.State.{Sensor, Slice}
use libnrm.Message
use libnrm.Message.{
  Message, TargetType, slice_target, sensor_target, scope_target, actuator_target, other_target,
  ack_type, list_type, add_type, remove_type, events_type, actuate_type, exit_type, tick_type,
  ScopeMsg, SensorMsg, SliceMsg, ActuatorMsg, EventMsg, TimeserieMsg, AddData, slice_data,
  sensor_data, scope_data, actuator_data, ListData, slices_data, sensors_data, scopes_data,
  actuators_data, list_of_objects, addition, series, actuation, created, set_remove, set_actuate,
}
use libnrm.Message.Parsing.{
  scope_create_frommsg, scope_update_frommsg, sensor_create_frommsg, sensor_update_frommsg,
  slice_create_frommsg, slice_update_frommsg, actuator_create_frommsg, actuator_update_frommsg,
}

-- The role of a client, as nrm_role_send and nrm_role_recv use it.
pub record Transport (D : Type 0) : Type 1 where
  pub World : Type 0
  pub role_send : World → Message D → Option World
  pub role_recv : World → Option (Message D × World)

-- `msg->list->type == type`
unfoldable pub same_target : TargetType → TargetType → Bool
same_target slice_target slice_target = true
same_target sensor_target sensor_target = true
same_target scope_target scope_target = true
same_target actuator_target actuator_target = true
same_target s t = false

module _ {D : Type 0} where
  -- What the assertions on an answer leave: the union's part of an `add` or a `list`.
  unfoldable pub added_part : Message D → TargetType → Option (AddData D)
  added_part msg t = elim msg.type [
    | add_type ↦ elim msg.data_case [
      | addition m ↦ if same_target m.type t then some m.data_case else none
      | _ ↦ none
    ]
    | _ ↦ none
  ]

  unfoldable pub listed_part : Message D → TargetType → Option (ListData D)
  listed_part msg t = elim msg.type [
    | list_type ↦ elim msg.data_case [
      | list_of_objects m ↦ if same_target m.type t then some m.data_case else none
      | _ ↦ none
    ]
    | _ ↦ none
  ]

  -- The members of the unions, as they are read.
  unfoldable pub slices_in : ListData D → Option (List SliceMsg)
  slices_in d = elim d [ slices_data l ↦ some l | _ ↦ none ]

  unfoldable pub sensors_in : ListData D → Option (List SensorMsg)
  sensors_in d = elim d [ sensors_data l ↦ some l | _ ↦ none ]

  unfoldable pub scopes_in : ListData D → Option (List ScopeMsg)
  scopes_in d = elim d [ scopes_data l ↦ some l | _ ↦ none ]

  unfoldable pub actuators_in : ListData D → Option (List (ActuatorMsg D))
  actuators_in d = elim d [ actuators_data l ↦ some l | _ ↦ none ]

-- Which elements of an answer a loop skips: none, or those with another name.
abbrev pub nothing_skipped : {M : Type 0} → M → Bool
nothing_skipped m = false

unfoldable pub other_name : {M : Type 0} → (M → Bytes) → Bytes → M → Bool
other_name uuid_of uuid m = if bytes_eq uuid (uuid_of m) then false else true

module _ (ua : Utarray) where
  -- One round of the loop over an answer's objects, and the loop.
  unfoldable pub gather_one :
      {A M : Type 0} → (M → Option A) → (M → Bool) → Vector ua A → M → Option (Vector ua A)
  gather_one make skip v m =
      if skip m then some v else (make m >>= (λ s. some (Vector.append_one ua v s).1))

  unfoldable pub gather :
      {A M : Type 0} → (M → Option A) → (M → Bool) → Vector ua A → List M → Option (Vector ua A)
  unfolding gather_one
  gather make skip v [] = some v
  gather make skip v (m ∷ l) = do v' ← gather_one make skip v m; gather make skip v' l

  -- What follows the creation of a vector: its code, or the loops on what it made. The location of
  -- the result is only written to at the end.
  unfoldable pub on_created :
      {A : Type 0}
      → ErrorCode × Ptr (Ptr (Vector ua A))
      → (Vector ua A → Option (Vector ua A))
      → Option (ErrorCode × Ptr (Vector ua A))
  on_created (success, some (some v)) fill = fill v >>= (λ ret. some (success, some ret))
  on_created (success, some none) fill = none
  on_created (success, none) fill = none
  on_created (err, made) fill = some (err, none)

  unfoldable pub with_vector :
      {A : Type 0} → (Vector ua A → Option (Vector ua A)) → Option (ErrorCode × Ptr (Vector ua A))
  unfolding on_created
  with_vector fill = on_created (Vector.create ua (some none) 8) fill
