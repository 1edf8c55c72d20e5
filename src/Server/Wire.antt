-- ===== src/Server/Wire.antt =====
-- src/server.c and src/messages.c: what the server reads in a message that it received, and the
-- messages that its answers are. `none` is the reading of a union's member that is not there.
use libnrm.Prelude.{◌>>=◌, Option, none, some, List, [], ◌∷◌, map}
use libnrm.Prelude.Bytes.{Bytes}
use libnrm.Ext.Uthash.{Uthash}
use libnrm.Ext.Utarray.{Utarray}
use libnrm.Ext.Qsort.{Qsort}
use libnrm.Ext.Doubles.{Doubles}
use libnrm.Message
use libnrm.Message.{
  Message, TargetType, slice_target, sensor_target, scope_target, actuator_target, other_target,
  ack_type, list_type, add_type, remove_type, events_type, actuate_type, exit_type, tick_type,
  other_type, EventMsg, TimeserieMsg, AddMsg, AddData, slice_data, sensor_data, scope_data,
  actuator_data, slices_data, sensors_data, scopes_data, actuators_data, list_of_objects, addition,
  removal, series, actuation, created, set_actuate, scope_new, sensor_new, slice_new,
}
use libnrm.Message.Parsing.{
  scope_create_frommsg, sensor_create_frommsg, slice_create_frommsg, actuator_create_frommsg,
}
use libnrm.Server.{
  Target, actuators, slices, sensors, scopes, unknown, Addition, new_actuator, new_slice,
  new_sensor, new_scope, wrong_type, Series, Request, actuate_request, list_request, add_request,
  events_request, remove_request, exit_request, tick_request, unhandled, Reply, ack, added,
  actuators_list, slices_list, sensors_list, scopes_list, actuate_order,
}

module _ (uh : Uthash Bytes) (ua : Utarray) (fp : Doubles) (qs : Qsort ua) where
  abbrev Msg : Type 0
  Msg = Message fp.Double

  -- The switches on `msg->type` of nrm_server_list_callback and the like.
  unfoldable pub target_of : TargetType → Target uh ua fp
  target_of slice_target = slices
  target_of sensor_target = sensors
  target_of scope_target = scopes
  target_of actuator_target = actuators
  target_of other_target = unknown

  -- The objects that nrm_server_add_actuator and the like make; a NULL actuator is written to.
  unfoldable pub addition_of : AddMsg fp.Double → Option (Addition uh ua fp)
  addition_of msg = elim msg.type [
    | actuator_target ↦ do
      m ← elim msg.data_case [ actuator_data m ↦ some m | _ ↦ none ]
      ret ← actuator_create_frommsg ua fp qs (some m)
      a ← ret
      some (new_actuator a)
    | slice_target ↦ do
      m ← elim msg.data_case [ slice_data m ↦ some m | _ ↦ none ]
      r ← slice_create_frommsg (some m)
      some (new_slice r)
    | sensor_target ↦ do
      m ← elim msg.data_case [ sensor_data m ↦ some m | _ ↦ none ]
      r ← sensor_create_frommsg (some m)
      some (new_sensor r)
    | scope_target ↦ do
      m ← elim msg.data_case [ scope_data m ↦ some m | _ ↦ none ]
      r ← scope_create_frommsg (some m)
      some (new_scope r)
    | other_target ↦ some wrong_type
  ]

  -- What nrm_server_events_callback reads of the time series.
  unfoldable pub series_of : List (TimeserieMsg fp.Double) → Option (List (Series uh ua fp))
  series_of [] = some []
  series_of (ts ∷ l) = do
    place ← scope_create_frommsg (some ts.scope)
    rest ← series_of l
    some (
        record {
          sensor_uuid = ts.sensor_uuid;
          scope = place;
          events = map (λ e. (e.time, e.value)) ts.events;
        }
        ∷ rest)

  -- The switch of nrm_server_role_callback, with the parts that its handlers read.
  unfoldable pub request_of : Msg → Option (Request uh ua fp)
  unfolding target_of addition_of series_of
  request_of msg = elim msg.type [
    | actuate_type ↦ elim msg.data_case [
      | actuation m ↦ some (actuate_request m.uuid m.value)
      | _ ↦ none
    ]
    | list_type ↦ elim msg.data_case [
      | list_of_objects m ↦ some (list_request (target_of m.type))
      | _ ↦ none
    ]
    | add_type ↦ elim msg.data_case [
      | addition m ↦ do r ← addition_of m; some (add_request r)
      | _ ↦ none
    ]
    | events_type ↦ elim msg.data_case [
      | series l ↦ do r ← series_of l; some (events_request r)
      | _ ↦ none
    ]
    | remove_type ↦ elim msg.data_case [
      | removal m ↦ some (remove_request (target_of m.type) m.uuid)
      | _ ↦ none
    ]
    | exit_type ↦ some exit_request
    | tick_type ↦ some tick_request
    | ack_type ↦ some unhandled
    | other_type ↦ some unhandled
  ]

  -- The list of nrm_msg_set_list_actuators and the like, on the objects of the vector.
  abbrev listed : TargetType → Message.ListData fp.Double → Msg
  listed t d = record (created list_type) {
    data_case = list_of_objects (record { type = t; data_case = d });
  }

  -- The message that the handlers make of an answer, with nrm_msg_fill and nrm_msg_set_actuate and
  -- the like; there is none for an addition of an unknown type.
  unfoldable pub message_of : Reply uh ua fp → Option Msg
  message_of ack = some (created ack_type)
  message_of (added (new_actuator a)) = some (Message.set_add_actuator ua fp (created add_type) a)
  message_of (added (new_slice l)) = some (Message.set_add_slice ua fp (created add_type) l)
  message_of (added (new_sensor n)) = some (Message.set_add_sensor ua fp (created add_type) n)
  message_of (added (new_scope c)) = some (Message.set_add_scope ua fp (created add_type) c)
  message_of (added wrong_type) = none
  message_of (actuators_list l) =
      some (listed actuator_target (actuators_data (map (Message.actuator_new ua fp) l)))
  message_of (slices_list l) =
      some (listed slice_target (slices_data (map (λ s. slice_new s.uuid) l)))
  message_of (sensors_list l) =
      some (listed sensor_target (sensors_data (map (λ s. sensor_new s.uuid) l)))
  message_of (scopes_list l) = some (listed scope_target (scopes_data (map scope_new l)))
  message_of (actuate_order uuid value) = some (set_actuate (created actuate_type) uuid value)
