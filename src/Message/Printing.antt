-- ===== src/Message/Printing.antt =====
-- The JSON of messages in src/messages.c, which the logs print. As a value `none` is NULL; as a whole
-- result it is the reading of a union's member that is not there.
use libnrm.Prelude.{◌>>=◌, Option, none, some, List, [], ◌∷◌, map}
use libnrm.Prelude.Int.{ℤ}
use libnrm.Prelude.Bytes.{Bytes, ascii}
use libnrm.Ext.Doubles.{Doubles}
use libnrm.Ext.Jansson.{Jansson}
use libnrm.Json.{nullable, reals, named_to_json}
use libnrm.Message.{
  Message, MsgType, ack_type, list_type, add_type, remove_type, events_type, actuate_type,
  exit_type, tick_type, other_type, TargetType, slice_target, sensor_target, scope_target,
  actuator_target, other_target, ActuatorType, discrete_type, continuous_type, other_actuator,
  ScopeMsg, RemoveMsg, EventMsg, TimeserieMsg, ActuatorMsg, ActuateMsg, ActuatorData, no_limits,
  choices, limits, AddData, slice_data, sensor_data, scope_data, actuator_data, ListData,
  slices_data, sensors_data, scopes_data, actuators_data, Payload, list_of_objects, addition,
  removal, series, actuation,
}

-- nrm_msg_type_t2s with each of its three tables
unfoldable pub type_name : MsgType → Bytes
type_name ack_type = ascii "ACK"
type_name list_type = ascii "LIST"
type_name add_type = ascii "ADD"
type_name remove_type = ascii "REMOVE"
type_name events_type = ascii "EVENTS"
type_name actuate_type = ascii "ACTUATE"
type_name exit_type = ascii "EXIT"
type_name tick_type = ascii "TICK"
type_name other_type = ascii "UNKNOWN"

unfoldable pub target_name : TargetType → Bytes
target_name actuator_target = ascii "ACTUATOR"
target_name slice_target = ascii "SLICE"
target_name sensor_target = ascii "SENSOR"
target_name scope_target = ascii "SCOPE"
target_name other_target = ascii "UNKNOWN"

unfoldable pub actuator_name : ActuatorType → Bytes
actuator_name discrete_type = ascii "DISCRETE"
actuator_name continuous_type = ascii "CONTINOUS"
actuator_name other_actuator = ascii "UNKNOWN"

module _ (fp : Doubles) (js : Jansson fp) where
  -- The elements that an array takes, where some are NULL.
  unfoldable pub there : List (Option js.Json) → List js.Json
  there [] = []
  there (none ∷ l) = there l
  there (some j ∷ l) = j ∷ there l

  -- The same of elements that read a union's member.
  unfoldable pub all_read :
      {M : Type 0} → (M → Option (Option js.Json)) → List M → Option (List (Option js.Json))
  all_read f [] = some []
  all_read f (m ∷ l) = let rest = all_read f l in f m >>= (λ j. rest >>= (λ k. some (j ∷ k)))

  -- nrm_msg_bitmap_to_json
  unfoldable pub bitmap_to_json : List ℤ → js.Json
  bitmap_to_json items = js.array (map js.integer items)

  -- nrm_msg_darray_to_json and nrm_msg_actuator_discrete_to_json
  unfoldable pub discrete_to_json : List fp.Double → js.Json
  discrete_to_json l = js.object ((ascii "choices", js.array (reals fp js l)) ∷ [])

  -- nrm_msg_actuator_continuous_to_json
  unfoldable pub continuous_to_json : fp.Double → fp.Double → Option js.Json
  continuous_to_json lmin lmax = do
    min ← js.real lmin
    max ← js.real lmax
    some (js.object ((ascii "min", min) ∷ (ascii "max", max) ∷ []))

  -- The switch of nrm_msg_actuator_to_json
  unfoldable pub kind_to_json : ActuatorType → ActuatorData fp.Double → Option (Option js.Json)
  unfolding discrete_to_json continuous_to_json
  kind_to_json discrete_type (choices l) = some (some (discrete_to_json l))
  kind_to_json discrete_type no_limits = none
  kind_to_json discrete_type (limits a b) = none
  kind_to_json continuous_type (limits a b) = some (continuous_to_json a b)
  kind_to_json continuous_type no_limits = none
  kind_to_json continuous_type (choices l) = none
  kind_to_json other_actuator d = some none

  -- json_pack of an optional string: a NULL pointer is null, and text that is not UTF-8 an error
  unfoldable pub optional_text : Option Bytes → Option js.Json
  optional_text none = some js.null
  optional_text (some s) = js.string s

  -- nrm_msg_actuator_to_json, with what its switch gives
  unfoldable pub actuator_with : ActuatorMsg fp.Double → Option js.Json → Option js.Json
  unfolding optional_text actuator_name
  actuator_with msg sub = do
    uuid ← js.string msg.uuid
    client ← optional_text msg.clientid
    value ← js.real msg.value
    type ← js.string (actuator_name msg.type)
    packed ← sub
    some (
        js.object (
          (ascii "uuid", uuid)
          ∷ (ascii "clientid", client)
          ∷ (ascii "value", value)
          ∷ (ascii "type", type)
          ∷ (ascii "data", packed)
          ∷ []))

  unfoldable pub actuator_to_json : ActuatorMsg fp.Double → Option (Option js.Json)
  unfolding actuator_with kind_to_json
  actuator_to_json msg = do sub ← kind_to_json msg.type msg.data_case; some (actuator_with msg sub)

  -- nrm_msg_scope_to_json
  unfoldable pub scope_to_json : ScopeMsg → Option js.Json
  unfolding bitmap_to_json
  scope_to_json msg = do
    uuid ← js.string msg.uuid
    some (
        js.object (
          (ascii "uuid", uuid)
          ∷ (ascii "cpu", bitmap_to_json msg.cpus)
          ∷ (ascii "numa", bitmap_to_json msg.numas)
          ∷ (ascii "gpu", bitmap_to_json msg.gpus)
          ∷ []))

  -- nrm_msg_event_to_json
  unfoldable pub event_to_json : EventMsg fp.Double → Option js.Json
  event_to_json msg = do
    value ← js.real msg.value
    some (js.object ((ascii "time", js.integer msg.time) ∷ (ascii "value", value) ∷ []))

  -- nrm_msg_timeserie_to_json
  unfoldable pub timeserie_to_json : TimeserieMsg fp.Double → Option js.Json
  unfolding there event_to_json scope_to_json
  timeserie_to_json msg = do
    uuid ← js.string msg.sensor_uuid
    place ← scope_to_json msg.scope
    some (
        js.object (
          (ascii "sensor_uuid", uuid)
          ∷ (ascii "scope_uuid", place)
          ∷ (ascii "start", js.integer msg.start)
          ∷ (ascii "events", js.array (there (map event_to_json msg.events)))
          ∷ []))

  -- nrm_msg_timeserielist_to_json and the lists of nrm_msg_list_to_json
  unfoldable pub list_to_json : {M : Type 0} → (M → Option js.Json) → List M → js.Json
  unfolding there
  list_to_json f l = js.array (there (map f l))

  -- The switch of nrm_msg_add_to_json
  unfoldable pub added_to_json : TargetType → AddData fp.Double → Option (Option js.Json)
  unfolding actuator_to_json scope_to_json
  added_to_json actuator_target d = elim d [ actuator_data m ↦ actuator_to_json m | _ ↦ none ]
  added_to_json slice_target d = elim d [
    | slice_data m ↦ some (named_to_json fp js m.uuid)
    | _ ↦ none
  ]
  added_to_json sensor_target d = elim d [
    | sensor_data m ↦ some (named_to_json fp js m.uuid)
    | _ ↦ none
  ]
  added_to_json scope_target d = elim d [ scope_data m ↦ some (scope_to_json m) | _ ↦ none ]
  added_to_json other_target d = some none

  -- The switch of nrm_msg_list_to_json
  unfoldable pub listed_to_json : TargetType → ListData fp.Double → Option (Option js.Json)
  unfolding actuator_to_json scope_to_json list_to_json all_read there
  listed_to_json actuator_target d = elim d [
    | actuators_data l ↦ do k ← all_read actuator_to_json l; some (some (js.array (there k)))
    | _ ↦ none
  ]
  listed_to_json slice_target d = elim d [
    | slices_data l ↦ some (some (list_to_json (λ m. named_to_json fp js m.uuid) l))
    | _ ↦ none
  ]
  listed_to_json sensor_target d = elim d [
    | sensors_data l ↦ some (some (list_to_json (λ m. named_to_json fp js m.uuid) l))
    | _ ↦ none
  ]
  listed_to_json scope_target d = elim d [
    | scopes_data l ↦ some (some (list_to_json scope_to_json l))
    | _ ↦ none
  ]
  listed_to_json other_target d = some none

  -- The objects of nrm_msg_to_json, nrm_msg_add_to_json and nrm_msg_list_to_json
  unfoldable pub tagged : Bytes → Option js.Json → Option js.Json
  tagged name sub = do
    type ← js.string name
    some (js.object ((ascii "type", type) ∷ (ascii "data", nullable fp js sub) ∷ []))

  -- nrm_msg_remove_to_json
  unfoldable pub remove_to_json : RemoveMsg → Option js.Json
  unfolding target_name
  remove_to_json msg = do
    type ← js.string (target_name msg.type)
    uuid ← js.string msg.uuid
    some (js.object ((ascii "type", type) ∷ (ascii "uuid", uuid) ∷ []))

  -- nrm_msg_actuate_to_json
  unfoldable pub actuate_to_json : ActuateMsg fp.Double → Option js.Json
  actuate_to_json msg = do
    uuid ← js.string msg.uuid
    value ← js.real msg.value
    some (js.object ((ascii "uuid", uuid) ∷ (ascii "value", value) ∷ []))

  -- The switch of nrm_msg_to_json
  unfoldable pub data_to_json : MsgType → Payload fp.Double → Option (Option js.Json)
  unfolding actuate_to_json added_to_json listed_to_json remove_to_json list_to_json
      timeserie_to_json tagged target_name
  data_to_json actuate_type d = elim d [ actuation m ↦ some (actuate_to_json m) | _ ↦ none ]
  data_to_json add_type d = elim d [
    | addition m ↦ do sub ← added_to_json m.type m.data_case; some (tagged (target_name m.type) sub)
    | _ ↦ none
  ]
  data_to_json list_type d = elim d [
    | list_of_objects m ↦ do
      sub ← listed_to_json m.type m.data_case
      some (tagged (target_name m.type) sub)
    | _ ↦ none
  ]
  data_to_json events_type d = elim d [
    | series l ↦ some (some (list_to_json timeserie_to_json l))
    | _ ↦ none
  ]
  data_to_json remove_type d = elim d [ removal m ↦ some (remove_to_json m) | _ ↦ none ]
  data_to_json type d = some none

  -- nrm_msg_to_json
  unfoldable pub msg_to_json : Message fp.Double → Option (Option js.Json)
  unfolding data_to_json tagged type_name
  msg_to_json msg = do
    sub ← data_to_json msg.type msg.data_case
    some (tagged (type_name msg.type) sub)
