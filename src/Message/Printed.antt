-- ===== src/Message/Printed.antt =====
-- Which messages nrm_msg_to_json of src/messages.c prints.
use libnrm.Prelude.{bind_some, ◌≡◌, refl, ap, ◌∙◌, Option, some, List, [], ◌∷◌, arith}
use libnrm.Prelude.Bytes.{ascii, bytes_eq}
use libnrm.Ext.Doubles.{Doubles}
use libnrm.Ext.Jansson.{Jansson, find_member, IsAscii}
use libnrm.Json.{nullable}
use libnrm.Message.{
  Message, MsgType, ack_type, list_type, add_type, remove_type, events_type, actuate_type,
  exit_type, tick_type, other_type, TargetType, slice_target, sensor_target, scope_target,
  actuator_target, other_target, ActuatorType, discrete_type, continuous_type, other_actuator,
  ScopeMsg, SensorMsg, SliceMsg, RemoveMsg, TimeserieMsg, ActuatorMsg, ActuateMsg, AddMsg, ListMsg,
  ActuatorData, choices, limits, AddData, slice_data, sensor_data, scope_data, actuator_data,
  ListData, slices_data, sensors_data, scopes_data, actuators_data, Payload, list_of_objects,
  addition, removal, series, actuation,
}
use libnrm.Message.Printing.{
  type_name, kind_to_json, actuator_to_json, all_read, added_to_json, listed_to_json, data_to_json,
  tagged, msg_to_json,
}

module _ (D : Type 0) where
  -- The unions' members are the ones that the types name.
  pub data KindAgrees : ActuatorType → ActuatorData D → Type 0 where
    discrete_agrees : {l : List D} → KindAgrees discrete_type (choices l)
    continuous_agrees : {a b : D} → KindAgrees continuous_type (limits a b)
    other_agrees : {d : ActuatorData D} → KindAgrees other_actuator d

  abbrev pub ActuatorAgrees : ActuatorMsg D → Type 0
  ActuatorAgrees m = KindAgrees m.type m.data_case

  pub data EveryActuator : List (ActuatorMsg D) → Type 0 where
    no_actuators : EveryActuator []
    one_more :
        {m : ActuatorMsg D} {l : List (ActuatorMsg D)}
        → ActuatorAgrees m
        → EveryActuator l
        → EveryActuator (m ∷ l)

  pub data AddAgrees : TargetType → AddData D → Type 0 where
    slice_agrees : {m : SliceMsg} → AddAgrees slice_target (slice_data m)
    sensor_agrees : {m : SensorMsg} → AddAgrees sensor_target (sensor_data m)
    scope_agrees : {m : ScopeMsg} → AddAgrees scope_target (scope_data m)
    actuator_agrees :
        {m : ActuatorMsg D} → ActuatorAgrees m → AddAgrees actuator_target (actuator_data m)
    other_add_agrees : {d : AddData D} → AddAgrees other_target d

  pub data ListAgrees : TargetType → ListData D → Type 0 where
    slices_agree : {l : List SliceMsg} → ListAgrees slice_target (slices_data l)
    sensors_agree : {l : List SensorMsg} → ListAgrees sensor_target (sensors_data l)
    scopes_agree : {l : List ScopeMsg} → ListAgrees scope_target (scopes_data l)
    actuators_agree :
        {l : List (ActuatorMsg D)} → EveryActuator l → ListAgrees actuator_target (actuators_data l)
    other_list_agrees : {d : ListData D} → ListAgrees other_target d

  pub data Agrees : MsgType → Payload D → Type 0 where
    ack_agrees : {d : Payload D} → Agrees ack_type d
    exit_agrees : {d : Payload D} → Agrees exit_type d
    tick_agrees : {d : Payload D} → Agrees tick_type d
    unknown_agrees : {d : Payload D} → Agrees other_type d
    list_agrees :
        {m : ListMsg D} → ListAgrees m.type m.data_case → Agrees list_type (list_of_objects m)
    add_agrees : {m : AddMsg D} → AddAgrees m.type m.data_case → Agrees add_type (addition m)
    remove_agrees : {m : RemoveMsg} → Agrees remove_type (removal m)
    events_agree : {l : List (TimeserieMsg D)} → Agrees events_type (series l)
    actuate_agrees : {m : ActuateMsg D} → Agrees actuate_type (actuation m)

module _ (fp : Doubles) (js : Jansson fp) where
  abbrev Read : Option (Option js.Json) → Type 0
  Read o = (j : Option js.Json) × (o ≡ some j)

  kind-Read :
      {t : ActuatorType} {d : ActuatorData fp.Double}
      → KindAgrees fp.Double t d
      → Read (kind_to_json fp js t d)
  unfolding kind_to_json
  kind-Read discrete_agrees = (_, refl)
  kind-Read continuous_agrees = (_, refl)
  kind-Read other_agrees = (_, refl)

  actuator-Read :
      (m : ActuatorMsg fp.Double) → ActuatorAgrees fp.Double m → Read (actuator_to_json fp js m)
  unfolding actuator_to_json
  actuator-Read m h = let (j, e) = kind-Read h in (_, bind_some e _)

  actuators-Read :
      {l : List (ActuatorMsg fp.Double)}
      → EveryActuator fp.Double l
      → (k : List (Option js.Json)) × (all_read fp js (actuator_to_json fp js) l ≡ some k)
  unfolding all_read
  actuators-Read no_actuators = ([], refl)
  actuators-Read (one_more {m} h r) =
      let (j, e) = actuator-Read m h in
      let (k, f) = actuators-Read r in (j ∷ k, bind_some e _ ∙ bind_some f _)

  added-Read :
      {t : TargetType} {d : AddData fp.Double}
      → AddAgrees fp.Double t d
      → Read (added_to_json fp js t d)
  unfolding added_to_json
  added-Read slice_agrees = (_, refl)
  added-Read sensor_agrees = (_, refl)
  added-Read scope_agrees = (_, refl)
  added-Read (actuator_agrees {m} h) = actuator-Read m h
  added-Read other_add_agrees = (_, refl)

  listed-Read :
      {t : TargetType} {d : ListData fp.Double}
      → ListAgrees fp.Double t d
      → Read (listed_to_json fp js t d)
  unfolding listed_to_json
  listed-Read slices_agree = (_, refl)
  listed-Read sensors_agree = (_, refl)
  listed-Read scopes_agree = (_, refl)
  listed-Read (actuators_agree h) = let (k, e) = actuators-Read h in (_, bind_some e _)
  listed-Read other_list_agrees = (_, refl)

  data-Read :
      {t : MsgType} {d : Payload fp.Double} → Agrees fp.Double t d → Read (data_to_json fp js t d)
  unfolding data_to_json
  data-Read ack_agrees = (_, refl)
  data-Read exit_agrees = (_, refl)
  data-Read tick_agrees = (_, refl)
  data-Read unknown_agrees = (_, refl)
  data-Read (list_agrees h) = let (j, e) = listed-Read h in (_, bind_some e _)
  data-Read (add_agrees h) = let (j, e) = added-Read h in (_, bind_some e _)
  data-Read remove_agrees = (_, refl)
  data-Read events_agree = (_, refl)
  data-Read actuate_agrees = (_, refl)

  name_text : (t : MsgType) → IsAscii (type_name t)
  unfolding type_name
  name_text ack_type = omega arith
  name_text list_type = omega arith
  name_text add_type = omega arith
  name_text remove_type = omega arith
  name_text events_type = omega arith
  name_text actuate_type = omega arith
  name_text exit_type = omega arith
  name_text tick_type = omega arith
  name_text other_type = omega arith

  -- nrm_msg_to_json, of a message whose unions hold the members that its types name: it reads no other
  -- member, and its result is not NULL and has the name of the message's type.
  pub msg_to_json_lem :
      (msg : Message fp.Double)
      → Agrees fp.Double msg.type msg.data_case
      → (j : js.Json) × (t : js.Json) × (msg_to_json fp js msg ≡ some (some j))
        × (js.member j (ascii "type") ≡ some t)
        × (js.string_value t ≡ some (type_name msg.type))
  unfolding msg_to_json tagged find_member bytes_eq
  msg_to_json_lem msg h =
      let (sub, read) = data-Read h in
      let (t, made, named) =
        js.string_lem (type_name msg.type) (js.text_of_ascii _ (name_text msg.type)) in
      (
        js.object ((ascii "type", t) ∷ (ascii "data", nullable fp js sub) ∷ []),
        t,
        bind_some read _ ∙ ap some (bind_some made _),
        js.member-object _ (ascii "type"),
        named,
      )
