-- ===== src/Message.antt =====
-- src/messages.c and src/msg.proto: the structs that travel between clients and the daemon, and how
-- they are made from the library's objects. A struct's `type` and the member of its union are apart,
-- as in the code, which reads the member that the type names. Allocation succeeds.
pub mod Parsing
pub mod RoundTrip
pub mod Printing
pub mod Printed
pub mod Ctrlmsg
pub mod Frames
pub mod Delivery
pub mod Tests
use libnrm.Prelude.{Bool, true, false, ℕ, zero, suc, ◌+◌, Option, none, some, List, [], ◌∷◌, map}
use libnrm.Prelude.Int.{ℤ, pos}
use libnrm.Prelude.Bytes.{Bytes}
use libnrm.Error.{ErrorCode, success, einval}
use libnrm.Ext.Utarray.{Utarray}
use libnrm.Ext.Doubles.{Doubles}
use libnrm.Bitmap
use libnrm.Time.{tons}
use libnrm.Scope.{Scope, map_of, type_cpu, type_numa, type_gpu}
use libnrm.Timeserie.{Event, Timeserie}
use libnrm.Vector
use libnrm.Vector.{Vector, Ptr}
use libnrm.Actuator.{Actuator, discrete, continuous}
use libnrm.State.{Sensor, Slice}

-- TARGETTYPE, MSGTYPE and ACTUATORTYPE, each with the numbers that name nothing
pub data TargetType : Type 0 where
  slice_target sensor_target scope_target actuator_target other_target : TargetType

pub data MsgType : Type 0 where
  ack_type list_type add_type remove_type events_type actuate_type exit_type tick_type : MsgType
  other_type : MsgType

pub data ActuatorType : Type 0 where
  discrete_type continuous_type other_actuator : ActuatorType

pub record ScopeMsg : Type 0 where
  pub uuid : Bytes
  pub cpus : List ℤ
  pub numas : List ℤ
  pub gpus : List ℤ

pub record SensorMsg : Type 0 where
  pub uuid : Bytes

pub record SliceMsg : Type 0 where
  pub uuid : Bytes

pub record RemoveMsg : Type 0 where
  pub type : TargetType
  pub uuid : Bytes

pub record EventMsg (D : Type 0) : Type 0 where
  pub time : ℤ
  pub value : D

pub record TimeserieMsg (D : Type 0) : Type 0 where
  pub sensor_uuid : Bytes
  pub scope : ScopeMsg
  pub start : ℤ
  pub events : List (EventMsg D)

pub data ActuatorData (D : Type 0) : Type 0 where
  no_limits : ActuatorData D
  choices : List D → ActuatorData D
  limits : D → D → ActuatorData D

pub record ActuatorMsg (D : Type 0) : Type 0 where
  pub uuid : Bytes
  pub clientid : Option Bytes
  pub value : D
  pub type : ActuatorType
  pub data_case : ActuatorData D

pub record ActuateMsg (D : Type 0) : Type 0 where
  pub uuid : Bytes
  pub value : D

pub data AddData (D : Type 0) : Type 0 where
  no_addition : AddData D
  slice_data : SliceMsg → AddData D
  sensor_data : SensorMsg → AddData D
  scope_data : ScopeMsg → AddData D
  actuator_data : ActuatorMsg D → AddData D

pub record AddMsg (D : Type 0) : Type 0 where
  pub type : TargetType
  pub data_case : AddData D

pub data ListData (D : Type 0) : Type 0 where
  no_list : ListData D
  slices_data : List SliceMsg → ListData D
  sensors_data : List SensorMsg → ListData D
  scopes_data : List ScopeMsg → ListData D
  actuators_data : List (ActuatorMsg D) → ListData D

pub record ListMsg (D : Type 0) : Type 0 where
  pub type : TargetType
  pub data_case : ListData D

pub data Payload (D : Type 0) : Type 0 where
  nothing : Payload D
  list_of_objects : ListMsg D → Payload D
  addition : AddMsg D → Payload D
  removal : RemoveMsg → Payload D
  series : List (TimeserieMsg D) → Payload D
  actuation : ActuateMsg D → Payload D

pub record Message (D : Type 0) : Type 0 where
  pub type : MsgType
  pub data_case : Payload D

module _ {D : Type 0} where
  -- nrm_msg_create: the types' default is the first one
  unfoldable pub create : Message D
  create = record { type = ack_type; data_case = nothing }

  -- nrm_msg_fill on a message that is there
  unfoldable pub fill : Message D → MsgType → ErrorCode × Message D
  fill msg other_type = (einval, msg)
  fill msg type = (success, record msg { type = type })

  -- nrm_msg_create and nrm_msg_fill, as every caller has them
  abbrev pub created : MsgType → Message D
  created type = (fill create type).1

  -- nrm_msg_set_remove and nrm_msg_set_actuate on a message that is there
  unfoldable pub set_remove : Message D → TargetType → Bytes → Message D
  set_remove msg type uuid = record msg {
    data_case = removal (record { type = type; uuid = uuid });
  }

  unfoldable pub set_actuate : Message D → Bytes → D → Message D
  set_actuate msg uuid value = record msg {
    data_case = actuation (record { uuid = uuid; value = value });
  }

-- nrm_msg_sensor_new and nrm_msg_slice_new
unfoldable pub sensor_new : Bytes → SensorMsg
sensor_new uuid = record { uuid = uuid }

unfoldable pub slice_new : Bytes → SliceMsg
slice_new uuid = record { uuid = uuid }

-- nrm_msg_scope_new
unfoldable pub scope_new : Scope → ScopeMsg
scope_new scope = record {
  uuid = scope.uuid;
  cpus = map pos (Bitmap.to_array (map_of scope type_cpu)).1;
  numas = map pos (Bitmap.to_array (map_of scope type_numa)).1;
  gpus = map pos (Bitmap.to_array (map_of scope type_gpu)).1;
}

-- nrm_msg_event_new
unfoldable pub event_new : {D : Type 0} → Event D → EventMsg D
event_new event = record { time = tons event.time; value = event.value }

module _ (ua : Utarray) where
  -- The loops over nrm_vector_get from position `i`; a NULL would be read through.
  unfoldable pub read_from : {A : Type 0} → ℕ → ℕ → Vector ua A → List A
  read_from zero i v = []
  read_from (suc rounds) i v =
      let rest = read_from rounds (i + 1) v in
      elim (Vector.get ua (some v) i (some none)).1 [
        | none ↦ []
        | some out ↦ elim out [ none ↦ [] | some x ↦ x ∷ rest ]
      ]

  -- nrm_vector_length and such a loop
  unfoldable pub read_out : {A : Type 0} → Vector ua A → List A
  unfolding read_from
  read_out {A} v = read_from (ua.len A v.array) 0 v

  -- nrm_msg_timeserie_new
  unfoldable pub timeserie_new : {D : Type 0} → Timeserie ua D → TimeserieMsg D
  unfolding event_new
  timeserie_new ts = record {
    sensor_uuid = ts.sensor_uuid;
    scope = scope_new ts.scope;
    start = tons ts.start;
    events = map event_new (read_out ts.events);
  }

  -- nrm_msg_timeserielist_new
  unfoldable pub timeserielist_new :
      {D : Type 0} → Ptr (Vector ua (Timeserie ua D)) → List (TimeserieMsg D)
  unfolding timeserie_new
  timeserielist_new none = []
  timeserielist_new (some v) = map timeserie_new (read_out v)

  -- nrm_msg_set_events on a message that is there
  unfoldable pub set_events :
      {D : Type 0} → Message D → Ptr (Vector ua (Timeserie ua D)) → Message D
  set_events msg timeseries = record msg { data_case = series (timeserielist_new timeseries) }

  module _ (fp : Doubles) where
    abbrev Double : Type 0
    Double = fp.Double

    -- nrm_msg_actuator_new, with nrm_msg_actuator_discrete_new and nrm_msg_actuator_continuous_new
    unfoldable pub actuator_new : Actuator ua fp → ActuatorMsg Double
    actuator_new a = elim a.kind [
      | discrete v ↦ record {
        uuid = a.uuid;
        clientid = a.clientid;
        value = a.value;
        type = discrete_type;
        data_case = choices (read_out v);
      }
      | continuous min max ↦ record {
        uuid = a.uuid;
        clientid = a.clientid;
        value = a.value;
        type = continuous_type;
        data_case = limits min max;
      }
    ]

    -- nrm_msg_set_add_actuator and the like, on a message that is there
    unfoldable pub set_add_actuator : Message Double → Actuator ua fp → Message Double
    set_add_actuator msg a = record msg {
      data_case =
          addition (record { type = actuator_target; data_case = actuator_data (actuator_new a) });
    }

    unfoldable pub set_add_scope : Message Double → Scope → Message Double
    set_add_scope msg s = record msg {
      data_case = addition (record { type = scope_target; data_case = scope_data (scope_new s) });
    }

    unfoldable pub set_add_sensor : Message Double → Sensor → Message Double
    set_add_sensor msg s = record msg {
      data_case =
          addition (record { type = sensor_target; data_case = sensor_data (sensor_new s.uuid) });
    }

    unfoldable pub set_add_slice : Message Double → Slice → Message Double
    set_add_slice msg s = record msg {
      data_case =
          addition (record { type = slice_target; data_case = slice_data (slice_new s.uuid) });
    }

    -- nrm_msg_actuatorlist_new and the like: an empty list of a NULL vector
    unfoldable pub list_new : {A M : Type 0} → (A → M) → Ptr (Vector ua A) → List M
    list_new f none = []
    list_new f (some v) = map f (read_out v)

    -- nrm_msg_set_list_actuators and the like, on a message that is there
    unfoldable pub set_list_actuators :
        Message Double → Ptr (Vector ua (Actuator ua fp)) → Message Double
    unfolding list_new
    set_list_actuators msg v = record msg {
      data_case =
          list_of_objects (record {
            type = actuator_target;
            data_case = actuators_data (list_new actuator_new v);
          });
    }

    unfoldable pub set_list_scopes : Message Double → Ptr (Vector ua Scope) → Message Double
    unfolding list_new
    set_list_scopes msg v = record msg {
      data_case =
          list_of_objects
            (record { type = scope_target; data_case = scopes_data (list_new scope_new v) });
    }

    unfoldable pub set_list_sensors : Message Double → Ptr (Vector ua Sensor) → Message Double
    unfolding list_new
    set_list_sensors msg v = record msg {
      data_case = list_of_objects (record {
        type = sensor_target;
        data_case = sensors_data (list_new (λ s. sensor_new s.uuid) v);
      });
    }

    unfoldable pub set_list_slices : Message Double → Ptr (Vector ua Slice) → Message Double
    unfolding list_new
    set_list_slices msg v = record msg {
      data_case = list_of_objects (record {
        type = slice_target;
        data_case = slices_data (list_new (λ s. slice_new s.uuid) v);
      });
    }

-- nrm_msg_is_reply: what a client takes for an answer and not for an order
unfoldable pub is_reply : {D : Type 0} → Message D → Bool
is_reply msg = elim msg.type [ actuate_type ↦ false | tick_type ↦ false | _ ↦ true ]
