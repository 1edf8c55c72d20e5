-- ===== src/Server.antt =====
-- src/server.c: the handlers of the messages that a client sends, over the daemon's state. A
-- message carries the objects that its fields describe. What the server sends goes to a log, with
-- the client that it is for. The daemon's callbacks may do anything to the server, and `none`
-- stands for a behaviour that C does not define. The logging is left out.
pub mod Tests
pub mod Wire
pub mod Laws
use libnrm.Prelude.{
  ◌>>=◌, ℕ, Bool, true, false, Option, none, some, List, [], ◌∷◌, ◌++◌, ◌==◌, if◌then◌else◌,
}
use libnrm.Prelude.Int.{ℤ, pos, negsuc}
use libnrm.Prelude.Bytes.{Bytes}
use libnrm.Error.{einval, returned}
use libnrm.Ext.Models.{same_ℤ}
use libnrm.Ext.Uthash.{Uthash}
use libnrm.Ext.Utarray.{Utarray}
use libnrm.Ext.Doubles.{Doubles}
use libnrm.Hash
use libnrm.Time.{Time, fromns}
use libnrm.Timeserie
use libnrm.Timeserie.{Timeserie}
use libnrm.Vector
use libnrm.Vector.{Vector}
use libnrm.Scope.{Scope}
use libnrm.Actuator
use libnrm.Actuator.{Actuator}
use libnrm.State
use libnrm.State.{State, Sensor, Slice}

module _ (uh : Uthash Bytes) (ua : Utarray) (fp : Doubles) where
  -- NRM_MSG_TARGET_TYPE_ACTUATOR and the like, and any other number
  pub data Target : Type 0 where
    actuators slices sensors scopes unknown : Target

  -- The objects of nrm_msg_add_t.
  pub data Addition : Type 0 where
    new_actuator : Actuator ua fp → Addition
    new_slice : Slice → Addition
    new_sensor : Sensor → Addition
    new_scope : Scope → Addition
    wrong_type : Addition

  -- nrm_msg_timeserie_t: the events' times are counts of nanoseconds
  pub record Series : Type 0 where
    pub sensor_uuid : Bytes
    pub scope : Scope
    pub events : List (ℤ × fp.Double)

  -- What a client sends.
  pub data Request : Type 0 where
    actuate_request : Bytes → fp.Double → Request
    list_request : Target → Request
    add_request : Addition → Request
    events_request : List Series → Request
    remove_request : Target → Bytes → Request
    exit_request : Request
    tick_request : Request
    unhandled : Request

  -- What the server sends.
  pub data Reply : Type 0 where
    ack : Reply
    added : Addition → Reply
    actuators_list : List (Actuator ua fp) → Reply
    slices_list : List Slice → Reply
    sensors_list : List Sensor → Reply
    scopes_list : List Scope → Reply
    actuate_order : Bytes → fp.Double → Reply

  module _ (User : Type 0) where
    -- struct nrm_server_s, with what was sent to which client so far and the user's own state
    pub record Server : Type 0 where
      pub state : State uh ua fp
      pub sent : List (Bytes × Reply)
      -- nrm_role_pub's messages, with their topics
      pub published : List (Bytes × Timeserie ua fp.Double)
      pub user : User

    -- struct nrm_server_user_callbacks_s; a tick callback may be NULL
    pub record Callbacks : Type 0 where
      pub event : Server → Bytes → Scope → Time → fp.Double → Option Server
      pub actuate : Server → Actuator ua fp → fp.Double → ℤ × Server
      pub tick : Option (Server → ℤ × Server)

    -- nrm_role_send
    unfoldable pub send : Server → Reply → Bytes → Server
    send self msg to = record self { sent = self.sent ++ (to, msg) ∷ [] }

    -- The pointer `a` after a callback: the object that a search by its name finds.
    abbrev actuator_of : Server → Bytes → Option (Actuator ua fp)
    actuator_of self uuid = (Hash.find uh self.state.actuators (some uuid)).1

    -- nrm_actuator_set_value through the pointer into the table
    unfoldable pub write_value : State uh ua fp → Bytes → fp.Double → State uh ua fp
    write_value s uuid value = record s {
      actuators =
          uh.update (Actuator ua fp) s.actuators uuid (λ a. Actuator.set_value ua fp a value);
    }

    -- The order goes to the client that owns the actuator, whose name is read without a test.
    unfoldable pub order : Server → Option Bytes → Bytes → fp.Double → Option Server
    unfolding send
    order self none uuid value = none
    order self (some owner) uuid value = some (send self (actuate_order uuid value) owner)

    -- The part that nrm_server_actuate and nrm_server_actuate_callback share: correct the value,
    -- store it, and tell the actuator's owner.
    unfoldable pub apply_value : Server → Bytes → Actuator ua fp → fp.Double → Option Server
    unfolding order write_value
    apply_value self uuid a value =
        let corrected = (Actuator.corrected_value ua fp a value).1 in
        order (record self { state = write_value self.state uuid corrected }) a.clientid uuid
          corrected

    -- nrm_server_actuate, on the result of the search
    unfoldable pub actuate_directly : Server → Bytes → fp.Double → Option Server
    unfolding apply_value
    actuate_directly self uuid value = elim (actuator_of self uuid) [
      | none ↦ some self
      | some a ↦ apply_value self uuid a value
    ]

    -- The branch of nrm_server_actuate_callback after the user's callback, with its result; the
    -- pointer to an actuator that the callback took away is not to be used.
    unfoldable pub after_callback : ℤ × Server → Bytes → fp.Double → Option Server
    unfolding apply_value
    after_callback (ret, self) uuid value =
        if same_ℤ ret (pos 0)
        then elim (actuator_of self uuid) [ none ↦ none | some a ↦ apply_value self uuid a value ]
        else some self

    -- The branch of nrm_server_actuate_callback on the result of the search.
    unfoldable pub if_found :
        Callbacks → Server → Option (Actuator ua fp) → Bytes → fp.Double → Option Server
    unfolding after_callback
    if_found cb self none uuid value = some self
    if_found cb self (some a) uuid value = after_callback (cb.actuate self a value) uuid value

    -- nrm_server_actuate_callback
    unfoldable pub actuate_callback :
        Callbacks → Server → Bytes → Bytes → fp.Double → Option (ℤ × Server)
    unfolding if_found send
    actuate_callback cb self client uuid value = do
      after ← if_found cb self (actuator_of self uuid) uuid value
      some (pos 0, send after ack client)

    -- The inner and the outer loop of nrm_server_events_callback.
    unfoldable pub replay :
        Callbacks → Bytes → Scope → Server → List (ℤ × fp.Double) → Option Server
    replay cb uuid place self [] = some self
    replay cb uuid place self ((time, value) ∷ es) = do
      after ← cb.event self uuid place (fromns time) value
      replay cb uuid place after es

    unfoldable pub replay_all : Callbacks → Server → List Series → Option Server
    unfolding replay
    replay_all cb self [] = some self
    replay_all cb self (ts ∷ l) = do
      after ← replay cb ts.sensor_uuid ts.scope self ts.events
      replay_all cb after l

    -- nrm_server_events_callback
    unfoldable pub events_callback : Callbacks → Server → List Series → Option (ℤ × Server)
    unfolding replay_all
    events_callback cb self series = do after ← replay_all cb self series; some (pos 0, after)

    -- nrm_server_publish, with its arguments there; its assertion fails if the time series cannot be
    -- made
    unfoldable pub publish : Server → Bytes → Time → Bytes → Scope → fp.Double → Option Server
    publish self topic now sensor place value = do
      ts ← (Timeserie.create ua fp.Double (some sensor) (some place)).1
      some (record self {
        published = self.published ++ (topic, Timeserie.add_event ua fp.Double ts now value) ∷ [];
      })

    -- nrm_server_add_actuator, nrm_server_add_scope and the like, and nrm_server_add_callback: the
    -- result of nrm_state_add_actuator and the like is always 0
    unfoldable pub add_callback : Server → Bytes → Addition → ℤ × Server
    unfolding send
    add_callback self client (new_actuator a) =
        let mine = Actuator.set_clientid ua fp a (some client) in
        (
          pos 0,
          send (record self { state = State.add_actuator uh ua fp self.state mine })
              (added (new_actuator mine)) client,
        )
    add_callback self client (new_slice l) = (
      pos 0,
      send (record self { state = State.add_slice uh ua fp self.state l }) (added (new_slice l))
          client,
    )
    add_callback self client (new_sensor n) = (
      pos 0,
      send (record self { state = State.add_sensor uh ua fp self.state n }) (added (new_sensor n))
          client,
    )
    add_callback self client (new_scope c) = (
      pos 0,
      send (record self { state = State.add_scope uh ua fp self.state c }) (added (new_scope c))
          client,
    )
    add_callback self client wrong_type = (negsuc 0, self)

    -- The vector of nrm_server_list_actuators and the like; a failed creation leaves `vec` unset.
    unfoldable pub fresh : {A : Type 0} → ℕ → Option (Vector ua A)
    fresh size = elim (Vector.create ua (some none) size).1 [ none ↦ none | some made ↦ made ]

    -- nrm_server_list_actuators and the like
    unfoldable pub list_of_target : State uh ua fp → Target → Option Reply
    list_of_target s actuators = do
      vec ← fresh 16
      some (actuators_list (Vector.elements ua (State.list_actuators uh ua fp s vec)))
    list_of_target s slices = do
      vec ← fresh 8
      some (slices_list (Vector.elements ua (State.list_slices uh ua fp s vec)))
    list_of_target s sensors = do
      vec ← fresh 8
      some (sensors_list (Vector.elements ua (State.list_sensors uh ua fp s vec)))
    list_of_target s scopes = do
      vec ← fresh 776
      some (scopes_list (Vector.elements ua (State.list_scopes uh ua fp s vec)))
    list_of_target s unknown = none

    -- nrm_server_list_callback
    unfoldable pub list_callback : Server → Bytes → Target → Option (ℤ × Server)
    unfolding list_of_target
    list_callback self client unknown = some (negsuc 0, self)
    list_callback self client target = do
      reply ← list_of_target self.state target
      some (pos 0, send self reply client)

    -- nrm_state_remove_actuator and the like, chosen as nrm_server_remove_callback does
    unfoldable pub remove_target : State uh ua fp → Target → Bytes → Bytes → Option (State uh ua fp)
    remove_target s actuators uuid stacked = State.remove_actuator uh ua fp s uuid stacked
    remove_target s slices uuid stacked = State.remove_slice uh ua fp s uuid stacked
    remove_target s sensors uuid stacked = State.remove_sensor uh ua fp s uuid stacked
    remove_target s scopes uuid stacked = State.remove_scope uh ua fp s uuid stacked
    remove_target s unknown uuid stacked = some s

    -- nrm_server_remove_callback
    unfoldable pub remove_callback : Server → Bytes → Target → Bytes → Bytes → Option (ℤ × Server)
    unfolding remove_target
    remove_callback self client unknown uuid stacked = some (negsuc 0, self)
    remove_callback self client target uuid stacked = do
      state ← remove_target self.state target uuid stacked
      some (pos 0, send (record self { state = state }) ack client)

    -- nrm_server_tick_callback
    unfoldable pub tick_callback : Callbacks → Server → Bytes → ℤ × Server
    tick_callback cb self client = elim cb.tick [
      | none ↦ (pos 0, send self ack client)
      | some tick ↦ let (err, self') = tick self in (err, send self' ack client)
    ]

    -- nrm_server_role_callback, on a message that was received; -NRM_EINVAL for the ones that
    -- it does not handle
    unfoldable pub role_callback :
        Callbacks → Server → Bytes → Request → Bytes → Option (ℤ × Server)
    role_callback cb self client (actuate_request uuid value) stacked =
        actuate_callback cb self client uuid value
    role_callback cb self client (list_request target) stacked = list_callback self client target
    role_callback cb self client (add_request addition) stacked =
        some (add_callback self client addition)
    role_callback cb self client (events_request series) stacked = events_callback cb self series
    role_callback cb self client (remove_request target uuid) stacked =
        remove_callback self client target uuid stacked
    role_callback cb self client exit_request stacked = some (negsuc 0, send self ack client)
    role_callback cb self client tick_request stacked = some (tick_callback cb self client)
    role_callback cb self client unhandled stacked = some (returned einval, self)
