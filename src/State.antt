-- ===== src/State.antt =====
-- src/state.c, src/sensor.c and src/slices.c: the objects that the daemon knows, in four tables by
-- their names. An object in a table is the one that its pointer points to: who changes the object
-- changes what the table holds. Memory for the names is there.
pub mod Tests
pub mod Laws
use libnrm.Prelude.{Option, none, some, List, [], ◌∷◌}
use libnrm.Prelude.Bytes.{Bytes}
use libnrm.Error.{ErrorCode}
use libnrm.Ext.Uthash.{Uthash}
use libnrm.Ext.Utarray.{Utarray}
use libnrm.Ext.Doubles.{Doubles}
use libnrm.Hash
use libnrm.Hash.{Removed, untouched, null_pointer, freed_element}
use libnrm.Vector
use libnrm.Vector.{Vector}
use libnrm.Scope.{Scope}
use libnrm.Actuator.{Actuator}

-- struct nrm_sensor and struct nrm_slice
pub record Sensor : Type 0 where
  pub uuid : Bytes

pub record Slice : Type 0 where
  pub uuid : Bytes

module _ (uh : Uthash Bytes) (ua : Utarray) (fp : Doubles) where
  -- struct nrm_state_s
  pub record State : Type 0 where
    pub actuators : uh.Table (Actuator ua fp)
    pub scopes : uh.Table Scope
    pub sensors : uh.Table Sensor
    pub slices : uh.Table Slice

  -- nrm_state_create
  unfoldable pub create : State
  create = record {
    actuators = uh.null (Actuator ua fp);
    scopes = uh.null Scope;
    sensors = uh.null Sensor;
    slices = uh.null Slice;
  }

  -- nrm_state_add_actuator and the like: the code of nrm_hash_add is not looked at, and the result
  -- is always 0
  unfoldable pub add_actuator : State → Actuator ua fp → State
  add_actuator s a = record s { actuators = (Hash.add uh s.actuators a.uuid a).1 }

  unfoldable pub add_scope : State → Scope → State
  add_scope s c = record s { scopes = (Hash.add uh s.scopes c.uuid c).1 }

  unfoldable pub add_sensor : State → Sensor → State
  add_sensor s n = record s { sensors = (Hash.add uh s.sensors n.uuid n).1 }

  unfoldable pub add_slice : State → Slice → State
  add_slice s l = record s { slices = (Hash.add uh s.slices l.uuid l).1 }

  -- What the destructors of actuators, sensors and slices do with the pointer that nrm_hash_remove
  -- left: nothing on NULL; `none` is the use of an element that was freed.
  unfoldable pub destroyed : {S : Type 0} → Removed → S → Option S
  destroyed untouched s = some s
  destroyed null_pointer s = some s
  destroyed freed_element s = none

  -- nrm_state_remove_actuator and the like. `stacked` is as in Hash.remove. `none` is a behaviour
  -- that C does not define.
  unfoldable pub remove_actuator : State → Bytes → Bytes → Option State
  unfolding destroyed
  remove_actuator s uuid stacked =
      let (err, t, ptr) = Hash.remove uh s.actuators (some uuid) stacked in
      destroyed ptr (record s { actuators = t })

  unfoldable pub remove_sensor : State → Bytes → Bytes → Option State
  unfolding destroyed
  remove_sensor s uuid stacked =
      let (err, t, ptr) = Hash.remove uh s.sensors (some uuid) stacked in
      destroyed ptr (record s { sensors = t })

  unfoldable pub remove_slice : State → Bytes → Bytes → Option State
  unfolding destroyed
  remove_slice s uuid stacked =
      let (err, t, ptr) = Hash.remove uh s.slices (some uuid) stacked in
      destroyed ptr (record s { slices = t })

  -- nrm_state_remove_scope: nrm_scope_destroy reads the scope's name without a test for NULL, so
  -- that no outcome of the removal is defined
  unfoldable pub remove_scope : State → Bytes → Bytes → Option State
  remove_scope s uuid stacked =
      let (err, t, ptr) = Hash.remove uh s.scopes (some uuid) stacked in
      elim ptr [ untouched ↦ none | null_pointer ↦ none | freed_element ↦ none ]

  -- The loops of nrm_state_list_actuators and the like; the codes of the pushes are not looked at.
  unfoldable pub push_each : {A : Type 0} → Vector ua A → List A → Vector ua A
  push_each v [] = v
  push_each v (x ∷ xs) = push_each (Vector.append_one ua v x).1 xs

  -- nrm_state_list_actuators and the like
  unfoldable pub list_actuators : State → Vector ua (Actuator ua fp) → Vector ua (Actuator ua fp)
  unfolding push_each
  list_actuators s vec = push_each vec (Hash.pointers uh s.actuators)

  unfoldable pub list_scopes : State → Vector ua Scope → Vector ua Scope
  unfolding push_each
  list_scopes s vec = push_each vec (Hash.pointers uh s.scopes)

  unfoldable pub list_sensors : State → Vector ua Sensor → Vector ua Sensor
  unfolding push_each
  list_sensors s vec = push_each vec (Hash.pointers uh s.sensors)

  unfoldable pub list_slices : State → Vector ua Slice → Vector ua Slice
  unfolding push_each
  list_slices s vec = push_each vec (Hash.pointers uh s.slices)
