-- ===== src/Client/Sending.antt =====
-- src/client.c: the calls that remove an object or only send, and the listeners.
use libnrm.Prelude.{◌>>=◌, Option, none, some, List, [], ◌∷◌}
use libnrm.Prelude.Int.{ℤ, pos}
use libnrm.Prelude.Bytes.{Bytes}
use libnrm.Error.{ErrorCode, success, einval}
use libnrm.Ext.Utarray.{Utarray}
use libnrm.Ext.Qsort.{Qsort}
use libnrm.Ext.Doubles.{Doubles}
use libnrm.Time.{Time, fromns}
use libnrm.Scope.{Scope}
use libnrm.Timeserie
use libnrm.Timeserie.{Timeserie}
use libnrm.Vector
use libnrm.Vector.{Vector, Ptr}
use libnrm.Actuator.{Actuator}
use libnrm.State.{Sensor, Slice}
use libnrm.Message
use libnrm.Message.{
  Message, slice_target, sensor_target, scope_target, actuator_target, remove_type, events_type,
  exit_type, tick_type, EventMsg, TimeserieMsg, series, actuation, created, set_remove,
}
use libnrm.Message.Parsing.{scope_create_frommsg}
use libnrm.Client.{Transport}
use libnrm.Client.Calls.{acknowledged}

module _ (ua : Utarray) (fp : Doubles) (qs : Qsort ua) (net : Transport fp.Double) where
  abbrev World : Type 0
  World = net.World

  -- nrm_client_remove_actuator
  unfoldable pub remove_actuator : World → Ptr (Actuator ua fp) → Option (ErrorCode × World)
  remove_actuator w none = some (einval, w)
  remove_actuator w (some a) =
      acknowledged ua fp qs net w (set_remove (created remove_type) actuator_target a.uuid)

  -- nrm_client_remove_scope
  unfoldable pub remove_scope : World → Ptr Scope → Option (ErrorCode × World)
  remove_scope w none = some (einval, w)
  remove_scope w (some s) =
      acknowledged ua fp qs net w (set_remove (created remove_type) scope_target s.uuid)

  -- nrm_client_remove_sensor
  unfoldable pub remove_sensor : World → Ptr Sensor → Option (ErrorCode × World)
  remove_sensor w none = some (einval, w)
  remove_sensor w (some s) =
      acknowledged ua fp qs net w (set_remove (created remove_type) sensor_target s.uuid)

  -- nrm_client_remove_slice
  unfoldable pub remove_slice : World → Ptr Slice → Option (ErrorCode × World)
  remove_slice w none = some (einval, w)
  remove_slice w (some s) =
      acknowledged ua fp qs net w (set_remove (created remove_type) slice_target s.uuid)

  -- The vector with one time series in it; its code is not looked at.
  unfoldable pub one_series : Timeserie ua fp.Double → Option (Vector ua (Timeserie ua fp.Double))
  one_series ts = do
    made ← (Vector.create ua (some none) 8).1
    v ← made
    some (Vector.append_one ua v ts).1

  -- nrm_client_send_event
  unfoldable pub send_event :
      World → Time → Ptr Sensor → Ptr Scope → fp.Double → Option (ErrorCode × World)
  unfolding one_series
  send_event w time none place value = some (einval, w)
  send_event w time (some sensor) none value = some (einval, w)
  send_event w time (some sensor) (some place) value = do
    ts ← (Timeserie.create ua fp.Double (some sensor.uuid) (some place)).1
    timeseries ← one_series (Timeserie.add_event ua fp.Double ts time value)
    after ← net.role_send w (Message.set_events ua (created events_type) (some timeseries))
    some (success, after)

  -- nrm_client_send_exit; the daemon's answer is left where it comes
  unfoldable pub send_exit : World → Option (ErrorCode × World)
  send_exit w = do after ← net.role_send w (created exit_type); some (success, after)

  -- nrm_client_send_tick
  unfoldable pub send_tick : World → Option (ErrorCode × World)
  send_tick w = acknowledged ua fp qs net w (created tick_type)

-- The listeners of struct nrm_client_s, over what the program that sets them keeps.
pub record Listeners (D Ctx : Type 0) : Type 0 where
  pub user_fn : Option (Ctx → Bytes → Time → Ptr Scope → D → Ctx)
  pub actuate_fn : Option (Ctx → Bytes → D → Ctx)

module _ {D Ctx : Type 0} where
  -- nrm_client_set_event_listener and nrm_client_set_actuate_listener
  unfoldable pub set_event_listener :
      Listeners D Ctx → Ptr (Ctx → Bytes → Time → Ptr Scope → D → Ctx) → ErrorCode × Listeners D Ctx
  set_event_listener client none = (einval, client)
  set_event_listener client (some fn) = (success, record client { user_fn = some fn })

  unfoldable pub set_actuate_listener :
      Listeners D Ctx → Ptr (Ctx → Bytes → D → Ctx) → ErrorCode × Listeners D Ctx
  set_actuate_listener client none = (einval, client)
  set_actuate_listener client (some fn) = (success, record client { actuate_fn = some fn })

  -- The inner and the outer loop of nrm_client__sub_callback.
  unfoldable pub hear_events :
      (Ctx → Bytes → Time → Ptr Scope → D → Ctx) → Bytes → Ptr Scope → Ctx → List (EventMsg D) → Ctx
  hear_events fn uuid place c [] = c
  hear_events fn uuid place c (e ∷ es) =
      hear_events fn uuid place (fn c uuid (fromns e.time) place e.value) es

  unfoldable pub hear_series :
      (Ctx → Bytes → Time → Ptr Scope → D → Ctx) → Ctx → List (TimeserieMsg D) → Ctx
  unfolding hear_events
  hear_series fn c [] = c
  hear_series fn c (ts ∷ l) =
      hear_series fn
        (hear_events fn ts.sensor_uuid (scope_create_frommsg (some ts.scope)) c ts.events) l

  -- nrm_client__sub_callback, on a message that has events
  unfoldable pub sub_callback : Listeners D Ctx → Ctx → Message D → Option (ℤ × Ctx)
  unfolding hear_series
  sub_callback self c msg = elim self.user_fn [
    | none ↦ some (pos 0, c)
    | some fn ↦ elim msg.data_case [ series l ↦ some (pos 0, hear_series fn c l) | _ ↦ none ]
  ]

  -- nrm_client__actuate_callback, on a message that has an order
  unfoldable pub actuate_callback : Listeners D Ctx → Ctx → Message D → Option (ℤ × Ctx)
  actuate_callback self c msg = elim self.actuate_fn [
    | none ↦ some (pos 0, c)
    | some fn ↦ elim msg.data_case [ actuation m ↦ some (pos 0, fn c m.uuid m.value) | _ ↦ none ]
  ]
