-- ===== src/Daemon/Tick.antt =====
-- src/binaries/nrmd.c: nrmd_control_tick and the callbacks that call it, for a daemon that has a
-- control loop. The clock is read once for each input's events and once for the action; an input's
-- scope is a pointer that is not set unless the search finds one, and `none` is its use.
use libnrm.Prelude.{◌>>=◌, ℕ, ◌+◌, Option, none, some, List, [], ◌∷◌}
use libnrm.Prelude.Int.{ℤ, pos}
use libnrm.Prelude.Bytes.{Bytes}
use libnrm.Ext.Uthash.{Uthash}
use libnrm.Ext.Utarray.{Utarray}
use libnrm.Ext.Qsort.{Qsort}
use libnrm.Ext.Doubles.{Doubles}
use libnrm.Ext.Arithmetic.{Arithmetic}
use libnrm.Time.{Time}
use libnrm.Hash
use libnrm.Eventbase
use libnrm.Server
use libnrm.Control
use libnrm.Control.{Input, Output, Data}
use libnrm.Daemon.{Context, Nrmd}

module _ (uh : Uthash Bytes) (hz : Uthash ℤ) (ua : Utarray) (fp : Doubles) (ar : Arithmetic fp)
    (qs : Qsort ua) where
  abbrev Host : Type 0
  Host = Nrmd uh hz ua fp

  -- nrmd_actuator_value
  unfoldable pub actuator_value : Host → Bytes → fp.Double
  actuator_value server uuid = elim (Hash.find uh server.state.actuators (some uuid)).1 [
    | none ↦ fp.zero
    | some a ↦ a.value
  ]

  -- The loop of nrmd_control_tick over the inputs: one of them, and all from number `i` on.
  unfoldable pub pull_input : Host → Time → Input ua fp ar → Option (Input ua fp ar)
  pull_input server clock input = do
    scope ← (Hash.find uh server.state.scopes (some input.scope_uuid)).1
    r ←
        Eventbase.pull_timeserie ua uh hz fp.Double (some server.user.events) input.sensor_uuid
          scope input.since clock
    ts ← r.1
    some (record input { timeserie = some ts })

  unfoldable pub pull_inputs :
      Host → (ℕ → Time) → ℕ → List (Input ua fp ar) → Option (List (Input ua fp ar))
  unfolding pull_input
  pull_inputs server clock i [] = some []
  pull_inputs server clock i (input ∷ l) = do
    pulled ← pull_input server (clock i) input
    rest ← pull_inputs server clock (i + 1) l
    some (pulled ∷ rest)

  -- Its loop that fills the outputs.
  unfoldable pub read_outputs : Host → List (Output ua fp ar) → List (Output ua fp ar)
  unfolding actuator_value
  read_outputs server [] = []
  read_outputs server (out ∷ l) =
      record out { value = actuator_value server out.actuator_uuid } ∷ read_outputs server l

  -- Its loop that updates the actuators.
  unfoldable pub actuate_outputs : Host → List (Output ua fp ar) → Option Host
  actuate_outputs server [] = some server
  actuate_outputs server (out ∷ l) = do
    after ←
        Server.actuate_directly uh ua fp (Context uh hz ua fp) server out.actuator_uuid out.value
    actuate_outputs after l

  -- nrm_eventbase_tick on the daemon's event base
  unfoldable pub tick_events : Host → Time → Host
  tick_events server now = record server {
    user = record server.user {
      events = (Eventbase.tick ua uh hz fp.Double server.user.events now).1;
    };
  }

  -- nrmd_control_tick, with the times that the clock shows: at its start, for each input, and at
  -- the end of the action
  unfoldable pub control_tick :
      Host → Data ua fp ar → Time → (ℕ → Time) → Time → Option (ℤ × Host × Data ua fp ar)
  unfolding pull_inputs read_outputs actuate_outputs tick_events
  control_tick server control now clock later =
      let args = Control.getargs ua fp ar control in
      (do
        inputs ← pull_inputs server clock 0 args.inputs
        r ←
            Control.action ua fp ar qs
              (record args { inputs = inputs; outputs = read_outputs server args.outputs }) later
        after ← actuate_outputs server r.1.outputs
        some (pos 0, tick_events after now, r.1))

  -- nrmd_tick_callback and nrmd_timer_callback, with the daemon's control loop if it has one
  unfoldable pub tick_callback :
      Host
      → Option (Data ua fp ar)
      → Time
      → (ℕ → Time)
      → Time
      → Option (ℤ × Host × Option (Data ua fp ar))
  unfolding control_tick
  tick_callback server none now clock later = some (pos 0, server, none)
  tick_callback server (some control) now clock later = do
    r ← control_tick server control now clock later
    some (pos 0, r.1, some r.2)

  unfoldable pub timer_callback :
      Host
      → Option (Data ua fp ar)
      → fp.Double
      → Time
      → Time
      → (ℕ → Time)
      → Time
      → Option (ℤ × Host × Option (Data ua fp ar))
  unfolding tick_callback
  timer_callback server control one start now clock later = do
    after ←
        Server.publish uh ua fp (Context uh hz ua fp) server server.user.mytopic start
          server.user.mysensor.uuid server.user.myscope one
    tick_callback after control now clock later
