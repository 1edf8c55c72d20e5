-- ===== src/Daemon.antt =====
-- src/binaries/nrmd.c: the daemon's callbacks over the server, here with no control loop configured
-- (`control == NULL`). The event callback files an event and publishes it.
pub mod Tests
pub mod Events
pub mod Tick
pub mod Ticks
pub mod TickTests
use libnrm.Prelude.{◌>>=◌, ℕ, Option, none, some, List, [], ◌∷◌, ◌++◌}
use libnrm.Prelude.Int.{ℤ, pos}
use libnrm.Prelude.Bytes.{Bytes}
use libnrm.Ext.Uthash.{Uthash}
use libnrm.Ext.Utarray.{Utarray}
use libnrm.Ext.Doubles.{Doubles}
use libnrm.Time.{Time}
use libnrm.Scope.{Scope}
use libnrm.Actuator.{Actuator}
use libnrm.Eventbase
use libnrm.Eventbase.{Eventbase}
use libnrm.State.{Sensor}
use libnrm.Server
use libnrm.Server.{Server, Callbacks}

module _ (uh : Uthash Bytes) (hz : Uthash ℤ) (ua : Utarray) (fp : Doubles) where
  -- struct nrm_daemon_s, less the state and the server
  pub record Context : Type 0 where
    pub events : Eventbase ua uh hz fp.Double
    pub mysensor : Sensor
    pub myscope : Scope
    pub mytopic : Bytes
    pub eventtopic : Bytes

  abbrev pub Nrmd : Type 0
  Nrmd = Server uh ua fp Context

  -- The server once nrm_eventbase_push_event was called on the daemon's event base.
  unfoldable pub with_event : Nrmd → Bytes → Scope → Time → fp.Double → Nrmd
  with_event server uuid scope time value = record server {
    user = record server.user {
      events =
          elim (Eventbase.push_event ua uh hz fp.Double (some server.user.events) uuid (some scope)
            time value).1 [ none ↦ server.user.events | some eb ↦ eb ];
    };
  }

  -- nrmd_event_callback, whose result nobody reads
  unfoldable pub event_callback : Nrmd → Bytes → Scope → Time → fp.Double → Option Nrmd
  unfolding with_event
  event_callback server uuid scope time value =
      Server.publish uh ua fp Context (with_event server uuid scope time value)
        server.user.eventtopic time uuid scope value

  -- nrmd_actuate_callback
  unfoldable pub actuate_callback : Nrmd → Actuator ua fp → fp.Double → ℤ × Nrmd
  actuate_callback server a value = (pos 0, server)

  -- nrmd_tick_callback
  unfoldable pub tick_callback : Nrmd → ℤ × Nrmd
  tick_callback server = (pos 0, server)

  -- nrmd_timer_callback, with the time that the clock shows and the number 1.0
  unfoldable pub timer_callback : Nrmd → Time → fp.Double → Option (ℤ × Nrmd)
  timer_callback server now one = do
    after ←
        Server.publish uh ua fp Context server server.user.mytopic now server.user.mysensor.uuid
          server.user.myscope one
    some (pos 0, after)

  -- The callbacks that `main` hands to nrm_server_setcallbacks.
  unfoldable pub callbacks : Callbacks uh ua fp Context
  unfolding event_callback actuate_callback tick_callback
  callbacks = record {
    event = event_callback;
    actuate = actuate_callback;
    tick = some tick_callback;
  }
