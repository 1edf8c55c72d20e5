-- ===== src/Daemon/Ticks.antt =====
-- From the events of a control loop's input to the order for the actuator of its output.
use libnrm.Prelude.{bind_some, ℕ, ◌≡◌, refl, ◌∙◌, true, some, List, [], ◌∷◌, ◌++◌, if◌then◌else◌}
use libnrm.Prelude.Int.{ℤ, pos}
use libnrm.Prelude.Bytes.{Bytes}
use libnrm.Error.{success}
use libnrm.Ext.Uthash.{Uthash}
use libnrm.Ext.Utarray.{Utarray, Memory}
use libnrm.Ext.Qsort.{Qsort}
use libnrm.Ext.Doubles.{Doubles, Le}
use libnrm.Ext.Arithmetic.{Arithmetic}
use libnrm.Time.{Time}
use libnrm.Scope.{Scope}
use libnrm.Hash.Laws.{found}
use libnrm.Timeserie.{Timeserie, Event, events_of}
use libnrm.Actuator.{Actuator, set_value, validate_value}
use libnrm.Actuator.Valid.{IsReadyFor, validate-corrected}
use libnrm.Eventbase
use libnrm.Eventbase.{pull_timeserie}
use libnrm.State.Laws.{actuator_at}
use libnrm.Server
use libnrm.Server.{actuate_order}
use libnrm.Server.Laws.{
  corrected, ordered, actuate_directly_lem, find-write_value, validate-set_value,
}
use libnrm.Control.{Input, Output, Data, events2progress, getargs, asked_since}
use libnrm.Control.Action.{IsChosen, action_lem}
use libnrm.Daemon.{Context, Nrmd}
use libnrm.Daemon.Tick.{
  actuator_value, pull_input, pull_inputs, read_outputs, actuate_outputs, tick_events, control_tick,
}

module _ (uh : Uthash Bytes) (hz : Uthash ℤ) (ua : Utarray) (fp : Doubles) (ar : Arithmetic fp)
    (qs : Qsort ua) (m : Memory ua) where
  -- A control loop with one input and one output.
  abbrev pub loop_of : Data ua fp ar → Input ua fp ar → Output ua fp ar → Data ua fp ar
  loop_of d input out = record d { inputs = input ∷ []; outputs = out ∷ [] }

  -- The input with the events that were pulled for it.
  abbrev pub pulled : Input ua fp ar → Time → Timeserie ua fp.Double → Input ua fp ar
  pulled input since ts = record input { since = since; timeserie = some ts }

  pull_input_lem :
      (server : Nrmd uh hz ua fp) (clock : Time) (input : Input ua fp ar) (scope : Scope)
      (ts : Timeserie ua fp.Double)
      → uh.find Scope server.state.scopes input.scope_uuid ≡ some scope
      → pull_timeserie ua uh hz fp.Double
          (some server.user.events)
          input.sensor_uuid
          scope
          input.since
          clock
        ≡ some (success, some ts)
      → pull_input uh hz ua fp ar qs server clock input
        ≡ some (record input { timeserie = some ts })
  unfolding pull_input
  pull_input_lem server clock input scope ts h p =
      bind_some (found uh server.state.scopes input.scope_uuid ∙ h) _ ∙ bind_some p _

  -- nrmd_control_tick of a daemon whose control loop is active and has one input and one output, with
  -- memory left and bounds in order, when the input's scope is known and has two events or more since the
  -- last action, and the output's actuator is known, has an owner and is ready for every value: it
  -- returns 0; the loop chooses a value from the old one by the progress that the events show; the
  -- actuator gets that value corrected, which it accepts, its owner is sent the corrected value, and the
  -- other actuators and the event base stay.
  pub control_tick_lem :
      (server : Nrmd uh hz ua fp) (d : Data ua fp ar) (input : Input ua fp ar)
      (out : Output ua fp ar) (now later : Time) (clock : ℕ → Time) (scope : Scope)
      (ts : Timeserie ua fp.Double)
      → (e e' : Event fp.Double) (es : List (Event fp.Double)) (a : Actuator ua fp) (owner : Bytes)
      → uh.find Scope server.state.scopes input.scope_uuid ≡ some scope
      → pull_timeserie ua uh hz fp.Double
          (some server.user.events)
          input.sensor_uuid
          scope
          d.lastaction
          (clock 0)
        ≡ some (success, some ts)
      → events_of ua fp.Double ts ≡ e ∷ e' ∷ es
      → d.active ≡ true
      → Le fp d.pcap_min_l d.pcap_max_l
      → actuator_at uh ua fp server.state out.actuator_uuid ≡ some a
      → a.clientid ≡ some owner
      → ((x : fp.Double) → IsReadyFor ua fp x a.kind)
      → (prog value newe : fp.Double) × (server' : Nrmd uh hz ua fp) × (d' : Data ua fp ar)
        × (events2progress ua fp ar qs ts.events ≡ some prog)
        × IsChosen ua fp ar
            (loop_of d
              (pulled input d.lastaction ts)
              (record out { value = actuator_value uh hz ua fp ar qs server out.actuator_uuid }))
            prog
            (actuator_value uh hz ua fp ar qs server out.actuator_uuid)
            (value, newe)
        × (control_tick uh hz ua fp ar qs server (loop_of d input out) now clock later
            ≡ some (pos 0, server', d'))
        × (server'.sent
            ≡ server.sent
              ++ (
                owner,
                actuate_order out.actuator_uuid (corrected uh ua fp (Context uh hz ua fp) a value),
              )
                ∷ [])
        × ((j : Bytes)
            → actuator_at uh ua fp server'.state j ≡ (
                if uh.key.same out.actuator_uuid j
                then some (set_value ua fp a (corrected uh ua fp (Context uh hz ua fp) a value))
                else actuator_at uh ua fp server.state j))
        × (validate_value ua fp
              (set_value ua fp a (corrected uh ua fp (Context uh hz ua fp) a value))
              (corrected uh ua fp (Context uh hz ua fp) a value)
            ≡ success)
        × (server'.user.events ≡ server.user.events)
  unfolding control_tick pull_inputs read_outputs actuate_outputs tick_events getargs asked_since
      Eventbase.tick Server.send
  control_tick_lem server d input out now later clock scope ts e e' es a owner at_scope pull two
        active order at_actuator owned ready =
      let read : Output ua fp ar = record out {
        value = actuator_value uh hz ua fp ar qs server out.actuator_uuid;
      } in
      let (prog, value, newe, found_, acted, chosen) =
        action_lem ua fp ar qs m (loop_of d (pulled input d.lastaction ts) read) later
          (pulled input d.lastaction ts) [] read [] ts e e' es refl refl two refl active order in
      (
        prog,
        value,
        newe,
        tick_events uh hz ua fp ar qs
            (ordered uh ua fp (Context uh hz ua fp) server owner out.actuator_uuid
              (corrected uh ua fp (Context uh hz ua fp) a value))
            now,
        _,
        found_,
        chosen,
        bind_some
              (bind_some
                (pull_input_lem server (clock 0) (record input { since = d.lastaction }) scope ts
                  at_scope pull)
                _)
              _
            ∙ bind_some acted _
            ∙ bind_some
                (bind_some
                  (actuate_directly_lem uh ua fp (Context uh hz ua fp) server out.actuator_uuid
                    owner a value at_actuator owned)
                  _)
                _,
        refl,
        λ j.
            find-write_value uh ua fp (Context uh hz ua fp) server.state out.actuator_uuid j
              (corrected uh ua fp (Context uh hz ua fp) a value) a at_actuator,
        validate-set_value uh ua fp (Context uh hz ua fp) a _ _
            ∙ (validate-corrected ua fp a value (ready value)).1,
        refl,
      )
