-- ===== src/Daemon/TickTests.antt =====
-- The theorem of nrmd_control_tick on a daemon with two events and one actuator.
use libnrm.Prelude.{◌≡◌, refl, some, [], ◌∷◌, ◌++◌, if◌then◌else◌}
use libnrm.Prelude.Int.{ℤ, pos, quot, rem, ◌*ℤ◌, ◌+ℤ◌, ◌-ℤ◌}
use libnrm.Prelude.Bytes.{Bytes, bytes_eq}
use libnrm.Error.{success}
use libnrm.Ext.Assoc.{lookup, modify}
use libnrm.Ext.Models.{list_array, list_memory, same_ℤ}
use libnrm.Ext.Integers.{integers}
use libnrm.Ext.Insertion.{insertion_sort}
use libnrm.Ext.Arithmetic.{whole_arithmetic}
use libnrm.Time.{Time, tons, fromns}
use libnrm.Scope.{Scope}
use libnrm.Timeserie
use libnrm.Timeserie.{Timeserie, Event}
use libnrm.Vector
use libnrm.Actuator.{set_value, validate_value}
use libnrm.Hash
use libnrm.Eventbase
use libnrm.Eventbase.{Eventbase, create, pull_timeserie, time2key}
use libnrm.Eventbase.Pull.{run}
use libnrm.State.Laws.{actuator_at}
use libnrm.State.Tests.{names, keys, cap, cap_name, first_client, cap_found}
use libnrm.Server.{actuate_order}
use libnrm.Server.Laws.{corrected}
use libnrm.Control.{Output, Data, events2progress}
use libnrm.Control.Action.{IsChosen}
use libnrm.Control.Tests.{at, node, input, loop}
use libnrm.Daemon.{Context, Nrmd}
use libnrm.Daemon.Tick.{actuator_value, control_tick}
use libnrm.Daemon.Ticks.{loop_of, pulled, control_tick_lem}

abbrev Mine : Type 0
Mine = Context names keys list_array integers

abbrev two_events : Eventbase list_array names keys ℤ
two_events = run list_array names keys ℤ (create list_array names keys ℤ 5) (
    record { sensor = 115 ∷ []; scope = node; time = at (pos 1); value = pos 5 }
    ∷ record { sensor = 115 ∷ []; scope = node; time = at (pos 3); value = pos 12 }
    ∷ [])

abbrev series : Timeserie list_array ℤ
series = record {
  sensor_uuid = 115 ∷ [];
  scope = node;
  events = record {
    array =
        record { time = at (pos 1); value = pos 5 }
        ∷ record { time = at (pos 3); value = pos 12 }
        ∷ [];
    sz = 24;
  };
  start = at (pos 3);
}

abbrev nine : Time
nine = record { sec = pos 9; nsec = pos 0 }

series_pulled :
    pull_timeserie list_array names keys ℤ (some two_events) (115 ∷ []) node (at (pos 0)) nine
    ≡ some (success, some series)
unfolding pull_timeserie Timeserie.create Vector.create Eventbase.collect Hash.find run
    Eventbase.push_event Eventbase.push_in_base modify Eventbase.with_sensor create
    Eventbase.add_sensor Hash.add lookup bytes_eq Eventbase.push_in_sensor Eventbase.with_scope
    Eventbase.add_event Eventbase.add_scope Eventbase.add_timeslice Eventbase.new_events
    Eventbase.pull_slices Eventbase.push_in_scope Eventbase.slices_of Eventbase.take_slice time2key
    Eventbase.with_slice quot rem ◌*ℤ◌ ◌+ℤ◌ ◌-ℤ◌ fromns tons Timeserie.add_each Timeserie.add_event
    Timeserie.add_events Vector.append_one Vector.elements Vector.iterate Vector.push_back
    Vector.store same_ℤ
series_pulled = refl

abbrev host : Nrmd names keys list_array integers
host = record {
  state = record {
    actuators = (cap_name, cap) ∷ [];
    scopes = (110 ∷ [], node) ∷ [];
    sensors = [];
    slices = [];
  };
  sent = [];
  published = [];
  user = record {
    events = two_events;
    mysensor = record { uuid = 116 ∷ [] };
    myscope = node;
    mytopic = 100 ∷ [];
    eventtopic = 114 ∷ [];
  };
}

abbrev out : Output list_array integers whole_arithmetic
out = record { actuator_uuid = cap_name; value = pos 0 }

node_found : names.find Scope host.state.scopes input.scope_uuid ≡ some node
unfolding lookup bytes_eq
node_found = refl

control_tick_lem_example :
    (prog : ℤ) × (value : ℤ) × (newe : ℤ) × (server' : Nrmd names keys list_array integers)
    × (d' : Data list_array integers whole_arithmetic) × (events2progress list_array integers
          whole_arithmetic insertion_sort series.events
        ≡ some prog)
    × IsChosen list_array integers whole_arithmetic
        (loop_of names keys list_array integers whole_arithmetic insertion_sort list_memory loop
          (pulled names keys list_array integers whole_arithmetic insertion_sort list_memory input
            (at (pos 0))
            series)
          (record out {
            value =
                actuator_value names keys list_array integers whole_arithmetic insertion_sort host
                  cap_name;
          }))
        prog
        (actuator_value names keys list_array integers whole_arithmetic insertion_sort host
          cap_name)
        (value, newe)
    × (control_tick names keys list_array integers whole_arithmetic insertion_sort host
          (loop_of names keys list_array integers whole_arithmetic insertion_sort list_memory loop
            input out)
          nine
          (λ i. nine)
          nine
        ≡ some (pos 0, server', d'))
    × (server'.sent
        ≡ host.sent
          ++ (
            first_client,
            actuate_order cap_name (corrected names list_array integers Mine cap value),
          )
            ∷ [])
    × ((j : Bytes)
        → actuator_at names list_array integers server'.state j ≡ (
            if names.key.same cap_name j
            then some (
                set_value list_array integers cap
                  (corrected names list_array integers Mine cap value))
            else actuator_at names list_array integers host.state j))
    × (validate_value list_array integers
          (set_value list_array integers cap (corrected names list_array integers Mine cap value))
          (corrected names list_array integers Mine cap value)
        ≡ success)
    × (server'.user.events ≡ host.user.events)
control_tick_lem_example =
    control_tick_lem names keys list_array integers whole_arithmetic insertion_sort list_memory host
      loop input out nine nine (λ i. nine) node series (record { time = at (pos 1); value = pos 5 })
      (record { time = at (pos 3); value = pos 12 }) [] cap first_client node_found series_pulled
      refl refl refl cap_found refl (λ x. refl)
