-- ===== src/Daemon/Tests.antt =====
-- The daemon's theorems on a message with one series of two events.
use libnrm.Prelude.{◌≡◌, refl, some, List, [], ◌∷◌}
use mathlib.Core.List.{Perm}
use libnrm.Prelude.Int.{ℤ, pos}
use libnrm.Error.{success}
use libnrm.Ext.Models.{list_array, list_memory}
use libnrm.Ext.Integers.{integers}
use libnrm.Scope.{Scope}
use libnrm.Timeserie.{Timeserie, events_of}
use libnrm.Eventbase.{create, pull_timeserie, time2key}
use libnrm.Eventbase.Pull.{logged, in_range}
use libnrm.Server.{Series, role_callback, events_request}
use libnrm.State.Tests.{names, keys, first_client, fan_name, one_actuator}
use libnrm.Daemon.{Context, Nrmd, callbacks}
use libnrm.Daemon.Events.{pushes, pull-events}

abbrev machine : Scope
machine = record { uuid = 109 ∷ []; maps = [] }

abbrev Mine : Type 0
Mine = Context names keys list_array integers

abbrev nrmd : Nrmd names keys list_array integers
nrmd = record {
  state = one_actuator;
  sent = [];
  published = [];
  user = record {
    events = create list_array names keys ℤ 5;
    mysensor = record { uuid = 116 ∷ [] };
    myscope = machine;
    mytopic = 100 ∷ [];
    eventtopic = 114 ∷ [];
  };
}

abbrev one_series : List (Series names list_array integers)
one_series =
    record {
      sensor_uuid = 112 ∷ [];
      scope = machine;
      events = (pos 1500, pos 7) ∷ (pos 4200, pos 8) ∷ [];
    }
    ∷ []

pull-events_example :
    (after : Nrmd names keys list_array integers) × (ts : Timeserie list_array ℤ) × (role_callback
        names list_array integers Mine
        (callbacks names keys list_array integers)
        nrmd
        first_client
        (events_request one_series)
        fan_name
      ≡ some (pos 0, after))
    × (pull_timeserie list_array names keys ℤ
          (some after.user.events)
          (112 ∷ [])
          machine
          (record { sec = pos 0; nsec = pos 1000 })
          (record { sec = pos 1; nsec = pos 0 })
        ≡ some (success, some ts))
    × Perm (events_of list_array ℤ ts) (
        logged list_array names keys ℤ
          (112 ∷ [])
          (109 ∷ [])
          (in_range
            (time2key (record { sec = pos 0; nsec = pos 1000 }))
            (time2key (record { sec = pos 1; nsec = pos 0 })))
          (pushes names keys list_array integers one_series))
pull-events_example =
    pull-events names keys list_array integers list_memory nrmd first_client fan_name one_series 5
      (112 ∷ []) machine (record { sec = pos 0; nsec = pos 1000 })
      (record { sec = pos 1; nsec = pos 0 }) refl
