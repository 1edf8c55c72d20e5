-- ===== src/Eventbase/Tests.antt =====
-- The theorem of src/eventbase.c on three events of two sensors.
use libnrm.Prelude.{ℕ, ◌≡◌, some, List, [], ◌∷◌}
use mathlib.Core.List.{Perm}
use libnrm.Prelude.Int.{ℤ, pos}
use libnrm.Prelude.Bytes.{Bytes}
use libnrm.Error.{success}
use libnrm.Ext.Uthash.{Uthash}
use libnrm.Ext.Models.{assoc_table, bytes_key, int_key, list_array, list_memory}
use libnrm.Time.{Time}
use libnrm.Scope.{Scope}
use libnrm.Timeserie.{Timeserie, events_of}
use libnrm.Eventbase.{create, pull_timeserie, time2key}
use libnrm.Eventbase.Pull.{Push, run, logged, in_range, pull-run}

abbrev names : Uthash Bytes
names = assoc_table bytes_key

abbrev keys : Uthash ℤ
keys = assoc_table int_key

abbrev machine : Scope
machine = record { uuid = 109 ∷ []; maps = [] }

abbrev at_second : ℕ → Time
at_second n = record { sec = pos n; nsec = pos 0 }

abbrev three_events : List (Push ℕ)
three_events =
    record { sensor = 112 ∷ []; scope = machine; time = at_second 1; value = 10 }
    ∷ record { sensor = 113 ∷ []; scope = machine; time = at_second 2; value = 20 }
    ∷ record { sensor = 112 ∷ []; scope = machine; time = at_second 3; value = 30 }
    ∷ []

pull-run_example :
    (ts : Timeserie list_array ℕ) × (pull_timeserie list_array names keys ℕ
        (some (run list_array names keys ℕ (create list_array names keys ℕ 5) three_events))
        (112 ∷ [])
        machine
        (at_second 1)
        (at_second 3)
      ≡ some (success, some ts))
    × Perm (events_of list_array ℕ ts) (
        logged list_array names keys ℕ
          (112 ∷ [])
          (109 ∷ [])
          (in_range (time2key (at_second 1)) (time2key (at_second 3)))
          three_events)
    × (ts.sensor_uuid ≡ 112 ∷ [])
    × (ts.scope ≡ machine)
pull-run_example =
    pull-run list_array names keys ℕ list_memory 5 three_events (112 ∷ []) machine (at_second 1)
      (at_second 3)
