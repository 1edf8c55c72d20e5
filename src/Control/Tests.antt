-- ===== src/Control/Tests.antt =====
-- The theorems of src/control/europar21.c on three events, and whole numbers for `double`.
use libnrm.Prelude.{◌≡◌, refl, some, true, [], ◌∷◌, List}
use mathlib.Core.List.{Perm}
use libnrm.Prelude.Int.{ℤ, pos}
use libnrm.Error.{success}
use libnrm.Ext.Models.{list_array, list_memory}
use libnrm.Ext.Integers.{integers}
use libnrm.Ext.Insertion.{insertion_sort}
use libnrm.Ext.Arithmetic.{whole_arithmetic}
use libnrm.Time.{Time}
use libnrm.Scope.{Scope}
use libnrm.Timeserie.{Timeserie, Event}
use libnrm.Vector.{Vector}
use libnrm.Vector.Sorting.{IsAscending}
use libnrm.Control.{Input, Output, Data, events2progress, action}
use libnrm.Control.Progress.{frequencies, IsMedian, events2progress_lem}
use libnrm.Control.Action.{IsChosen, action_lem}

abbrev pub at : ℤ → Time
at n = record { sec = pos 0; nsec = n }

abbrev pub first : Event ℤ
first = record { time = at (pos 1); value = pos 5 }

abbrev pub later : List (Event ℤ)
later =
    record { time = at (pos 3); value = pos 12 } ∷ record { time = at (pos 7); value = pos 8 } ∷ []

abbrev heard : Vector list_array (Event ℤ)
heard = record { array = first ∷ later; sz = 24 }

abbrev freqs : List ℤ
freqs = frequencies list_array integers whole_arithmetic first later

events2progress_lem_example :
    (r : ℤ) × (w : List ℤ) × (events2progress list_array integers whole_arithmetic insertion_sort
        heard
      ≡ some r)
    × Perm w freqs
    × IsAscending integers w
    × IsMedian integers whole_arithmetic w r
events2progress_lem_example =
    events2progress_lem list_array integers whole_arithmetic insertion_sort list_memory heard first
      (record { time = at (pos 3); value = pos 12 })
      (record { time = at (pos 7); value = pos 8 } ∷ []) refl

abbrev pub node : Scope
node = record { uuid = 110 ∷ []; maps = [] }

abbrev series : Timeserie list_array ℤ
series = record { sensor_uuid = 115 ∷ []; scope = node; events = heard; start = at (pos 0) }

abbrev pub input : Input list_array integers whole_arithmetic
input = record {
  sensor_uuid = 115 ∷ [];
  scope_uuid = 110 ∷ [];
  since = at (pos 0);
  timeserie = some series;
}

abbrev pub output : Output list_array integers whole_arithmetic
output = record { actuator_uuid = 99 ∷ []; value = pos 100 }

abbrev pub loop : Data list_array integers whole_arithmetic
loop = record {
  active = true;
  a = pos 1;
  b = pos 2;
  alpha = pos 1;
  beta = pos 3;
  kl = pos 4;
  t = pos 1;
  e = pos 1;
  tobj = pos 2;
  pcap_max = pos 200;
  pcap_min_l = pos 1;
  pcap_max_l = pos 5;
  prev_e = pos 0;
  lastaction = at (pos 0);
  inputs = input ∷ [];
  outputs = output ∷ [];
}

action_lem_example :
    (prog : ℤ) × (value : ℤ) × (newe : ℤ) × (events2progress list_array integers whole_arithmetic
        insertion_sort heard
      ≡ some prog)
    × (action list_array integers whole_arithmetic insertion_sort loop (at (pos 9))
        ≡ some (
          success,
          record loop {
            outputs = record output { value = value } ∷ [];
            prev_e = newe;
            lastaction = at (pos 9);
          },
        ))
    × IsChosen list_array integers whole_arithmetic loop prog (pos 100) (value, newe)
action_lem_example =
    action_lem list_array integers whole_arithmetic insertion_sort list_memory loop (at (pos 9))
      input [] output [] series first (record { time = at (pos 3); value = pos 12 })
      (record { time = at (pos 7); value = pos 8 } ∷ []) refl refl refl refl refl refl
