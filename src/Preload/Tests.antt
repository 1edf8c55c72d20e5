-- ===== src/Preload/Tests.antt =====
-- Calls of nrm_ompt_send_event at several times, with a limit of 10 ns and a transport that keeps messages.
use libnrm.Prelude.{◌>>=◌, ℕ, ◌+◌, ◌≡◌, none, some, List, [], ◌∷◌}
use libnrm.Prelude.Int.{ℤ, pos}
use libnrm.Ext.Models.{list_array}
use libnrm.Ext.Integers.{integers}
use libnrm.Ext.Arithmetic.{whole_arithmetic}
use libnrm.Ext.Insertion.{insertion_sort}
use libnrm.Time.{Time}
use libnrm.Message.{Message}
use libnrm.Client.{Transport}
use libnrm.Client.Tests.{place, sensor}
use libnrm.Control.Tests.{at}
use libnrm.Preload.{calls}
use libnrm.Preload.Limits.{Batches, total, IsSpaced, last_of, counted, send_batches, calls_lem}

abbrev kept : Transport ℤ
kept = record { World = List (Message ℤ); role_send = λ w m. some (m ∷ w); role_recv = λ w. none }

abbrev times : List Time
times = at (pos 3) ∷ at (pos 20) ∷ at (pos 25) ∷ at (pos 26) ∷ at (pos 40) ∷ at (pos 41) ∷ []

calls_lem_example :
    (k : Batches) × (left : ℕ) × (calls list_array integers whole_arithmetic insertion_sort kept
        (some sensor)
        (some place)
        10
        (record { global_count = pos 0; last_send = at (pos 1); world = [] })
        times
      ≡ (send_batches list_array integers whole_arithmetic insertion_sort kept
            (some sensor)
            (some place)
            []
            k
          >>= (λ v. some (record {
            global_count =
                counted list_array integers whole_arithmetic insertion_sort kept
                  (some sensor)
                  (some place)
                  left;
            last_send = last_of (at (pos 1)) k;
            world = v;
          }))))
    × (total k + left ≡ 6)
    × IsSpaced 10 (at (pos 1)) k
calls_lem_example =
    calls_lem list_array integers whole_arithmetic insertion_sort kept (some sensor) (some place) 10
      0 (at (pos 1)) [] times
