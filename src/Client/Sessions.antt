-- ===== src/Client/Sessions.antt =====
-- The theorems on what a client sends over the link: two events, and a request for an actuator.
use libnrm.Prelude.{◌≡◌, refl, none, some, List, [], ◌∷◌, arith, inr, if◌then◌else◌}
use mathlib.Core.List.{Perm}
use libnrm.Prelude.Int.{ℤ, pos}
use libnrm.Prelude.Bytes.{Bytes, bytes_eq}
use libnrm.Error.{success}
use libnrm.Ext.Assoc.{lookup}
use libnrm.Ext.Models.{list_array, list_memory}
use libnrm.Ext.Integers.{integers}
use libnrm.Ext.Insertion.{insertion_sort}
use libnrm.Time.{Time, IsNormal}
use libnrm.Scope
use libnrm.Scope.{Scope}
use libnrm.Timeserie.{Timeserie, events_of}
use libnrm.Actuator.{validate_value, set_value, within}
use libnrm.Eventbase.{create, pull_timeserie, time2key}
use libnrm.Eventbase.Pull.{Push, logged, in_range}
use libnrm.State.Laws.{actuator_at}
use libnrm.State.Tests.{names, keys, cap, cap_name, first_client}
use libnrm.Role.{Broker}
use libnrm.Server.Laws.{corrected}
use libnrm.Daemon.{Nrmd, Context}
use libnrm.Message.{Message}
use libnrm.Client.Link.{Link}
use libnrm.Client.Calls.{actuate}
use libnrm.Client.Sending.{Listeners}
use libnrm.Client.Link.{link}
use libnrm.Client.Gather.{Every, every_nil, every_cons}
use libnrm.Client.Events.{At, IsSendable, send_each, pull-send_each}
use libnrm.Client.Orders.{listening, heard_here, sent_elsewhere, actuate_lem}
use libnrm.Client.Tests.{broker, place, place-IsWhole, One, sensor, Host, host, bare, allowing}

-- A daemon with a new event base, and two events that a client sends to it.
abbrev nrmd : Nrmd names keys list_array integers
nrmd = record {
  state = bare.state;
  sent = [];
  published = [];
  user = record {
    events = create list_array names keys ℤ 5;
    mysensor = sensor;
    myscope = place;
    mytopic = 100 ∷ [];
    eventtopic = 114 ∷ [];
  };
}

abbrev second : Time
second = record { sec = pos 1; nsec = pos 500 }

abbrev pushes : List (Push ℤ)
pushes =
    record { sensor = 115 ∷ []; scope = place; time = second; value = pos 7 }
    ∷ record { sensor = 115 ∷ []; scope = place; time = second; value = pos 8 }
    ∷ []

second-IsNormal : IsNormal second
second-IsNormal = record { below = (omega arith, omega arith); signs = inr (refl, refl) }

abbrev Sendable : Push ℤ → Type 0
Sendable =
    IsSendable names keys list_array integers insertion_sort list_memory One [] broker first_client
      []

pushes-IsSendable : Every Sendable pushes
pushes-IsSendable =
    every_cons (record { normal = second-IsNormal; whole = place-IsWhole })
      (every_cons (record { normal = second-IsNormal; whole = place-IsWhole }) every_nil)

abbrev linked_to :
    Nrmd names keys list_array integers
    → Link names list_array integers insertion_sort (Context names keys list_array integers) One
linked_to =
    At names keys list_array integers insertion_sort list_memory One [] broker first_client []

pull-send_each_example :
    (s' : Nrmd names keys list_array integers) × (ts : Timeserie list_array ℤ) × (send_each names
        keys list_array integers insertion_sort list_memory One [] broker first_client []
        (linked_to nrmd)
        pushes
      ≡ some (linked_to s'))
    × (pull_timeserie list_array names keys ℤ
          (some s'.user.events)
          (115 ∷ [])
          place
          (record { sec = pos 0; nsec = pos 0 })
          (record { sec = pos 5; nsec = pos 0 })
        ≡ some (success, some ts))
    × Perm (events_of list_array ℤ ts) (
        logged list_array names keys ℤ
          (115 ∷ [])
          (112 ∷ [])
          (in_range
            (time2key (record { sec = pos 0; nsec = pos 0 }))
            (time2key (record { sec = pos 5; nsec = pos 0 })))
          pushes)
    × (s'.state ≡ nrmd.state)
unfolding Scope.create
pull-send_each_example =
    pull-send_each names keys list_array integers insertion_sort list_memory One [] broker
      first_client [] pushes nrmd 5 (115 ∷ []) place (record { sec = pos 0; nsec = pos 0 })
      (record { sec = pos 5; nsec = pos 0 }) refl pushes-IsSendable

-- A client that keeps the orders it hears.
abbrev Heard : Type 0
Heard = List (Bytes × ℤ)

abbrev keeper : Listeners ℤ Heard
keeper = record { user_fn = none; actuate_fn = some (λ c uuid value. (uuid, value) ∷ c) }

abbrev keeping : Broker ℤ Heard
keeping = record { rpc = []; pipe = []; topics = []; sub_cb = none; cmd_cb = none; arg = [] }

abbrev Keeping : Type 0
Keeping = Link names list_array integers insertion_sort One Heard

abbrev at : Heard → Host → List (Bytes × Message ℤ) → Keeping
at c s others =
    listening names list_array integers insertion_sort One Heard allowing [] keeper first_client
      keeping c s others

abbrev right : ℤ
right = corrected names list_array integers One cap (pos 120)

actuate_lem_example :
    (s' : Host) × (actuate list_array integers insertion_sort
        (link names list_array integers insertion_sort One Heard allowing [])
        (at [] host [])
        (some cap)
        (pos 120)
      ≡ some (
        success,
        at
            (heard_here names list_array integers insertion_sort One Heard allowing [] keeper
              first_client [] first_client cap_name right)
            s'
            (sent_elsewhere names list_array integers insertion_sort One Heard allowing [] keeper
              first_client [] first_client cap_name right),
      ))
    × ((j : Bytes)
        → actuator_at names list_array integers s'.state j ≡ (
            if names.key.same cap_name j
            then some (set_value list_array integers cap right)
            else actuator_at names list_array integers host.state j))
    × (validate_value list_array integers (set_value list_array integers cap right) right ≡ success)
unfolding validate_value within lookup bytes_eq
actuate_lem_example =
    actuate_lem names list_array integers insertion_sort One Heard allowing [] keeper first_client
      keeping [] host [] cap cap first_client (pos 120) refl refl refl refl refl
