-- ===== src/Client/Tests.antt =====
-- The theorems of src/client.c and src/messages.c on a daemon with one object of three kinds.
use libnrm.Prelude.{◌≡◌, refl, none, some, List, [], ◌∷◌, ◌++◌, map, Option}
use mathlib.Core.List.{Forall₂}
use libnrm.Prelude.Int.{ℤ, pos}
use libnrm.Prelude.Bytes.{Bytes}
use libnrm.Error.{success}
use libnrm.Ext.Assoc.{lookup}
use libnrm.Ext.Models.{list_array, list_memory}
use libnrm.Ext.Integers.{integers}
use libnrm.Ext.Insertion.{insertion_sort}
use libnrm.Bitmap.Membership.{reset-IsValid}
use libnrm.Scope
use libnrm.Scope.{Scope}
use libnrm.Vector.{Vector}
use libnrm.Actuator.{Actuator, Kind}
use libnrm.Actuator.Tests.{dial}
use libnrm.State
use libnrm.State.{State, Sensor, Slice}
use libnrm.State.Tests.{names, cap, cap_name, first_client}
use libnrm.Message.{actuator_new, scope_new}
use libnrm.Message.Parsing.{scope_create_frommsg, actuator_create_frommsg}
use libnrm.Message.RoundTrip.{
  IsWhole, IsCopy, SameKind, scope_create-scope_new, actuator_create-actuator_new,
}
use libnrm.Role.{Broker}
use libnrm.Server.{Server, Callbacks}
use libnrm.Hash.{pointers}
use libnrm.Error.{ErrorCode}
use libnrm.Vector.{Ptr}
use libnrm.Message.{TargetType, sensor_target, slice_target, scope_target, actuator_target}
use libnrm.Client.{Transport}
use libnrm.Client.Answers.{Linked}
use libnrm.Client.Link.{Link}
use libnrm.Client.Search.{Found}
use libnrm.Client.Calls.{
  list_sensors, list_slices, list_scopes, list_actuators, add_sensor, add_slice, add_scope,
  add_actuator,
}
use libnrm.Client.Link.{link}
use libnrm.Client.Search.{sensors_found, slices_found, scopes_found, actuators_found}
use libnrm.Client.Gather.{Every, every_nil, every_cons, all_named}
use libnrm.Client.Listed.{Lists, lists_lem}
use libnrm.Client.Finding.{Finds, find_lem}
use libnrm.Client.Adding.{after, adds_lem, add_actuator_lem}

abbrev pub place : Scope
place = Scope.create (112 ∷ [])

pub place-IsWhole : IsWhole place
unfolding Scope.create
place-IsWhole = record {
  three = refl;
  cpus = reset-IsValid (record { mask = [] });
  numas = reset-IsValid (record { mask = [] });
  gpus = reset-IsValid (record { mask = [] });
}

scope_create-scope_new_example : scope_create_frommsg (some (scope_new place)) ≡ some place
scope_create-scope_new_example = scope_create-scope_new place place-IsWhole

actuator_create-actuator_new_example :
    (k : Kind list_array integers) × (actuator_create_frommsg list_array integers insertion_sort
        (some (actuator_new list_array integers dial))
      ≡ some (some (record dial { kind = k })))
    × SameKind list_array integers dial.kind k
actuator_create-actuator_new_example =
    actuator_create-actuator_new list_array integers insertion_sort list_memory dial

abbrev pub One : Type 0
One = Unit {0}

abbrev pub sensor : Sensor
sensor = record { uuid = 115 ∷ [] }

abbrev slice : Slice
slice = record { uuid = 108 ∷ [] }

abbrev pub Host : Type 0
Host = Server names list_array integers One

abbrev pub host : Host
host = record {
  state = record {
    actuators = (cap_name, cap) ∷ [];
    scopes = (112 ∷ [], place) ∷ [];
    sensors = (115 ∷ [], sensor) ∷ [];
    slices = [];
  };
  sent = [];
  published = [];
  user = tt;
}

abbrev pub bare : Host
bare = record host { state = State.create names list_array integers }

abbrev pub allowing : Callbacks names list_array integers One
allowing = record {
  event = λ self uuid at time value. some self;
  actuate = λ self a value. (pos 0, self);
  tick = none;
}

abbrev pub broker : Broker ℤ One
broker = record { rpc = []; pipe = []; topics = []; sub_cb = none; cmd_cb = none; arg = tt }

pub scopes-IsWhole : Every IsWhole (pointers names host.state.scopes)
unfolding pointers
scopes-IsWhole = every_cons place-IsWhole every_nil

abbrev pub connected : Link names list_array integers insertion_sort One One
connected =
    Linked names list_array integers insertion_sort list_memory One One allowing [] broker host
      first_client []

abbrev pub net : Transport ℤ
net = link names list_array integers insertion_sort One One allowing []

abbrev Got :
    {A : Type 0}
    → Option (
        ErrorCode
        × Ptr (Vector list_array A)
        × Link names list_array integers insertion_sort One One)
    → (List A → Type 0)
    → Type 0
Got =
    Lists names list_array integers insertion_sort list_memory One One allowing [] broker host
      first_client []

lists_lem_example :
    Got
      (list_sensors list_array integers insertion_sort net connected)
      (λ l. l ≡ map some (pointers names host.state.sensors))
    × Got
        (list_slices list_array integers insertion_sort net connected)
        (λ l. l ≡ map some (pointers names host.state.slices))
    × Got
        (list_scopes list_array integers insertion_sort net connected)
        (λ l. l ≡ map some (pointers names host.state.scopes))
    × Got
        (list_actuators list_array integers insertion_sort net connected)
        (Forall₂ (IsCopy list_array integers) (pointers names host.state.actuators))
lists_lem_example =
    lists_lem names list_array integers insertion_sort list_memory One One allowing [] broker host
      first_client [] scopes-IsWhole

abbrev Hit :
    {A : Type 0}
    → TargetType
    → Bytes
    → (Vector list_array A → Found list_array integers insertion_sort net)
    → (List A → Type 0)
    → Type 0
Hit =
    Finds names list_array integers insertion_sort list_memory One One allowing [] broker host
      first_client []

find_lem_example :
    Hit sensor_target cap_name sensors_found
      (λ l. l ≡ map some (all_named (λ x. x.uuid) cap_name (pointers names host.state.sensors)))
    × Hit slice_target cap_name slices_found
        (λ l. l ≡ map some (all_named (λ x. x.uuid) cap_name (pointers names host.state.slices)))
    × Hit scope_target cap_name scopes_found
        (λ l. l ≡ map some (all_named (λ x. x.uuid) cap_name (pointers names host.state.scopes)))
    × Hit actuator_target cap_name actuators_found (
        Forall₂
          (IsCopy list_array integers)
          (all_named (λ x. x.uuid) cap_name (pointers names host.state.actuators)))
find_lem_example =
    find_lem names list_array integers insertion_sort list_memory One One allowing [] broker host
      first_client [] cap_name scopes-IsWhole

abbrev pub afterwards :
    State names list_array integers → Link names list_array integers insertion_sort One One
afterwards =
    after names list_array integers insertion_sort list_memory One One allowing [] broker bare
      first_client []

abbrev pub fresh : Link names list_array integers insertion_sort One One
fresh =
    Linked names list_array integers insertion_sort list_memory One One allowing [] broker bare
      first_client []

adds_lem_example :
    ((t : List (Bytes × Sensor)) × (add_sensor list_array integers insertion_sort net fresh
          (some sensor)
        ≡ some (success, some sensor, afterwards (record bare.state { sensors = t })))
      × (pointers names t ≡ pointers names bare.state.sensors ++ sensor ∷ []))
    × ((t : List (Bytes × Slice)) × (add_slice list_array integers insertion_sort net fresh
            (some slice)
          ≡ some (success, some slice, afterwards (record bare.state { slices = t })))
        × (pointers names t ≡ pointers names bare.state.slices ++ slice ∷ []))
    × ((t : List (Bytes × Scope)) × (add_scope list_array integers insertion_sort net fresh
            (some place)
          ≡ some (success, some place, afterwards (record bare.state { scopes = t })))
        × (pointers names t ≡ pointers names bare.state.scopes ++ place ∷ []))
unfolding State.create lookup
adds_lem_example =
    adds_lem names list_array integers insertion_sort list_memory One One allowing [] broker bare
      first_client [] sensor slice place refl refl refl place-IsWhole

add_actuator_lem_example :
    (t : List (Bytes × Actuator list_array integers)) × (k : Kind list_array integers) × (k' : Kind
      list_array integers)
    × (add_actuator list_array integers insertion_sort net fresh (some dial)
        ≡ some (
          success,
          some (record dial { clientid = some first_client; kind = k' }),
          afterwards (record bare.state { actuators = t }),
        ))
    × (pointers names t
        ≡ pointers names bare.state.actuators
          ++ record dial { clientid = some first_client; kind = k } ∷ [])
    × SameKind list_array integers dial.kind k
    × SameKind list_array integers dial.kind k'
unfolding State.create lookup
add_actuator_lem_example =
    add_actuator_lem names list_array integers insertion_sort list_memory One One allowing [] broker
      bare first_client [] dial refl
