-- ===== src/Command/Tests.antt =====
-- The theorems on the commands of src/binaries/nrmc.c, by a client of a daemon with one object of three
-- kinds.
use libnrm.Prelude.{
  ℕ, ◌-◌, ◌==◌, ◌≡◌, refl, none, some, List, [], ◌∷◌, ◌++◌, Option, if◌then◌else◌, subst, sym,
}
use libnrm.Prelude.Int.{ℤ, pos}
use libnrm.Prelude.Bytes.{Bytes, bytes_eq}
use libnrm.Error.{ErrorCode, success, einval}
use libnrm.Ext.Assoc.{lookup}
use libnrm.Ext.Models.{list_array, list_memory, some_eq}
use libnrm.Ext.Integers.{integers}
use libnrm.Ext.Insertion.{insertion_sort}
use libnrm.Ext.JsonValues.{json_values, Value, with_member, no_member, text_value}
use libnrm.Vector.{Ptr}
use libnrm.Scope
use libnrm.Scope.{Scope}
use libnrm.Actuator.{Actuator, Kind, continuous, set_value, validate_value, within}
use libnrm.State
use libnrm.State.{State, Sensor, Slice}
use libnrm.State.Laws.{actuator_at}
use libnrm.State.Tests.{names, cap, cap_name, first_client}
use libnrm.Hash.{pointers}
use libnrm.Message
use libnrm.Message.{Message, sensor_target, slice_target, scope_target, actuator_target}
use libnrm.Message.RoundTrip.{IsCopy, SameKind, same_choices, same_limits}
use libnrm.Json.{named_to_json, scope_to_json, scope_from_json}
use libnrm.Ext.Jansson.{find_member}
use libnrm.Server.Laws.{corrected}
use libnrm.Parsers.{parse_uint}
use libnrm.Client.Link.{Link}
use libnrm.Client.Gather.{all_named}
use libnrm.Client.Tests.{
  One, Host, host, bare, allowing, broker, scopes-IsWhole, connected, net, fresh, afterwards,
}
use libnrm.Client.Orders.{listening, sent_elsewhere}
use libnrm.Client.Sending.{Listeners}
use libnrm.Command.{
  Outcome, connect, dumped, cmd_find, cmd_list_actuators, cmd_list_scopes, cmd_list_sensors,
  cmd_list_slices, cmd_add_scope, cmd_add_slice, cmd_add_sensor, cmd_actuate,
}
use libnrm.Command.Shown.{Prints, PrintsCopies, cmd_lists_lem, cmd_finds_lem}
use libnrm.Command.Added.{cmd_adds_lem}
use libnrm.Command.Actions.{Connects, connect_lem, cmd_actuate_lem}

abbrev Json : Type 0
Json = Value integers

abbrev Ends : Type 0
Ends = Outcome list_array integers insertion_sort net (json_values integers)

abbrev Shows : {A : Type 0} → Ends → (A → Option Json) → List A → Type 0
Shows =
    Prints names list_array integers insertion_sort list_memory One One allowing [] broker host
      first_client [] (json_values integers)

abbrev ShowsCopies : Ends → List (Actuator list_array integers) → Type 0
ShowsCopies =
    PrintsCopies names list_array integers insertion_sort list_memory One One allowing [] broker
      host first_client [] (json_values integers)

abbrev named : Bytes → Option Json
named = named_to_json integers (json_values integers)

abbrev found : Message.TargetType → Ends
found t =
    cmd_find list_array integers insertion_sort net (json_values integers) t connected
      ([] ∷ cap_name ∷ [])

cmd_lists_lem_example :
    Shows
      (cmd_list_sensors list_array integers insertion_sort net (json_values integers) connected)
      (λ n. named n.uuid)
      (pointers names host.state.sensors)
    × Shows
        (cmd_list_slices list_array integers insertion_sort net (json_values integers) connected)
        (λ l. named l.uuid)
        (pointers names host.state.slices)
    × Shows
        (cmd_list_scopes list_array integers insertion_sort net (json_values integers) connected)
        (scope_to_json integers (json_values integers))
        (pointers names host.state.scopes)
    × ShowsCopies
        (cmd_list_actuators list_array integers insertion_sort net (json_values integers) connected)
        (pointers names host.state.actuators)
cmd_lists_lem_example =
    cmd_lists_lem names list_array integers insertion_sort list_memory One One allowing [] broker
      host first_client [] (json_values integers) scopes-IsWhole

cmd_finds_lem_example :
    Shows
      (found sensor_target)
      (λ n. named n.uuid)
      (all_named (λ x. x.uuid) cap_name (pointers names host.state.sensors))
    × Shows
        (found slice_target)
        (λ c. named c.uuid)
        (all_named (λ x. x.uuid) cap_name (pointers names host.state.slices))
    × Shows
        (found scope_target)
        (scope_to_json integers (json_values integers))
        (all_named (λ x. x.uuid) cap_name (pointers names host.state.scopes))
    × ShowsCopies
        (found actuator_target)
        (all_named (λ x. x.uuid) cap_name (pointers names host.state.actuators))
cmd_finds_lem_example =
    cmd_finds_lem names list_array integers insertion_sort list_memory One One allowing [] broker
      host first_client [] (json_values integers) [] cap_name [] scopes-IsWhole

-- An atoi of one digit, and a server that answers at the third try.
abbrev digit : Bytes → ℤ × ℕ
digit [] = (pos 0, 22)
digit (c ∷ l) = (pos (c - 48), 0)

abbrev third : ℕ → ErrorCode
third i = if i == 2 then success else einval

connect_lem_example :
    ((r : ℤ × ℕ) × (connect digit third ([] ∷ (52 ∷ []) ∷ []) ≡ some r) × Connects third 0 4 r)
    × ((r : ℤ × ℕ) × (connect digit third ([] ∷ []) ≡ some r) × Connects third 0 5 r)
unfolding parse_uint
connect_lem_example = connect_lem digit third [] (52 ∷ []) 4 refl

-- A parser that knows one text, of an object that renames the scope.
abbrev renamed : Bytes → Ptr Json
renamed text =
    some (Value.obj (with_member (117 ∷ 117 ∷ 105 ∷ 100 ∷ []) (text_value (113 ∷ [])) no_member))

abbrev renamed_scope : Scope
renamed_scope = Scope.create (113 ∷ [])

cmd_adds_lem_example :
    ((t : List (Bytes × Sensor)) × (cmd_add_sensor list_array integers insertion_sort net
          (json_values integers)
          fresh
          ([] ∷ cap_name ∷ [])
        ≡ some (
          pos 0,
          dumped list_array integers insertion_sort net (json_values integers) (named cap_name),
          afterwards (record bare.state { sensors = t }),
        ))
      × (pointers names t ≡ pointers names bare.state.sensors ++ record { uuid = cap_name } ∷ []))
    × ((t : List (Bytes × Slice)) × (cmd_add_slice list_array integers insertion_sort net
            (json_values integers)
            fresh
            ([] ∷ cap_name ∷ [])
          ≡ some (
            pos 0,
            dumped list_array integers insertion_sort net (json_values integers) (named cap_name),
            afterwards (record bare.state { slices = t }),
          ))
        × (pointers names t ≡ pointers names bare.state.slices ++ record { uuid = cap_name } ∷ []))
    × ((t : List (Bytes × Scope)) × (cmd_add_scope list_array integers insertion_sort net
            (json_values integers)
            renamed
            fresh
            ([] ∷ cap_name ∷ [] ∷ [])
          ≡ some (
            pos 0,
            dumped list_array integers insertion_sort net
                (json_values integers)
                (scope_to_json integers (json_values integers) renamed_scope),
            afterwards (record bare.state { scopes = t }),
          ))
        × (pointers names t ≡ pointers names bare.state.scopes ++ renamed_scope ∷ []))
unfolding State.create lookup scope_from_json Scope.create find_member bytes_eq
cmd_adds_lem_example =
    cmd_adds_lem names list_array integers insertion_sort list_memory One One allowing [] broker
      bare first_client [] (json_values integers) renamed [] cap_name [] [] renamed_scope refl refl
      refl refl

valid_kind :
    (min max : ℤ) (kind k : Kind list_array integers)
    → kind ≡ continuous min max
    → SameKind list_array integers kind k
    → validate_value list_array integers (record cap { kind = continuous min max }) (pos 120)
      ≡ success
    → validate_value list_array integers (record cap { kind = k }) (pos 120) ≡ success
valid_kind min max kind k e (same_choices p up) h = cc e
valid_kind min max kind k e same_limits h =
    subst (λ j. validate_value list_array integers (record cap { kind = j }) (pos 120) ≡ success)
      (sym e) h

cap_valid :
    (k : Actuator list_array integers)
    → IsCopy list_array integers cap (some k)
    → validate_value list_array integers k (pos 120) ≡ success
cap_valid k copy =
    subst (λ a. validate_value list_array integers a (pos 120) ≡ success) (sym (some_eq copy.made))
      (valid_kind (pos 50) (pos 200) cap.kind copy.kind refl copy.same
        (unfold validate_value within in refl))

abbrev listener : Listeners ℤ One
listener = record { user_fn = none; actuate_fn = none }

abbrev hears :
    Host → List (Bytes × Message ℤ) → Link names list_array integers insertion_sort One One
hears =
    listening names list_array integers insertion_sort One One allowing [] listener first_client
      broker tt

abbrev right : ℤ
right = corrected names list_array integers One cap (pos 120)

cmd_actuate_lem_example :
    (s' : Host) × (cmd_actuate list_array integers insertion_sort net
        (json_values integers)
        (λ t. pos 120)
        (hears host [])
        ([] ∷ cap_name ∷ [] ∷ [])
      ≡ some (
        pos 0,
        [],
        hears s' (
            sent_elsewhere names list_array integers insertion_sort One One allowing [] listener
              first_client [] first_client cap_name right),
      ))
    × ((j : Bytes)
        → actuator_at names list_array integers s'.state j ≡ (
            if names.key.same cap_name j
            then some (set_value list_array integers cap right)
            else actuator_at names list_array integers host.state j))
unfolding lookup bytes_eq all_named pointers
cmd_actuate_lem_example =
    cmd_actuate_lem names list_array integers insertion_sort list_memory One One allowing []
      listener first_client (json_values integers) broker tt host [] cap first_client (λ t. pos 120)
      [] cap_name [] [] scopes-IsWhole refl cap_valid refl refl refl refl
