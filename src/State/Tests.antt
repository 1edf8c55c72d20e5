-- ===== src/State/Tests.antt =====
-- A state with one actuator, whose objects serve the tests.
use libnrm.Prelude.{◌≡◌, refl, none, some, [], ◌∷◌}
use libnrm.Prelude.Int.{ℤ, pos}
use libnrm.Prelude.Bytes.{Bytes, bytes_eq}
use libnrm.Ext.Assoc.{lookup}
use libnrm.Ext.Uthash.{Uthash}
use libnrm.Ext.Models.{assoc_table, bytes_key, int_key, list_array}
use libnrm.Ext.Integers.{integers}
use libnrm.Actuator.{Actuator, continuous}
use libnrm.State.{State}
use libnrm.State.Laws.{actuator_at}

abbrev pub names : Uthash Bytes
names = assoc_table bytes_key

abbrev pub keys : Uthash ℤ
keys = assoc_table int_key

-- the names "cap" and "fan", and those of two clients
abbrev pub cap_name : Bytes
cap_name = 99 ∷ 97 ∷ 112 ∷ []

abbrev pub fan_name : Bytes
fan_name = 102 ∷ 97 ∷ 110 ∷ []

abbrev pub first_client : Bytes
first_client = 49 ∷ []

abbrev pub second_client : Bytes
second_client = 50 ∷ []

-- an actuator with limits 50 and 200, owned by the first client
abbrev pub cap : Actuator list_array integers
cap = record {
  uuid = cap_name;
  clientid = some first_client;
  value = pos 100;
  kind = continuous (pos 50) (pos 200);
}

abbrev pub fan : Actuator list_array integers
fan = record { uuid = fan_name; clientid = none; value = pos 0; kind = continuous (pos 0) (pos 9) }

abbrev pub one_actuator : State names list_array integers
one_actuator = record { actuators = (cap_name, cap) ∷ []; scopes = []; sensors = []; slices = [] }

pub cap_found : actuator_at names list_array integers one_actuator cap_name ≡ some cap
unfolding lookup bytes_eq
cap_found = refl

pub fan_missing : actuator_at names list_array integers one_actuator fan_name ≡ none
unfolding lookup bytes_eq
fan_missing = refl
