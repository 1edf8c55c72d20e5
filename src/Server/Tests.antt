-- ===== src/Server/Tests.antt =====
-- The theorems of src/server.c on a server with one actuator, whose daemon allows every request.
use libnrm.Prelude.{none, some, [], Option}
use libnrm.Prelude.Int.{pos}
use libnrm.Prelude.Bytes.{Bytes}
use libnrm.Ext.Models.{list_array}
use libnrm.Ext.Integers.{integers}
use libnrm.Actuator.{Actuator, set_clientid}
use libnrm.Server.{Server, Callbacks}
use libnrm.State.{State}
use libnrm.State.Laws.{actuator_at}
use libnrm.State.Tests.{names, cap, first_client, one_actuator}

abbrev Host : Type 0
Host = Server names list_array integers (Unit {0})

abbrev Cap : Type 0
Cap = Actuator list_array integers

abbrev allowing : Callbacks names list_array integers (Unit {0})
allowing = record {
  event = λ self uuid place time value. some self;
  actuate = λ self a value. (pos 0, self);
  tick = none;
}

abbrev host : Host
host = record { state = one_actuator; sent = []; published = []; user = tt }

abbrev at : Host → Bytes → Option Cap
at self j = actuator_at names list_array integers self.state j

abbrev refusing : Callbacks names list_array integers (Unit {0})
refusing = record allowing { actuate = λ self a value. (pos 1, self) }

abbrev nothing_there : State names list_array integers
nothing_there = record one_actuator { actuators = [] }

abbrev empty_host : Host
empty_host = record host { state = nothing_there }

abbrev mine : Cap
mine = set_clientid list_array integers cap (some first_client)
