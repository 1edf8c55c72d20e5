-- ===== src/Command/Shown.antt =====
-- What the find and the list commands of src/binaries/nrmc.c print, by a client that is linked to the
-- daemon.
use libnrm.Prelude.{bind_some, ◌≡◌, refl, ap, ◌∙◌, Option, none, some, List, [], ◌∷◌, map, ap₂}
use libnrm.Prelude.Int.{pos}
use mathlib.Core.Option.{Option-elim}
use mathlib.Core.List
use mathlib.Core.List.{Forall₂}
use libnrm.Prelude.Bytes.{Bytes}
use libnrm.Error.{ErrorCode, success}
use libnrm.Ext.Uthash.{Uthash}
use libnrm.Ext.Utarray.{Utarray, Memory}
use libnrm.Ext.Qsort.{Qsort}
use libnrm.Ext.Doubles.{Doubles}
use libnrm.Ext.Jansson.{Jansson}
use libnrm.Hash.{pointers}
use libnrm.Actuator.{Actuator}
use libnrm.State.{Sensor, Slice}
use libnrm.Vector.{Vector, Ptr}
use libnrm.Vector.Laws.{list_of, elements_lem}
use libnrm.Message.{Message, slice_target, sensor_target, scope_target, actuator_target}
use libnrm.Message.RoundTrip.{IsWhole, IsCopy}
use libnrm.Role.{Broker}
use libnrm.Server.{Server, Callbacks}
use libnrm.Json.{actuator_to_json, scope_to_json, named_to_json}
use libnrm.Client.{Transport}
use libnrm.Client.Link.{Link}
use libnrm.Client.Gather.{Every, all_named}
use libnrm.Client.Finding.{find_lem}
use libnrm.Client.Listed.{lists_lem}
use libnrm.Client.Answers.{Linked, Net}
use libnrm.Command.{
  Outcome, jsons, show_all, show_listed, show_found, cmd_find, cmd_list_actuators, cmd_list_scopes,
  cmd_list_sensors, cmd_list_slices,
}

module _ (ua : Utarray) (fp : Doubles) (qs : Qsort ua) (net : Transport fp.Double)
    (js : Jansson fp) where
  jsons_lem :
      {A : Type 0} (to_json : A → Option js.Json) (xs : List A)
      → jsons ua fp qs net js to_json (map some xs) ≡ some (List.filter_map to_json xs)
  unfolding jsons List.filter_map Option-elim
  jsons_lem to_json [] = refl
  jsons_lem to_json (x ∷ xs) =
      bind_some (jsons_lem to_json xs) _ ∙ ap some (added (to_json x) (List.filter_map to_json xs))
    where
      added :
          (o : Option js.Json) (k : List js.Json)
          → elim o [ none ↦ k | some j ↦ j ∷ k ] ≡ Option-elim o k (λ j. j ∷ k)
      added none k = refl
      added (some j) k = refl

  pub show_all_lem :
      {A : Type 0} (to_json : A → Option js.Json) (v : Vector ua (Ptr A)) (w : net.World)
      (xs : List A)
      → list_of ua v ≡ map some xs
      → show_all ua fp qs net js to_json v w
        ≡ some (pos 0, js.array (List.filter_map to_json xs) ∷ [], w)
  unfolding show_all
  show_all_lem to_json v w xs h =
      bind_some (ap (jsons ua fp qs net js to_json) (elements_lem ua v ∙ h) ∙ jsons_lem to_json xs)
        _

  show_listed_lem :
      {A : Type 0} (to_json : A → Option js.Json) (xs : List A)
      (r : Option (ErrorCode × Ptr (Vector ua (Ptr A)) × net.World)) (v : Vector ua (Ptr A))
      (w : net.World)
      → r ≡ some (success, some v, w)
      → list_of ua v ≡ map some xs
      → show_listed ua fp qs net js to_json r
        ≡ some (pos 0, js.array (List.filter_map to_json xs) ∷ [], w)
  unfolding show_listed
  show_listed_lem to_json xs r v w e h = bind_some e _ ∙ show_all_lem to_json v w xs h

  -- Copies of actuators, without the pointers.
  actuators_of :
      {xs : List (Actuator ua fp)} {ps : List (Ptr (Actuator ua fp))}
      → Forall₂ (IsCopy ua fp) xs ps
      → (l : List (Actuator ua fp)) × (ps ≡ map some l)
        × Forall₂ (λ a c. IsCopy ua fp a (some c)) xs l
  actuators_of Forall₂.nil = ([], refl, Forall₂.nil)
  actuators_of (Forall₂.cons {a} c r) =
      let (l, e, f) = actuators_of r in
      (
        record a { kind = c.kind } ∷ l,
        ap₂ ◌∷◌ c.made e,
        Forall₂.cons (record { kind = c.kind; made = refl; same = c.same }) f,
      )

module _ (uh : Uthash Bytes) (ua : Utarray) (fp : Doubles) (qs : Qsort ua) (m : Memory ua)
    (User Ctx : Type 0) (cb : Callbacks uh ua fp User) (stacked : Bytes) (b : Broker fp.Double Ctx)
    (s : Server uh ua fp User) (me : Bytes) (others : List (Bytes × Message fp.Double))
    (js : Jansson fp) where
  abbrev pub At : Link uh ua fp qs User Ctx
  At = Linked uh ua fp qs m User Ctx cb stacked b s me others

  abbrev pub N : Transport fp.Double
  N = Net uh ua fp qs m User Ctx cb stacked b s me others

  -- A command ends with code 0, prints one array, of the JSON of the objects that have any, and leaves
  -- the link and the daemon as they were.
  abbrev pub Prints : {A : Type 0} → Outcome ua fp qs N js → (A → Option js.Json) → List A → Type 0
  Prints outcome to_json xs = outcome ≡ some (pos 0, js.array (List.filter_map to_json xs) ∷ [], At)

  -- The same of actuators that differ at most in the order of their choices.
  abbrev pub PrintsCopies : Outcome ua fp qs N js → List (Actuator ua fp) → Type 0
  PrintsCopies outcome xs =
      (l : List (Actuator ua fp)) × Prints outcome (actuator_to_json fp js ua) l
      × Forall₂ (λ a c. IsCopy ua fp a (some c)) xs l

  -- cmd_list_sensors, cmd_list_slices, cmd_list_scopes and cmd_list_actuators, by a client that is linked to
  -- the daemon, with memory left and the daemon's scopes well formed: they print the JSON of all of the
  -- daemon's objects of the kind, in the order of its tables, and end with code 0; an actuator's choices
  -- come in ascending order.
  pub cmd_lists_lem :
      Every IsWhole (pointers uh s.state.scopes)
      → Prints
          (cmd_list_sensors ua fp qs N js At)
          (λ (n : Sensor). named_to_json fp js n.uuid)
          (pointers uh s.state.sensors)
        × Prints
            (cmd_list_slices ua fp qs N js At)
            (λ (l : Slice). named_to_json fp js l.uuid)
            (pointers uh s.state.slices)
        × Prints
            (cmd_list_scopes ua fp qs N js At)
            (scope_to_json fp js)
            (pointers uh s.state.scopes)
        × PrintsCopies (cmd_list_actuators ua fp qs N js At) (pointers uh s.state.actuators)
  unfolding cmd_list_sensors cmd_list_slices cmd_list_scopes cmd_list_actuators
  cmd_lists_lem whole =
      let (sensors, slices, scopes, actuators) =
        lists_lem uh ua fp qs m User Ctx cb stacked b s me others whole in
      let (v0, e0, h0) = sensors in
      let (v1, e1, h1) = slices in
      let (v2, e2, h2) = scopes in
      let (v3, e3, h3) = actuators in
      let (l, e, copies) = actuators_of ua fp qs N js h3 in
      (
        show_listed_lem ua fp qs N js _ _ _ v0 At e0 h0,
        show_listed_lem ua fp qs N js _ _ _ v1 At e1 h1,
        show_listed_lem ua fp qs N js _ _ _ v2 At e2 h2,
        (l, show_listed_lem ua fp qs N js _ l _ v3 At e3 e, copies),
      )

  -- cmd_find_sensor, cmd_find_slice, cmd_find_scope and cmd_find_actuator, with a name, by a client that is
  -- linked to the daemon, with memory left and the daemon's scopes well formed: they print the JSON of
  -- exactly those of the daemon's objects of the kind that have the name, in the order of its table, and
  -- end with code 0; an actuator's choices come in ascending order.
  pub cmd_finds_lem :
      (cmd name : Bytes) (l : List Bytes)
      → Every IsWhole (pointers uh s.state.scopes)
      → Prints
          (cmd_find ua fp qs N js sensor_target At (cmd ∷ name ∷ l))
          (λ (n : Sensor). named_to_json fp js n.uuid)
          (all_named (λ x. x.uuid) name (pointers uh s.state.sensors))
        × Prints
            (cmd_find ua fp qs N js slice_target At (cmd ∷ name ∷ l))
            (λ (c : Slice). named_to_json fp js c.uuid)
            (all_named (λ x. x.uuid) name (pointers uh s.state.slices))
        × Prints
            (cmd_find ua fp qs N js scope_target At (cmd ∷ name ∷ l))
            (scope_to_json fp js)
            (all_named (λ x. x.uuid) name (pointers uh s.state.scopes))
        × PrintsCopies
            (cmd_find ua fp qs N js actuator_target At (cmd ∷ name ∷ l))
            (all_named (λ x. x.uuid) name (pointers uh s.state.actuators))
  unfolding cmd_find show_found
  cmd_finds_lem cmd name l whole =
      let (sensors, slices, scopes, actuators) =
        find_lem uh ua fp qs m User Ctx cb stacked b s me others name whole in
      let (v0, e0, h0) = sensors in
      let (v1, e1, h1) = slices in
      let (v2, e2, h2) = scopes in
      let (v3, e3, h3) = actuators in
      let (k, e, copies) = actuators_of ua fp qs N js h3 in
      (
        bind_some e0 _ ∙ show_all_lem ua fp qs N js _ v0 At _ h0,
        bind_some e1 _ ∙ show_all_lem ua fp qs N js _ v1 At _ h1,
        bind_some e2 _ ∙ show_all_lem ua fp qs N js _ v2 At _ h2,
        (k, bind_some e3 _ ∙ show_all_lem ua fp qs N js _ v3 At k e, copies),
      )
