-- ===== src/Client/Finding.antt =====
-- What nrm_client_find of src/client.c gives a client that is linked to the daemon.
use libnrm.Prelude.{◌>>=◌, bind_some, ◌≡◌, refl, ◌∙◌, Option, some, List, [], map, subst}
use mathlib.Core.List.{Forall₂}
use libnrm.Prelude.Bytes.{Bytes}
use libnrm.Error.{success}
use libnrm.Ext.Uthash.{Uthash}
use libnrm.Ext.Utarray.{Utarray, Memory}
use libnrm.Ext.Qsort.{Qsort}
use libnrm.Ext.Doubles.{Doubles}
use libnrm.Hash.{pointers}
use libnrm.Vector.{Vector}
use libnrm.Vector.Laws.{list_of}
use libnrm.Scope.{Scope}
use libnrm.Actuator.{Actuator}
use libnrm.State.{Sensor, Slice}
use libnrm.Message
use libnrm.Message.{
  Message, TargetType, ListData, ScopeMsg, SensorMsg, SliceMsg, ActuatorMsg, created, list_type,
  sensor_new, slice_new, scope_new, actuator_new, sensor_target, slice_target, scope_target,
  actuator_target, is_reply,
}
use libnrm.Message.RoundTrip.{IsWhole, IsCopy, uuid-actuator_new}
use libnrm.Role.{Broker}
use libnrm.Server.{Server, Callbacks}
use libnrm.Client.{
  Transport, listed_part, same_target, sensors_in, slices_in, scopes_in, actuators_in, other_name,
}
use libnrm.Client.Search.{
  Found, sensors_found, slices_found, scopes_found, actuators_found, find_call, find,
}
use libnrm.Client.Calls.{
  exchange, list_request, gather_sensors, gather_slices, gather_scopes, gather_actuators,
}
use libnrm.Client.Link.{Link}
use libnrm.Client.Gather.{kept, all_named, kept-other_name, Every, with_vector_lem}
use libnrm.Client.Answers.{
  Linked, Net, answers_lem, sensors_fill, slices_fill, scopes_fill, actuators_fill,
}

module _ (ua : Utarray) (fp : Doubles) (qs : Qsort ua) (net : Transport fp.Double)
    (m : Memory ua) where
  find_call_lem :
      {A L : Type 0} (w w' : net.World) (t : TargetType) (part : ListData fp.Double → Option L)
      (loop : L → Vector ua A → Option (Vector ua A)) (found : Vector ua A → Found ua fp qs net)
      → (answer : Message fp.Double) (d : ListData fp.Double) (l : L) (P : List A → Type 0)
      → exchange ua fp qs net w (list_request ua fp qs net t) ≡ some (answer, w')
      → listed_part answer t ≡ some d
      → part d ≡ some l
      → ((v : Vector ua A)
          → list_of ua v ≡ []
          → (v' : Vector ua A) × (loop l v ≡ some v') × P (list_of ua v'))
      → (v' : Vector ua A) × (find_call ua fp qs net w t part loop found
          ≡ some (success, some (found v'), w'))
        × P (list_of ua v')
  unfolding find_call
  find_call_lem {A} w w' t part loop found answer d l P e f g looped =
      let fill : Vector ua A → Option (Vector ua A) = λ v. part d >>= (λ l'. loop l' v) in
      let (v, made, empty) = with_vector_lem ua m fill in
      let (v', full, has) = looped v empty in
      (
        v',
        bind_some e _ ∙ bind_some f _ ∙ bind_some (made ∙ bind_some (bind_some g _ ∙ full) _) _,
        has,
      )

module _ (uh : Uthash Bytes) (ua : Utarray) (fp : Doubles) (qs : Qsort ua) (m : Memory ua)
    (User Ctx : Type 0) (cb : Callbacks uh ua fp User) (stacked : Bytes) (b : Broker fp.Double Ctx)
    (s : Server uh ua fp User) (me : Bytes) (others : List (Bytes × Message fp.Double)) where
  abbrev pub At : Link uh ua fp qs User Ctx
  At = Linked uh ua fp qs m User Ctx cb stacked b s me others

  abbrev pub N : Transport fp.Double
  N = Net uh ua fp qs m User Ctx cb stacked b s me others

  abbrev pub Finds :
      {A : Type 0}
      → TargetType
      → Bytes
      → (Vector ua A → Found ua fp qs N)
      → (List A → Type 0)
      → Type 0
  Finds {A} t uuid found P =
      (v : Vector ua A) × (find ua fp qs N At t (some uuid) ≡ some (success, some (found v), At))
      × P (list_of ua v)

  renamed :
      {X A : Type 0} (t : TargetType) (uuid : Bytes) {found : Vector ua A → Found ua fp qs N}
      (P : List X → List A → Type 0) {ks ns : List X}
      → ks ≡ ns
      → Finds t uuid found (P ks)
      → Finds t uuid found (P ns)
  renamed t uuid P e (v, done, has) = (v, done, subst (λ l. P l (list_of ua v)) e has)

  -- nrm_client_find, by a client that is linked to the daemon, with memory left and the daemon's scopes
  -- well formed: for each kind of object it returns 0 and exactly those of the daemon's objects of that
  -- kind that have the name, in the order of its table; an actuator's choices come in ascending order.
  pub find_lem :
      (uuid : Bytes)
      → Every IsWhole (pointers uh s.state.scopes)
      → Finds sensor_target uuid sensors_found
          (λ l. l ≡ map some (all_named (λ x. x.uuid) uuid (pointers uh s.state.sensors)))
        × Finds slice_target uuid slices_found
            (λ l. l ≡ map some (all_named (λ x. x.uuid) uuid (pointers uh s.state.slices)))
        × Finds scope_target uuid scopes_found
            (λ l. l ≡ map some (all_named (λ x. x.uuid) uuid (pointers uh s.state.scopes)))
        × Finds actuator_target uuid actuators_found
            (Forall₂ (IsCopy ua fp) (all_named (λ x. x.uuid) uuid (pointers uh s.state.actuators)))
  unfolding find listed_part same_target sensors_in slices_in scopes_in actuators_in sensor_new
      slice_new scope_new Message.fill Message.create
  find_lem uuid whole = (
    renamed sensor_target uuid (λ ks l. l ≡ map some ks)
        (kept-other_name (λ (x : Sensor). x.uuid) (λ x. x.uuid) (λ (n : Sensor). sensor_new n.uuid)
          uuid (λ x. refl) (pointers uh s.state.sensors))
        (find_call_lem ua fp qs N m At At sensor_target sensors_in
          (gather_sensors ua fp qs N (other_name (λ x. x.uuid) uuid)) sensors_found _ _ _
          (λ l.
            l
            ≡ map some (
                kept (λ x. other_name (λ y. y.uuid) uuid ((λ (n : Sensor). sensor_new n.uuid) x))
                  (pointers uh s.state.sensors)))
          (answers_lem uh ua fp qs m User Ctx cb stacked b s me others).0 refl refl
          (sensors_fill uh ua fp qs m User Ctx cb stacked b s me others
            (other_name (λ x. x.uuid) uuid))),
    renamed slice_target uuid (λ ks l. l ≡ map some ks)
        (kept-other_name (λ (x : Slice). x.uuid) (λ x. x.uuid) (λ (l : Slice). slice_new l.uuid)
          uuid (λ x. refl) (pointers uh s.state.slices))
        (find_call_lem ua fp qs N m At At slice_target slices_in
          (gather_slices ua fp qs N (other_name (λ x. x.uuid) uuid)) slices_found _ _ _
          (λ l.
            l
            ≡ map some (
                kept (λ x. other_name (λ y. y.uuid) uuid ((λ (l : Slice). slice_new l.uuid) x))
                  (pointers uh s.state.slices)))
          (answers_lem uh ua fp qs m User Ctx cb stacked b s me others).1 refl refl
          (slices_fill uh ua fp qs m User Ctx cb stacked b s me others
            (other_name (λ x. x.uuid) uuid))),
    renamed scope_target uuid (λ ks l. l ≡ map some ks)
        (kept-other_name (λ (x : Scope). x.uuid) (λ x. x.uuid) scope_new uuid (λ x. refl)
          (pointers uh s.state.scopes))
        (find_call_lem ua fp qs N m At At scope_target scopes_in
          (gather_scopes ua fp qs N (other_name (λ x. x.uuid) uuid)) scopes_found _ _ _
          (λ l.
            l
            ≡ map some (
                kept (λ x. other_name (λ y. y.uuid) uuid (scope_new x))
                  (pointers uh s.state.scopes)))
          (answers_lem uh ua fp qs m User Ctx cb stacked b s me others).2 refl refl
          (scopes_fill uh ua fp qs m User Ctx cb stacked b s me others
            (other_name (λ x. x.uuid) uuid) whole)),
    renamed actuator_target uuid (Forall₂ (IsCopy ua fp))
        (kept-other_name (λ (x : Actuator ua fp). x.uuid) (λ x. x.uuid) (actuator_new ua fp) uuid
          (uuid-actuator_new ua fp) (pointers uh s.state.actuators))
        (find_call_lem ua fp qs N m At At actuator_target actuators_in
          (gather_actuators ua fp qs N (other_name (λ x. x.uuid) uuid)) actuators_found _ _ _
          (Forall₂ (IsCopy ua fp) (
            kept (λ a. other_name (λ y. y.uuid) uuid (actuator_new ua fp a))
              (pointers uh s.state.actuators)))
          (answers_lem uh ua fp qs m User Ctx cb stacked b s me others).3 refl refl
          (actuators_fill uh ua fp qs m User Ctx cb stacked b s me others
            (other_name (λ x. x.uuid) uuid))),
  )
