-- ===== src/Client/Answers.antt =====
-- The daemon's lists as a linked client receives them and reads them in src/client.c.
use libnrm.Prelude.{
  ◌>>=◌, bind_some, ◌≡◌, refl, sym, ap, ◌∙◌, Bool, Option, some, List, [], ◌++◌, map, subst,
}
use mathlib.Core.List.{Forall₂}
use libnrm.Prelude.Bytes.{Bytes}
use libnrm.Error.{success}
use libnrm.Ext.Uthash.{Uthash}
use libnrm.Ext.Utarray.{Utarray, Memory}
use libnrm.Ext.Qsort.{Qsort}
use libnrm.Ext.Doubles.{Doubles}
use libnrm.Hash.{pointers}
use libnrm.Vector.{Vector, Ptr}
use libnrm.Vector.Laws.{list_of}
use libnrm.Actuator.{Actuator}
use libnrm.Message
use libnrm.Message.{
  Message, TargetType, ListData, ScopeMsg, SensorMsg, SliceMsg, ActuatorMsg, created, list_type,
  sensor_new, slice_new, scope_new, actuator_new, sensor_target, slice_target, scope_target,
  actuator_target, is_reply,
}
use libnrm.Message.Parsing.{sensor_create_frommsg, slice_create_frommsg, actuator_create_frommsg}
use libnrm.Message.RoundTrip.{IsWhole, scope_create-scope_new, IsCopy, actuator_create-actuator_new}
use libnrm.Role.{Broker}
use libnrm.Server
use libnrm.Server.{
  Server, Callbacks, Request, Reply, sensors_list, slices_list, scopes_list, actuators_list,
  role_callback, list_callback, actuators, slices, sensors, scopes,
}
use libnrm.Server.Wire.{request_of, target_of, message_of}
use libnrm.Server.Laws.{list_callback_lem}
use libnrm.Client.{Transport, listed_part}
use libnrm.Client.Calls.{
  exchange, list_request, list_call, gather_sensors, gather_slices, gather_scopes, gather_actuators,
}
use libnrm.Client.Link.{Link, link}
use libnrm.Client.Gather.{kept, Every, exact_lem, Every-unit, gather_lem, with_vector_lem}
use libnrm.Client.Connected.{idle, exchange_lem}

module _ (ua : Utarray) (fp : Doubles) (qs : Qsort ua) (net : Transport fp.Double)
    (m : Memory ua) where
  -- A call for a list, with memory left, when an answer comes that has the list.
  pub list_call_lem :
      {A L : Type 0} (w w' : net.World) (t : TargetType) (part : ListData fp.Double → Option L)
      (loop : L → Vector ua A → Option (Vector ua A)) (answer : Message fp.Double)
      → (d : ListData fp.Double) (l : L) (P : List A → Type 0)
      → exchange ua fp qs net w (list_request ua fp qs net t) ≡ some (answer, w')
      → listed_part answer t ≡ some d
      → part d ≡ some l
      → ((v : Vector ua A)
          → list_of ua v ≡ []
          → (v' : Vector ua A) × (loop l v ≡ some v') × P (list_of ua v'))
      → (v' : Vector ua A) × (list_call ua fp qs net w t part loop ≡ some (success, some v', w'))
        × P (list_of ua v')
  unfolding list_call
  list_call_lem {A} w w' t part loop answer d l P e f g looped =
      let fill : Vector ua A → Option (Vector ua A) =
        λ v. listed_part answer t >>= (λ d'. part d' >>= (λ l'. loop l' v)) in
      let (v, made, empty) = with_vector_lem ua m fill in
      let (v', full, has) = looped v empty in
      (
        v',
        bind_some e _ ∙ bind_some (made ∙ bind_some (bind_some f _ ∙ bind_some g _ ∙ full) _) _,
        has,
      )

module _ (uh : Uthash Bytes) (ua : Utarray) (fp : Doubles) (qs : Qsort ua) (m : Memory ua)
    (User Ctx : Type 0) (cb : Callbacks uh ua fp User) (stacked : Bytes) (b : Broker fp.Double Ctx)
    (s : Server uh ua fp User) (me : Bytes) (others : List (Bytes × Message fp.Double)) where
  abbrev pub Linked : Link uh ua fp qs User Ctx
  Linked = idle uh ua fp qs User Ctx cb stacked b s me others

  abbrev pub Net : Transport fp.Double
  Net = link uh ua fp qs User Ctx cb stacked

  abbrev Answers : TargetType → ListData fp.Double → Type 0
  Answers t d =
      exchange ua fp qs Net Linked (list_request ua fp qs Net t)
      ≡ some (
        record (created list_type) {
          data_case = Message.list_of_objects (record { type = t; data_case = d });
        },
        Linked,
      )

  -- The daemon's answers to the four requests for a list.
  pub answers_lem :
      Answers sensor_target
        (Message.sensors_data (map (λ n. sensor_new n.uuid) (pointers uh s.state.sensors)))
      × Answers slice_target
          (Message.slices_data (map (λ l. slice_new l.uuid) (pointers uh s.state.slices)))
      × Answers scope_target (Message.scopes_data (map scope_new (pointers uh s.state.scopes)))
      × Answers actuator_target
          (Message.actuators_data (map (actuator_new ua fp) (pointers uh s.state.actuators)))
  unfolding list_request request_of target_of role_callback message_of Server.send is_reply
      Message.fill Message.create Message.set_list_sensors Message.set_list_slices
      Message.set_list_scopes Message.set_list_actuators Message.list_new
  answers_lem =
      let (a, l, n, c, x) = list_callback_lem uh ua fp User m (record s { sent = [] }) me in
      (
        exchange_lem uh ua fp qs User Ctx cb stacked b s _ me others _ _
            (sensors_list (pointers uh s.state.sensors)) _ refl n refl refl refl,
        exchange_lem uh ua fp qs User Ctx cb stacked b s _ me others _ _
            (slices_list (pointers uh s.state.slices)) _ refl l refl refl refl,
        exchange_lem uh ua fp qs User Ctx cb stacked b s _ me others _ _
            (scopes_list (pointers uh s.state.scopes)) _ refl c refl refl refl,
        exchange_lem uh ua fp qs User Ctx cb stacked b s _ me others _ _
            (actuators_list (pointers uh s.state.actuators)) _ refl a refl refl refl,
      )

  -- The loops over these answers.
  abbrev pub Fills :
      {A L : Type 0} → (L → Vector ua A → Option (Vector ua A)) → L → (List A → Type 0) → Type 0
  Fills {A} loop l P =
      (v : Vector ua A)
      → list_of ua v ≡ []
      → (w : Vector ua A) × (loop l v ≡ some w) × P (list_of ua w)

  -- The loop over the daemon's sensors, with what it skips.
  pub sensors_fill :
      (skip : SensorMsg → Bool)
      → Fills
          (gather_sensors ua fp qs Net skip)
          (map (λ n. sensor_new n.uuid) (pointers uh s.state.sensors))
          (λ l. l ≡ map some (kept (λ n. skip (sensor_new n.uuid)) (pointers uh s.state.sensors)))
  unfolding gather_sensors sensor_create_frommsg sensor_new
  sensors_fill skip v = exact_lem ua m _ _ skip (λ n. Unit {0}) (λ n p. refl) _ v (Every-unit _)

  -- The loop over the daemon's slices, with what it skips.
  pub slices_fill :
      (skip : SliceMsg → Bool)
      → Fills
          (gather_slices ua fp qs Net skip)
          (map (λ l. slice_new l.uuid) (pointers uh s.state.slices))
          (λ l. l ≡ map some (kept (λ n. skip (slice_new n.uuid)) (pointers uh s.state.slices)))
  unfolding gather_slices slice_create_frommsg slice_new
  slices_fill skip v = exact_lem ua m _ _ skip (λ n. Unit {0}) (λ n p. refl) _ v (Every-unit _)

  -- The loop over the daemon's scopes, with what it skips.
  pub scopes_fill :
      (skip : ScopeMsg → Bool)
      → Every IsWhole (pointers uh s.state.scopes)
      → Fills
          (gather_scopes ua fp qs Net skip)
          (map scope_new (pointers uh s.state.scopes))
          (λ l. l ≡ map some (kept (λ n. skip (scope_new n)) (pointers uh s.state.scopes)))
  unfolding gather_scopes
  scopes_fill skip whole v =
      exact_lem ua m _ _ skip IsWhole (λ n p. ap some (scope_create-scope_new n p)) _ v whole

  -- The loop over the daemon's actuators, with what it skips.
  pub actuators_fill :
      (skip : ActuatorMsg fp.Double → Bool)
      → Fills
          (gather_actuators ua fp qs Net skip)
          (map (actuator_new ua fp) (pointers uh s.state.actuators))
          (Forall₂
            (IsCopy ua fp)
            (kept (λ a. skip (actuator_new ua fp a)) (pointers uh s.state.actuators)))
  unfolding gather_actuators
  actuators_fill skip v empty =
      let (w, made, done, has, like) =
        gather_lem ua m (actuator_new ua fp) _ skip (λ a. Unit {0}) (IsCopy ua fp) copied _ v
          (Every-unit (pointers uh s.state.actuators)) in
      (w, done, subst (Forall₂ (IsCopy ua fp) _) (sym (has ∙ ap (λ l. l ++ made) empty)) like)
    where
      copied :
          (a : Actuator ua fp)
          → Unit {0}
          → (p : Ptr (Actuator ua fp)) × (actuator_create_frommsg ua fp qs
                (some (actuator_new ua fp a))
              ≡ some p)
            × IsCopy ua fp a p
      copied a u =
          let (k, e, same) = actuator_create-actuator_new ua fp qs m a in
          (some (record a { kind = k }), e, record { kind = k; made = refl; same = same })
