-- ===== src/Client/Adding.antt =====
-- What the calls of src/client.c that add an object do at the daemon that the client is linked to.
use libnrm.Prelude.{bind_some, ◌≡◌, refl, ap, ◌∙◌, none, some, List, [], ◌∷◌, ◌++◌}
use mathlib.Core.List.Perm
use libnrm.Prelude.Bytes.{Bytes}
use libnrm.Error.{success}
use libnrm.Ext.Uthash.{Uthash}
use libnrm.Ext.Utarray.{Utarray, Memory}
use libnrm.Ext.Qsort.{Qsort}
use libnrm.Ext.Doubles.{Doubles}
use libnrm.Hash.{pointers}
use libnrm.Scope.{Scope}
use libnrm.Actuator.{Actuator, Kind, set_clientid}
use libnrm.State.{Sensor, Slice}
use libnrm.Message
use libnrm.Message.{
  Message, TargetType, ListData, ScopeMsg, SensorMsg, SliceMsg, ActuatorMsg, created, list_type,
  sensor_new, slice_new, scope_new, actuator_new, sensor_target, slice_target, scope_target,
  actuator_target, is_reply,
}
use libnrm.Message.Parsing.{
  sensor_create_frommsg, slice_create_frommsg, sensor_update_frommsg, slice_update_frommsg,
}
use libnrm.Message.RoundTrip.{
  IsWhole, scope_create-scope_new, scope_update-scope_new, SameKind, same_choices, same_limits,
  update_lem, actuator_create-actuator_new,
}
use libnrm.Role.{Broker}
use libnrm.Server
use libnrm.Server.{
  Server, Callbacks, Request, Reply, added, new_sensor, new_slice, new_scope, new_actuator,
  add_request, add_callback, sensors_list, slices_list, scopes_list, actuators_list, role_callback,
  list_callback, actuators, slices, sensors, scopes,
}
use libnrm.Server.Wire.{addition_of, request_of, message_of}
use libnrm.Client.{Transport, added_part, same_target}
use libnrm.State
use libnrm.Hash
use libnrm.Hash.Laws.{pointers-add}
use libnrm.Client.Calls.{add_sensor, add_slice, add_scope, add_actuator}
use libnrm.Client.Link.{Link}
use libnrm.Client.Connected.{idle, exchange_lem}
use libnrm.Client.Answers.{Linked, Net, Linked, Net}

module _ (uh : Uthash Bytes) (ua : Utarray) (fp : Doubles) (qs : Qsort ua) (m : Memory ua)
    (User Ctx : Type 0) (cb : Callbacks uh ua fp User) (stacked : Bytes) (b : Broker fp.Double Ctx)
    (s : Server uh ua fp User) (me : Bytes) (others : List (Bytes × Message fp.Double)) where
  abbrev pub At : Link uh ua fp qs User Ctx
  At = Linked uh ua fp qs m User Ctx cb stacked b s me others

  abbrev pub N : Transport fp.Double
  N = Net uh ua fp qs m User Ctx cb stacked b s me others

  -- The link after a call that left the daemon with another state.
  abbrev pub after : State.State uh ua fp → Link uh ua fp qs User Ctx
  after state = idle uh ua fp qs User Ctx cb stacked b (record s { state = state }) me others

  -- nrm_client_add_sensor, nrm_client_add_slice and nrm_client_add_scope, by a client that is linked to
  -- the daemon, with an object whose name is new and, for a scope, whose maps are well formed: the call
  -- returns 0 and leaves the object as it was, and the daemon has the object after those of its kind that
  -- it had, and what it had of the other kinds.
  pub adds_lem :
      (n : Sensor) (l : Slice) (c : Scope)
      → uh.find Sensor s.state.sensors n.uuid ≡ none
      → uh.find Slice s.state.slices l.uuid ≡ none
      → uh.find Scope s.state.scopes c.uuid ≡ none
      → IsWhole c
      → ((t : uh.Table Sensor) × (add_sensor ua fp qs N At (some n)
            ≡ some (success, some n, after (record s.state { sensors = t })))
          × (pointers uh t ≡ pointers uh s.state.sensors ++ n ∷ []))
        × ((t : uh.Table Slice) × (add_slice ua fp qs N At (some l)
              ≡ some (success, some l, after (record s.state { slices = t })))
            × (pointers uh t ≡ pointers uh s.state.slices ++ l ∷ []))
        × ((t : uh.Table Scope) × (add_scope ua fp qs N At (some c)
              ≡ some (success, some c, after (record s.state { scopes = t })))
            × (pointers uh t ≡ pointers uh s.state.scopes ++ c ∷ []))
  unfolding add_sensor add_slice add_scope added_part same_target request_of addition_of
      role_callback add_callback message_of Server.send is_reply sensor_create_frommsg sensor_new
      slice_create_frommsg slice_new sensor_update_frommsg slice_update_frommsg Message.fill
      Message.create Message.set_add_sensor Message.set_add_slice Message.set_add_scope
      State.add_sensor State.add_slice State.add_scope
  adds_lem n l c new_n new_l new_c whole = (
    (
      (Hash.add uh s.state.sensors n.uuid n).1,
      bind_some
          (exchange_lem uh ua fp qs User Ctx cb stacked b s _ me others _ _ (added (new_sensor n)) _
            refl refl refl refl refl)
          _,
      pointers-add uh s.state.sensors n.uuid n new_n,
    ),
    (
      (Hash.add uh s.state.slices l.uuid l).1,
      bind_some
          (exchange_lem uh ua fp qs User Ctx cb stacked b s _ me others _ _ (added (new_slice l)) _
            refl refl refl refl refl)
          _,
      pointers-add uh s.state.slices l.uuid l new_l,
    ),
    (
      (Hash.add uh s.state.scopes c.uuid c).1,
      bind_some
            (exchange_lem uh ua fp qs User Ctx cb stacked b s _ me others _
              (add_request (new_scope c)) (added (new_scope c)) _
              (bind_some (bind_some (scope_create-scope_new c whole) _) _) refl refl refl refl)
            _
          ∙ ap
              (λ r. some (
                success,
                r.1,
                after (record s.state { scopes = (Hash.add uh s.state.scopes c.uuid c).1 }),
              ))
              (scope_update-scope_new c c whole),
      pointers-add uh s.state.scopes c.uuid c new_c,
    ),
  )

  SameKind-trans :
      (k k' k₂ : Kind ua fp) → SameKind ua fp k k' → SameKind ua fp k' k₂ → SameKind ua fp k k₂
  SameKind-trans k k' k₂ (same_choices p up) (same_choices q up') =
      same_choices (Perm.trans q p) up'
  SameKind-trans k k' k₂ same_limits same_limits = same_limits

  -- nrm_client_add_actuator, by a client that is linked to the daemon, with memory left and an actuator
  -- whose name is new: the call returns 0, and both the client's actuator and a new last one of the
  -- daemon are the given one, with the client as owner and the choices in ascending order; the daemon
  -- keeps what else it had.
  pub add_actuator_lem :
      (a : Actuator ua fp)
      → uh.find (Actuator ua fp) s.state.actuators a.uuid ≡ none
      → (t : uh.Table (Actuator ua fp)) × (k : Kind ua fp) × (k' : Kind ua fp) × (add_actuator ua fp
            qs N At
            (some a)
          ≡ some (
            success,
            some (record a { clientid = some me; kind = k' }),
            after (record s.state { actuators = t }),
          ))
        × (pointers uh t
            ≡ pointers uh s.state.actuators ++ record a { clientid = some me; kind = k } ∷ [])
        × SameKind ua fp a.kind k
        × SameKind ua fp a.kind k'
  unfolding add_actuator added_part same_target request_of addition_of role_callback add_callback
      message_of Server.send is_reply Message.fill Message.create Message.set_add_actuator
      State.add_actuator set_clientid
  add_actuator_lem a new =
      let (k, made, same) = actuator_create-actuator_new ua fp qs m a in
      let mine : Actuator ua fp = record a { clientid = some me; kind = k } in
      let (k', updated, same') =
        update_lem ua fp qs m a.uuid a.uuid me a.clientid a.value a.value k a.kind same in
      (
        (Hash.add uh s.state.actuators a.uuid mine).1,
        k,
        k',
        bind_some
              (exchange_lem uh ua fp qs User Ctx cb stacked b s _ me others _
                (add_request (new_actuator (record a { kind = k }))) (added (new_actuator mine)) _
                (bind_some (bind_some made _) _) refl refl refl refl)
              _
            ∙ bind_some updated _,
        pointers-add uh s.state.actuators a.uuid mine new,
        same,
        SameKind-trans a.kind k k' same same',
      )
