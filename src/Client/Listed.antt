-- ===== src/Client/Listed.antt =====
-- What the list calls of src/client.c give a client that is linked to the daemon.
use libnrm.Prelude.{◌≡◌, refl, ap, ◌∙◌, false, Option, some, List, map, subst}
use mathlib.Core.List.{Forall₂}
use libnrm.Prelude.Bytes.{Bytes}
use libnrm.Error.{ErrorCode, success}
use libnrm.Ext.Uthash.{Uthash}
use libnrm.Ext.Utarray.{Utarray, Memory}
use libnrm.Ext.Qsort.{Qsort}
use libnrm.Ext.Doubles.{Doubles}
use libnrm.Hash.{pointers}
use libnrm.Vector.{Vector, Ptr}
use libnrm.Vector.Laws.{list_of}
use libnrm.Actuator.{Actuator}
use libnrm.Message
use libnrm.Message.{
  Message, TargetType, ListData, ScopeMsg, SensorMsg, SliceMsg, ActuatorMsg, created, list_type,
  sensor_new, slice_new, scope_new, actuator_new, sensor_target, slice_target, scope_target,
  actuator_target, is_reply,
}
use libnrm.Message.RoundTrip.{IsWhole, IsCopy}
use libnrm.Role.{Broker}
use libnrm.Server.{Server, Callbacks}
use libnrm.Client.{
  Transport, listed_part, same_target, sensors_in, slices_in, scopes_in, actuators_in,
  nothing_skipped,
}
use libnrm.Client.Calls.{
  list_sensors, list_slices, list_scopes, list_actuators, gather_sensors, gather_slices,
  gather_scopes, gather_actuators,
}
use libnrm.Client.Link.{Link}
use libnrm.Client.Gather.{kept, kept-nothing_skipped, Every}
use libnrm.Client.Answers.{
  Linked, Net, answers_lem, sensors_fill, slices_fill, scopes_fill, actuators_fill, list_call_lem,
}

module _ (uh : Uthash Bytes) (ua : Utarray) (fp : Doubles) (qs : Qsort ua) (m : Memory ua)
    (User Ctx : Type 0) (cb : Callbacks uh ua fp User) (stacked : Bytes) (b : Broker fp.Double Ctx)
    (s : Server uh ua fp User) (me : Bytes) (others : List (Bytes × Message fp.Double)) where
  abbrev pub At : Link uh ua fp qs User Ctx
  At = Linked uh ua fp qs m User Ctx cb stacked b s me others

  abbrev pub N : Transport fp.Double
  N = Net uh ua fp qs m User Ctx cb stacked b s me others

  abbrev pub Lists :
      {A : Type 0}
      → Option (ErrorCode × Ptr (Vector ua A) × Link uh ua fp qs User Ctx)
      → (List A → Type 0)
      → Type 0
  Lists {A} result P = (v : Vector ua A) × (result ≡ some (success, some v, At)) × P (list_of ua v)

  -- nrm_client_list_sensors, nrm_client_list_slices, nrm_client_list_scopes and
  -- nrm_client_list_actuators, by a client that is linked to the daemon, with memory left and the
  -- daemon's scopes well formed: they return 0 and all of the daemon's sensors, slices, scopes and
  -- actuators, in the order of its tables; an actuator's choices come in ascending order. The link and
  -- the daemon stay as they were.
  pub lists_lem :
      Every IsWhole (pointers uh s.state.scopes)
      → Lists (list_sensors ua fp qs N At) (λ l. l ≡ map some (pointers uh s.state.sensors))
        × Lists (list_slices ua fp qs N At) (λ l. l ≡ map some (pointers uh s.state.slices))
        × Lists (list_scopes ua fp qs N At) (λ l. l ≡ map some (pointers uh s.state.scopes))
        × Lists
            (list_actuators ua fp qs N At)
            (Forall₂ (IsCopy ua fp) (pointers uh s.state.actuators))
  unfolding list_sensors list_slices list_scopes list_actuators listed_part same_target sensors_in
      slices_in scopes_in actuators_in Message.fill Message.create
  lists_lem whole = (
    all_of (pointers uh s.state.sensors) (
        list_call_lem ua fp qs N m At At sensor_target sensors_in
          (gather_sensors ua fp qs N nothing_skipped) _ _ _
          (λ l. l ≡ map some (kept (λ n. false) (pointers uh s.state.sensors)))
          (answers_lem uh ua fp qs m User Ctx cb stacked b s me others).0 refl refl
          ((sensors_fill uh ua fp qs m User Ctx cb stacked b s me others) nothing_skipped)),
    all_of (pointers uh s.state.slices) (
        list_call_lem ua fp qs N m At At slice_target slices_in
          (gather_slices ua fp qs N nothing_skipped) _ _ _
          (λ l. l ≡ map some (kept (λ n. false) (pointers uh s.state.slices)))
          (answers_lem uh ua fp qs m User Ctx cb stacked b s me others).1 refl refl
          ((slices_fill uh ua fp qs m User Ctx cb stacked b s me others) nothing_skipped)),
    all_of (pointers uh s.state.scopes) (
        list_call_lem ua fp qs N m At At scope_target scopes_in
          (gather_scopes ua fp qs N nothing_skipped) _ _ _
          (λ l. l ≡ map some (kept (λ n. false) (pointers uh s.state.scopes)))
          (answers_lem uh ua fp qs m User Ctx cb stacked b s me others).2 refl refl
          ((scopes_fill uh ua fp qs m User Ctx cb stacked b s me others) nothing_skipped whole)),
    all_copies (
        list_call_lem ua fp qs N m At At actuator_target actuators_in
          (gather_actuators ua fp qs N nothing_skipped) _ _ _
          (Forall₂ (IsCopy ua fp) (kept (λ n. false) (pointers uh s.state.actuators)))
          (answers_lem uh ua fp qs m User Ctx cb stacked b s me others).3 refl refl
          ((actuators_fill uh ua fp qs m User Ctx cb stacked b s me others) nothing_skipped)),
  )
    where
      all_of :
          {X : Type 0} (xs : List X)
          {r : Option (ErrorCode × Ptr (Vector ua (Ptr X)) × Link uh ua fp qs User Ctx)}
          → Lists r (λ l. l ≡ map some (kept (λ n. false) xs))
          → Lists r (λ l. l ≡ map some xs)
      all_of xs (v, done, has) = (v, done, has ∙ ap (map some) (kept-nothing_skipped xs))

      all_copies :
          {r : Option
            (ErrorCode × Ptr (Vector ua (Ptr (Actuator ua fp))) × Link uh ua fp qs User Ctx)}
          → Lists r (Forall₂ (IsCopy ua fp) (kept (λ n. false) (pointers uh s.state.actuators)))
          → Lists r (Forall₂ (IsCopy ua fp) (pointers uh s.state.actuators))
      all_copies (v, done, has) = (
        v,
        done,
        subst (λ l. Forall₂ (IsCopy ua fp) l (list_of ua v))
            (kept-nothing_skipped (pointers uh s.state.actuators)) has,
      )
