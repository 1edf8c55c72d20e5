-- ===== src/Client/Events.antt =====
-- From nrm_client_send_event of src/client.c to the daemon's event base and back out of it.
use libnrm.Prelude.{
  ◌>>=◌, bind_some, ℕ, ◌≡◌, refl, sym, ap, ◌∙◌, Option, some, List, [], ◌∷◌, ◌++◌, map, subst,
}
use mathlib.Core.List.{Perm}
use libnrm.Prelude.Int.{ℤ}
use libnrm.Prelude.Bytes.{Bytes}
use libnrm.Error.{success}
use libnrm.Ext.Uthash.{Uthash}
use libnrm.Ext.Utarray.{Utarray, Memory}
use libnrm.Ext.Qsort.{Qsort}
use libnrm.Ext.Doubles.{Doubles}
use libnrm.Vector
use libnrm.Vector.{Vector}
use libnrm.Vector.Laws.{list_of, append_one_lem, create_lem}
use libnrm.Time.{Time, tons, IsNormal, fromns-tons}
use libnrm.Scope.{Scope}
use libnrm.Timeserie
use libnrm.Timeserie.{Timeserie, Event, events_of, events-add_event, create_lem as new_series}
use libnrm.Eventbase
use libnrm.Eventbase.{Eventbase, pull_timeserie, time2key}
use libnrm.Eventbase.Pull.{Push, run, logged, in_range, pull-run}
use libnrm.Message
use libnrm.Message.{
  Message, EventMsg, created, events_type, set_events, timeserie_new, timeserielist_new, event_new,
  scope_new,
}
use libnrm.Message.RoundTrip.{IsWhole, scope_create-scope_new, read_out_lem}
use libnrm.State.{Sensor}
use libnrm.Role.{Broker}
use libnrm.Server.{Series, Request, events_request}
use libnrm.Server.Wire.{request_of, series_of}
use libnrm.Daemon.{Context, Nrmd, callbacks}
use libnrm.Daemon.Events.{role_callback-events}
use libnrm.Client.{Transport}
use libnrm.Client.Sending.{one_series, send_event}
use libnrm.Client.Link.{Link, link, deliver}
use libnrm.Client.Gather.{Every, every_nil, every_cons}
use libnrm.Client.Connected.{idle, send_lem}

module _ (uh : Uthash Bytes) (ua : Utarray) (fp : Doubles) (qs : Qsort ua) where
  abbrev stamped : Event fp.Double → ℤ × fp.Double
  stamped e = (tons e.time, e.value)

  abbrev sent_as : EventMsg fp.Double → ℤ × fp.Double
  sent_as e = (e.time, e.value)

  -- What the server reads of a time series that was sent to it.
  abbrev pub read_as : Timeserie ua fp.Double → Series uh ua fp
  read_as ts = record {
    sensor_uuid = ts.sensor_uuid;
    scope = ts.scope;
    events = map stamped (events_of ua fp.Double ts);
  }

  map-map : (l : List (Event fp.Double)) → map sent_as (map event_new l) ≡ map stamped l
  unfolding event_new
  map-map [] = refl
  map-map (e ∷ l) = ap (λ r. (tons e.time, e.value) ∷ r) (map-map l)

  series_lem :
      (l : List (Timeserie ua fp.Double))
      → Every (λ ts. IsWhole ts.scope) l
      → series_of uh ua fp qs (map (timeserie_new ua) l) ≡ some (map read_as l)
  unfolding series_of timeserie_new
  series_lem [] every_nil = refl
  series_lem (ts ∷ l) (every_cons whole rest) =
      bind_some (scope_create-scope_new ts.scope whole) _
      ∙ bind_some (series_lem l rest) _
      ∙ ap
          (λ es. some (
            record { sensor_uuid = ts.sensor_uuid; scope = ts.scope; events = es } ∷ map read_as l))
          (ap (map sent_as) (ap (map event_new) (read_out_lem ua ts.events))
            ∙ map-map (events_of ua fp.Double ts))

  -- nrm_msg_set_events and what nrm_server_events_callback reads: the time series of the vector, with
  -- their events, when their scopes are well formed.
  pub request-set_events :
      (v : Vector ua (Timeserie ua fp.Double))
      → Every (λ ts. IsWhole ts.scope) (list_of ua v)
      → request_of uh ua fp qs (set_events ua (created events_type) (some v))
        ≡ some (events_request (map read_as (list_of ua v)))
  unfolding request_of set_events timeserielist_new Message.fill Message.create
  request-set_events v whole =
      bind_some
        (ap (λ l. series_of uh ua fp qs (map (timeserie_new ua) l)) (read_out_lem ua v)
          ∙ series_lem (list_of ua v) whole)
        _

module _ (uh : Uthash Bytes) (hz : Uthash ℤ) (ua : Utarray) (fp : Doubles) (qs : Qsort ua)
    (m : Memory ua) (Ctx : Type 0) (stacked : Bytes) (b : Broker fp.Double Ctx) (me : Bytes)
    (others : List (Bytes × Message fp.Double)) where
  abbrev pub At : Nrmd uh hz ua fp → Link uh ua fp qs (Context uh hz ua fp) Ctx
  At s = idle uh ua fp qs (Context uh hz ua fp) Ctx (callbacks uh hz ua fp) stacked b s me others

  abbrev pub N : Transport fp.Double
  N = link uh ua fp qs (Context uh hz ua fp) Ctx (callbacks uh hz ua fp) stacked

  one_series_lem :
      (ts : Timeserie ua fp.Double)
      → (v : Vector ua (Timeserie ua fp.Double)) × (one_series ua fp qs N ts ≡ some v)
        × (list_of ua v ≡ ts ∷ [])
  unfolding one_series
  one_series_lem ts =
      let (v, made, empty) = create_lem ua m {A = Timeserie ua fp.Double} in
      (
        (Vector.append_one ua v ts).1,
        ap (λ c. c.1 >>= (λ p. p >>= (λ w. some (Vector.append_one ua w ts).1))) made,
        (append_one_lem ua v m ts).1 ∙ ap (λ l. l ++ ts ∷ []) empty,
      )

  -- A time series with one event.
  abbrev With : Timeserie ua fp.Double → Bytes → Scope → Time → fp.Double → Type 0
  With ts sensor place time value =
      (ts.sensor_uuid ≡ sensor)
      × (ts.scope ≡ place)
      × (events_of ua fp.Double ts ≡ record { time = time; value = value } ∷ [])

  message_lem :
      (v : Vector ua (Timeserie ua fp.Double)) (ts : Timeserie ua fp.Double) (sensor : Bytes)
      (place : Scope) (time : Time) (value : fp.Double)
      → list_of ua v ≡ ts ∷ []
      → With ts sensor place time value
      → IsWhole place
      → request_of uh ua fp qs (set_events ua (created events_type) (some v))
        ≡ some (
            events_request (
              record { sensor_uuid = sensor; scope = place; events = (tons time, value) ∷ [] }
              ∷ []))
  message_lem v ts sensor place time value one (about, at, has) whole =
      request-set_events uh ua fp qs v
        (rw one (every_cons (subst IsWhole (sym at) whole) every_nil))
      ∙ ap (λ l. some (events_request (map (read_as uh ua fp qs) l))) one
      ∙ ap (λ u. asked u ts.scope (events_of ua fp.Double ts)) about
      ∙ ap (λ p. asked sensor p (events_of ua fp.Double ts)) at
      ∙ ap (λ l. asked sensor place l) has
    where
      asked : Bytes → Scope → List (Event fp.Double) → Option (Request uh ua fp)
      asked u p l = some (
          events_request (
            record {
              sensor_uuid = u;
              scope = p;
              events = map (λ (e : Event fp.Double). (tons e.time, e.value)) l;
            }
            ∷ []))

  pub send_event_lem :
      (s : Nrmd uh hz ua fp) (time : Time) (sensor : Sensor) (place : Scope) (value : fp.Double)
      → IsNormal time
      → IsWhole place
      → (s' : Nrmd uh hz ua fp) × (send_event ua fp qs N
            (At s)
            time
            (some sensor)
            (some place)
            value
          ≡ some (success, At s'))
        × (s'.user.events
            ≡ run ua uh hz fp.Double s.user.events
                (record { sensor = sensor.uuid; scope = place; time = time; value = value } ∷ []))
        × (s'.state ≡ s.state)
  unfolding send_event Timeserie.add_event deliver
  send_event_lem s time sensor place value normal whole =
      let (ts, made, empty, about, at) = new_series ua fp.Double m sensor.uuid place in
      let full : Timeserie ua fp.Double = Timeserie.add_event ua fp.Double ts time value in
      let (v, listed, one) = one_series_lem full in
      let has : With full sensor.uuid place time value = (
        about,
        at,
        events-add_event ua fp.Double m ts time value
            ∙ ap (λ l. l ++ record { time = time; value = value } ∷ []) empty,
      ) in
      let (s', done, filed, kept, quiet) =
        role_callback-events uh hz ua fp m (record s { sent = [] }) me stacked
          (record { sensor_uuid = sensor.uuid; scope = place; events = (tons time, value) ∷ [] }
            ∷ []) in
      (
        s',
        bind_some (ap (λ r. r.1) made) _
            ∙ bind_some listed _
            ∙ bind_some
                (send_lem uh ua fp qs (Context uh hz ua fp) Ctx (callbacks uh hz ua fp) stacked b s
                  s' me others (At s') _ _
                  (message_lem v full sensor.uuid place time value one has whole) done
                  (ap (deliver uh ua fp qs (Context uh hz ua fp) Ctx (At s')) quiet))
                _,
        filed
            ∙ ap
                (λ t.
                  run ua uh hz fp.Double s.user.events
                    (record { sensor = sensor.uuid; scope = place; time = t; value = value } ∷ []))
                (fromns-tons time normal),
        kept,
      )

  -- A client's calls of nrm_client_send_event, one after another.
  pub send_each :
      Link uh ua fp qs (Context uh hz ua fp) Ctx
      → List (Push fp.Double)
      → Option (Link uh ua fp qs (Context uh hz ua fp) Ctx)
  send_each w [] = some w
  send_each w (e ∷ es) = do
    r ← send_event ua fp qs N w e.time (some (record { uuid = e.sensor })) (some e.scope) e.value
    send_each r.1 es

  -- An event whose time is normal and whose scope is well formed.
  pub record IsSendable (e : Push fp.Double) : Type 0 where
    pub normal : IsNormal e.time
    pub whole : IsWhole e.scope

  send_each_lem :
      (es : List (Push fp.Double)) (s : Nrmd uh hz ua fp)
      → Every IsSendable es
      → (s' : Nrmd uh hz ua fp) × (send_each (At s) es ≡ some (At s'))
        × (s'.user.events ≡ run ua uh hz fp.Double s.user.events es)
        × (s'.state ≡ s.state)
  unfolding send_each run
  send_each_lem [] s every_nil = (s, refl, refl, refl)
  send_each_lem (e ∷ es) s (every_cons p ps) =
      let (mid, sent, filed, kept) =
        send_event_lem s e.time (record { uuid = e.sensor }) e.scope e.value p.normal p.whole in
      let (s', rest, filed', kept') = send_each_lem es mid ps in
      (
        s',
        bind_some sent _ ∙ rest,
        filed' ∙ ap (λ eb. run ua uh hz fp.Double eb es) filed,
        kept' ∙ kept,
      )

  -- A client's calls of nrm_client_send_event over the link, on a daemon with a new event base, and a
  -- pull there: with memory left, normal times and well-formed scopes, nrm_eventbase_pull_timeserie then
  -- succeeds for every sensor, scope and pair of times, and returns exactly the events that were sent for
  -- these, with their times and values, each as often as it was sent; the daemon's state is as before.
  pub pull-send_each :
      (es : List (Push fp.Double)) (s : Nrmd uh hz ua fp) (n : ℕ) (sensor : Bytes) (scope : Scope)
      → (since clock : Time) → s.user.events ≡ Eventbase.create ua uh hz fp.Double n
      → Every IsSendable es
      → (s' : Nrmd uh hz ua fp) × (ts : Timeserie ua fp.Double) × (send_each (At s) es
          ≡ some (At s'))
        × (pull_timeserie ua uh hz fp.Double (some s'.user.events) sensor scope since clock
            ≡ some (success, some ts))
        × Perm (events_of ua fp.Double ts) (
            logged ua uh hz fp.Double sensor scope.uuid
              (in_range (time2key since) (time2key clock))
              es)
        × (s'.state ≡ s.state)
  pull-send_each es s n sensor scope since clock h sendable =
      let (s', sent, filed, kept) = send_each_lem es s sendable in
      let (ts, pulled, same, about, place) =
        pull-run ua uh hz fp.Double m n es sensor scope since clock in
      (
        s',
        ts,
        sent,
        ap (λ eb. pull_timeserie ua uh hz fp.Double (some eb) sensor scope since clock)
              (filed ∙ ap (λ eb. run ua uh hz fp.Double eb es) h)
            ∙ pulled,
        same,
        kept,
      )
