-- ===== src/Daemon/Events.antt =====
-- From a client's events message to the daemon's event base.
use libnrm.Prelude.{◌>>=◌, ℕ, ◌≡◌, refl, sym, ap, ◌∙◌, some, List, [], ◌∷◌, ◌++◌}
use mathlib.Core.List.{Perm}
use libnrm.Prelude.Int.{ℤ, pos}
use libnrm.Prelude.Bytes.{Bytes}
use libnrm.Error.{success}
use libnrm.Ext.Uthash.{Uthash}
use libnrm.Ext.Utarray.{Utarray, Memory}
use libnrm.Ext.Doubles.{Doubles}
use libnrm.Time.{Time, fromns}
use libnrm.Scope.{Scope}
use libnrm.Timeserie
use libnrm.Timeserie.{Timeserie, events_of, create_lem}
use libnrm.Eventbase
use libnrm.Eventbase.{Eventbase, pull_timeserie, time2key}
use libnrm.Eventbase.Pull.{Push, run, logged, in_range, pull-run}
use libnrm.Server.{
  Series, replay, replay_all, events_callback, role_callback, events_request, publish,
}
use libnrm.Daemon.{Context, Nrmd, with_event, event_callback, callbacks}

module _ (uh : Uthash Bytes) (hz : Uthash ℤ) (ua : Utarray) (fp : Doubles) where
  abbrev Base : Type 0
  Base = Eventbase ua uh hz fp.Double

  -- The events of a message, as calls on the event base.
  abbrev pushes_of : Bytes → Scope → List (ℤ × fp.Double) → List (Push fp.Double)
  pushes_of sensor place [] = []
  pushes_of sensor place ((t, v) ∷ es) =
      record { sensor = sensor; scope = place; time = fromns t; value = v }
      ∷ pushes_of sensor place es

  abbrev pub pushes : List (Series uh ua fp) → List (Push fp.Double)
  pushes [] = []
  pushes (ts ∷ l) = pushes_of ts.sensor_uuid ts.scope ts.events ++ pushes l

  run-append :
      (xs ys : List (Push fp.Double)) (eb : Base)
      → run ua uh hz fp.Double eb (xs ++ ys)
        ≡ run ua uh hz fp.Double (run ua uh hz fp.Double eb xs) ys
  unfolding run
  run-append [] ys eb = refl
  run-append (x ∷ xs) ys eb = run-append xs ys _

  -- What the event callback leaves: the events filed, the state and the messages sent as before.
  abbrev Filed : Nrmd uh hz ua fp → List (Push fp.Double) → Nrmd uh hz ua fp → Type 0
  Filed self es after =
      (after.user.events ≡ run ua uh hz fp.Double self.user.events es)
      × (after.state ≡ self.state)
      × (after.sent ≡ self.sent)

  module _ (m : Memory ua) where
    event_lem :
        (self : Nrmd uh hz ua fp) (sensor : Bytes) (place : Scope) (time : Time) (v : fp.Double)
        → (after : Nrmd uh hz ua fp) × (event_callback uh hz ua fp self sensor place time v
            ≡ some after)
          × Filed self
              (record { sensor = sensor; scope = place; time = time; value = v } ∷ [])
              after
    unfolding event_callback publish run with_event Eventbase.push_event
    event_lem self sensor place time v =
        let (ts, made, empty, about, place_) = create_lem ua fp.Double m sensor place in
        let filed = with_event uh hz ua fp self sensor place time v in
        (
          record filed {
            published =
                self.published
                ++ (self.user.eventtopic, Timeserie.add_event ua fp.Double ts time v) ∷ [];
          },
          rw made refl,
          (refl, refl, refl),
        )

    Filed-trans :
        (self mid after : Nrmd uh hz ua fp) (xs ys : List (Push fp.Double))
        → Filed self xs mid
        → Filed mid ys after
        → Filed self (xs ++ ys) after
    Filed-trans self mid after xs ys h k = (
      k.0 ∙ ap (λ eb. run ua uh hz fp.Double eb ys) h.0 ∙ sym (run-append xs ys self.user.events),
      k.1 ∙ h.1,
      k.2 ∙ h.2,
    )

    replay_lem :
        (es : List (ℤ × fp.Double)) (self : Nrmd uh hz ua fp) (sensor : Bytes) (place : Scope)
        → (after : Nrmd uh hz ua fp) × (replay uh ua fp
              (Context uh hz ua fp)
              (callbacks uh hz ua fp)
              sensor
              place
              self
              es
            ≡ some after)
          × Filed self (pushes_of sensor place es) after
    unfolding replay callbacks run
    replay_lem [] self sensor place = (self, refl, (refl, refl, refl))
    replay_lem ((t, v) ∷ es) self sensor place =
        let (mid, e, first) = event_lem self sensor place (fromns t) v in
        let (after, f, rest) = replay_lem es mid sensor place in
        (
          after,
          ap
                (λ o. o >>= (λ d.
                  replay uh ua fp (Context uh hz ua fp) (callbacks uh hz ua fp) sensor place d es))
                e
              ∙ f,
          Filed-trans self mid after
              (record { sensor = sensor; scope = place; time = fromns t; value = v } ∷ [])
              (pushes_of sensor place es) first rest,
        )

    replay_all_lem :
        (l : List (Series uh ua fp)) (self : Nrmd uh hz ua fp)
        → (after : Nrmd uh hz ua fp) × (replay_all uh ua fp
              (Context uh hz ua fp)
              (callbacks uh hz ua fp)
              self
              l
            ≡ some after)
          × Filed self (pushes l) after
    unfolding replay_all run
    replay_all_lem [] self = (self, refl, (refl, refl, refl))
    replay_all_lem (ts ∷ l) self =
        let (mid, e, first) = replay_lem ts.events self ts.sensor_uuid ts.scope in
        let (after, f, rest) = replay_all_lem l mid in
        (
          after,
          ap
                (λ o.
                  o
                  >>= (λ d. replay_all uh ua fp (Context uh hz ua fp) (callbacks uh hz ua fp) d l))
                e
              ∙ f,
          Filed-trans self mid after (pushes_of ts.sensor_uuid ts.scope ts.events) (pushes l) first
              rest,
        )

    -- The daemon on a client's events message, with memory left: the handler returns 0 and sends
    -- nothing, the state stays, and the event base is as after a call of nrm_eventbase_push_event for
    -- each event of each series in order, at the time that its count of nanoseconds stands for.
    pub role_callback-events :
        (self : Nrmd uh hz ua fp) (client stacked : Bytes) (l : List (Series uh ua fp))
        → (after : Nrmd uh hz ua fp) × (role_callback uh ua fp
              (Context uh hz ua fp)
              (callbacks uh hz ua fp)
              self
              client
              (events_request l)
              stacked
            ≡ some (pos 0, after))
          × (after.user.events ≡ run ua uh hz fp.Double self.user.events (pushes l))
          × (after.state ≡ self.state)
          × (after.sent ≡ self.sent)
    unfolding role_callback events_callback
    role_callback-events self client stacked l =
        let (after, e, filed) = replay_all_lem l self in
        (
          after,
          ap (λ o. ◌>>=◌ {B = ℤ × Nrmd uh hz ua fp} o (λ d. some (pos 0, d))) e,
          filed.0,
          filed.1,
          filed.2,
        )

    -- A daemon with a new event base, a client's events message, and a pull: with memory left,
    -- nrm_eventbase_pull_timeserie then succeeds for every sensor, scope and pair of times and
    -- returns exactly the message's events for these, each as often as the message has it.
    pub pull-events :
        (self : Nrmd uh hz ua fp) (client stacked : Bytes) (l : List (Series uh ua fp)) (n : ℕ)
        → (s : Bytes) (scope : Scope) (since clock : Time)
        → self.user.events ≡ Eventbase.create ua uh hz fp.Double n
        → (after : Nrmd uh hz ua fp) × (ts : Timeserie ua fp.Double) × (role_callback uh ua fp
              (Context uh hz ua fp)
              (callbacks uh hz ua fp)
              self
              client
              (events_request l)
              stacked
            ≡ some (pos 0, after))
          × (pull_timeserie ua uh hz fp.Double (some after.user.events) s scope since clock
              ≡ some (success, some ts))
          × Perm (events_of ua fp.Double ts) (
              logged ua uh hz fp.Double s scope.uuid
                (in_range (time2key since) (time2key clock))
                (pushes l))
    pull-events self client stacked l n s scope since clock h =
        let (after, done, filed, kept, quiet) = role_callback-events self client stacked l in
        let (ts, pulled, same, about, place) =
          pull-run ua uh hz fp.Double m n (pushes l) s scope since clock in
        (
          after,
          ts,
          done,
          ap (λ eb. pull_timeserie ua uh hz fp.Double (some eb) s scope since clock)
                (filed ∙ ap (λ eb. run ua uh hz fp.Double eb (pushes l)) h)
              ∙ pulled,
          same,
        )
