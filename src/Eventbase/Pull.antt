-- ===== src/Eventbase/Pull.antt =====
-- The event base against a log: what nrm_eventbase_pull_timeserie returns after any pushes.
use libnrm.Prelude.{
  ℕ, ◌≡◌, refl, sym, ap, ◌∙◌, Bool, true, false, not, ◌&&◌, Option, none, some, List, [], ◌∷◌, ◌++◌,
  map, if◌then◌else◌, Option-cases, inl, inr, subst,
}
use mathlib.Core.List.{append-nil, append_assoc, Perm}
use mathlib.Core.List.Perm
use libnrm.Prelude.Int.{ℤ, ltb_ℤ}
use libnrm.Prelude.Bytes.{Bytes}
use libnrm.Error.{success}
use libnrm.Ext.Utarray.{Utarray, Memory}
use libnrm.Ext.Uthash.{Uthash}
use libnrm.Hash
use libnrm.Hash.Laws.{found, find_null}
use libnrm.Vector
use libnrm.Vector.{Ptr}
use libnrm.Vector.Laws.{elements_lem}
use libnrm.Timeserie
use libnrm.Timeserie.{Event, Timeserie, events_of, events-add_each, create_lem}
use libnrm.Time.{Time}
use libnrm.Scope.{Scope}
use libnrm.Eventbase.{
  Eventbase, Sensorbase, Scopebase, push_in_base, push_event, create, time2key, take_slice,
  pull_slices, collect, slices_of, pull_timeserie,
}
use libnrm.Eventbase.Slices.{Slice, AllSound, IsSound, gathered, slice_events}
use libnrm.Eventbase.Store.{
  IsSoundBase, is_here, stored, slices, held, held_under, sensor_at, scope_at, push_in_base_lem,
}

-- A call of nrm_eventbase_push_event.
pub record Push (D : Type 0) : Type 0 where
  pub sensor : Bytes
  pub scope : Scope
  pub time : Time
  pub value : D

-- `key >= ksince && key < know`
abbrev pub in_range : ℤ → ℤ → ℤ → Bool
in_range ksince know key = not (ltb_ℤ key ksince) && ltb_ℤ key know

module _ (ua : Utarray) (hb : Uthash Bytes) (hz : Uthash ℤ) (D : Type 0) where
  abbrev Base : Type 0
  Base = Eventbase ua hb hz D

  -- The event base after a sequence of calls.
  unfoldable pub run : Base → List (Push D) → Base
  run eb [] = eb
  run eb (e ∷ es) =
      run
        (elim (push_event ua hb hz D (some eb) e.sensor (some e.scope) e.time e.value).1 [
          | none ↦ eb
          | some eb' ↦ eb'
        ])
        es

  -- The events of a log that are of a sensor and a scope, with a slice key that passes a test.
  unfoldable pub logged : Bytes → Bytes → (ℤ → Bool) → List (Push D) → List (Event D)
  logged s c p [] = []
  logged s c p (e ∷ es) =
      (if is_here ua hb hz D e.sensor e.scope.uuid s c && p (time2key e.time)
        then record { time = e.time; value = e.value } ∷ []
        else [])
      ++ logged s c p es

  module _ (m : Memory ua) where
    run_lem :
        (es : List (Push D)) (eb : Base)
        → IsSoundBase ua hb hz D eb
        → IsSoundBase ua hb hz D (run eb es)
          × ((s c : Bytes) (p : ℤ → Bool)
              → Perm
                  (gathered ua hb hz D p (stored ua hb hz D (run eb es) s c))
                  (gathered ua hb hz D p (stored ua hb hz D eb s c) ++ logged s c p es))
    unfolding run push_event logged
    run_lem [] eb v = (v, λ s c p. rw append-nil (Perm.refl _))
    run_lem (e ∷ es) eb v =
        let one = push_in_base_lem ua hb hz D m eb e.sensor e.scope.uuid e.time e.value v in
        let rest =
          run_lem es (push_in_base ua hb hz D eb e.sensor e.scope.uuid e.time e.value) one.0 in
        (
          rest.0,
          λ s c p.
              subst (Perm _) (append_assoc _ _ (logged s c p es))
                (Perm.trans (rest.1 s c p) (Perm.append_right (logged s c p es) (one.1 s c p))),
        )

    -- A new event base holds nothing.
    stored-create : (n : ℕ) (s c : Bytes) → stored ua hb hz D (create ua hb hz D n) s c ≡ []
    unfolding create
    stored-create n s c = ap (λ o. held_under ua hb hz D o c) no_sensor
      where
        no_sensor : hb.find (Sensorbase ua hb hz D) (hb.null (Sensorbase ua hb hz D)) s ≡ none
        no_sensor = find_null hb (Sensorbase ua hb hz D) (hb.null (Sensorbase ua hb hz D)) s (
            (hb.is_null_iff _ (hb.null (Sensorbase ua hb hz D))).1
              (hb.items-null (Sensorbase ua hb hz D)))

    create-IsSoundBase : (n : ℕ) → IsSoundBase ua hb hz D (create ua hb hz D n)
    create-IsSoundBase n = record { all = λ s c. rw (stored-create n s c) tt }

    events-take_slice :
        (ret : Timeserie ua D) (k : ℤ) (tl : Slice ua hb hz D)
        → IsSound ua hb hz D k tl
        → events_of ua D (take_slice ua hb hz D ret tl)
          ≡ events_of ua D ret ++ slice_events ua hb hz D tl
    unfolding take_slice Timeserie.add_events
    events-take_slice ret k tl v =
        rw v.events.1 (rw (elements_lem ua v.events.0) (events-add_each ua D m _ ret))

    events-pull_slices :
        (l : List (ℤ × Slice ua hb hz D)) (ret : Timeserie ua D) (ksince know : ℤ)
        → AllSound ua hb hz D l
        → events_of ua D (pull_slices ua hb hz D ret ksince know (map (λ e. e.1) l))
          ≡ events_of ua D ret ++ gathered ua hb hz D (in_range ksince know) l
    unfolding pull_slices gathered
    events-pull_slices [] ret ksince know v = sym (append-nil _)
    events-pull_slices ((k, tl) ∷ l) ret ksince know v =
        events-pull_slices l (if here then take_slice ua hb hz D ret tl else ret) ksince know v.1
        ∙ ap (λ t. t ++ gathered ua hb hz D (in_range ksince know) l) (taken here)
        ∙ append_assoc (events_of ua D ret) (if here then slice_events ua hb hz D tl else [])
            (gathered ua hb hz D (in_range ksince know) l)
      where
        here : Bool
        here = in_range ksince know tl.key

        taken :
            (b : Bool)
            → events_of ua D (if b then take_slice ua hb hz D ret tl else ret)
              ≡ events_of ua D ret ++ (if b then slice_events ua hb hz D tl else [])
        taken true = events-take_slice ret k tl v.0
        taken false = sym (append-nil (events_of ua D ret))

    module _ (ret : Timeserie ua D) (ksince know : ℤ) where
      events-scope :
          (o : Option (Scopebase ua hb hz D))
          → AllSound ua hb hz D (held ua hb hz D o)
          → events_of ua D (elim o [
            | none ↦ ret
            | some sc ↦ pull_slices ua hb hz D ret ksince know (slices_of ua hb hz D sc)
          ])
            ≡ events_of ua D ret ++ gathered ua hb hz D (in_range ksince know) (held ua hb hz D o)
      unfolding slices_of gathered
      events-scope none v = sym (append-nil _)
      events-scope (some sc) v = events-pull_slices (slices ua hb hz D sc) ret ksince know v

      events-sensor :
          (o : Option (Sensorbase ua hb hz D)) (c : Bytes)
          → AllSound ua hb hz D (held_under ua hb hz D o c)
          → events_of ua D (elim o [
            | none ↦ ret
            | some sb ↦ elim (Hash.find hb sb.scopes (some c)).1 [
              | none ↦ ret
              | some sc ↦ pull_slices ua hb hz D ret ksince know (slices_of ua hb hz D sc)
            ]
          ])
            ≡ events_of ua D ret
              ++ gathered ua hb hz D (in_range ksince know) (held_under ua hb hz D o c)
      unfolding gathered
      events-sensor none c v = sym (append-nil _)
      events-sensor (some sb) c v =
          rw (found hb sb.scopes c) (events-scope (scope_at ua hb hz D sb c) v)

    events-collect :
        (eb : Base) (ret : Timeserie ua D) (s c : Bytes) (since clock : Time)
        → IsSoundBase ua hb hz D eb
        → events_of ua D (collect ua hb hz D eb ret s c since clock)
          ≡ events_of ua D ret
            ++ gathered ua hb hz D
                (in_range (time2key since) (time2key clock))
                (stored ua hb hz D eb s c)
    unfolding collect
    events-collect eb ret s c since clock v =
        rw (found hb eb.sensors s, collect)
          (events-sensor ret (time2key since) (time2key clock) (sensor_at ua hb hz D eb s) c
            (v.all s c))

  -- What a time series is about.
  abbrev label : Timeserie ua D → Bytes × Scope
  label ts = (ts.sensor_uuid, ts.scope)

  label-add_each :
      (es : List (Event D)) (ts : Timeserie ua D) → label (Timeserie.add_each ua D ts es) ≡ label ts
  unfolding Timeserie.add_each Timeserie.add_event
  label-add_each [] ts = refl
  label-add_each (e ∷ es) ts = label-add_each es (Timeserie.add_event ua D ts e.time e.value)

  label-take_slice :
      (ts : Timeserie ua D) (tl : Slice ua hb hz D) → label (take_slice ua hb hz D ts tl) ≡ label ts
  unfolding take_slice Timeserie.add_events
  label-take_slice ts tl = elim (Option-cases tl.events) [
    | inl e ↦ rw (e, take_slice)
    | inr (v, e) ↦ rw (e, take_slice) (label-add_each (Vector.elements ua v) ts)
  ]

  label-pull_slices :
      (l : List (Slice ua hb hz D)) (ts : Timeserie ua D) (ksince know : ℤ)
      → label (pull_slices ua hb hz D ts ksince know l) ≡ label ts
  unfolding pull_slices
  label-pull_slices [] ts ksince know = refl
  label-pull_slices (tl ∷ l) ts ksince know =
      label-pull_slices l (if in_range ksince know tl.key then take_slice ua hb hz D ts tl else ts)
        ksince know
      ∙ either (in_range ksince know tl.key)
    where
      either : (b : Bool) → label (if b then take_slice ua hb hz D ts tl else ts) ≡ label ts
      either true = label-take_slice ts tl
      either false = refl

  label-collect :
      (eb : Base) (ts : Timeserie ua D) (s c : Bytes) (since clock : Time)
      → label (collect ua hb hz D eb ts s c since clock) ≡ label ts
  unfolding collect
  label-collect eb ts s c since clock = elim (Option-cases (Hash.find hb eb.sensors (some s)).1) [
    | inl e ↦ rw (e, collect)
    | inr (sb, e) ↦ elim (Option-cases (Hash.find hb sb.scopes (some c)).1) [
      | inl f ↦ rw (e, collect, f)
      | inr (sc, f) ↦ rw (e, collect, f) (label-pull_slices _ ts _ _)
    ]
  ]

  module _ (m : Memory ua) where
    -- After any sequence of pushes into a new event base, nrm_eventbase_pull_timeserie succeeds for
    -- every sensor, scope and pair of times, and the time series is for that sensor and scope and
    -- holds exactly the events that were pushed for them with a slice key from that of `since` up to,
    -- and not including, that of the clock: each as often as it was pushed.
    pub pull-run :
        (n : ℕ) (es : List (Push D)) (s : Bytes) (scope : Scope) (since clock : Time)
        → (ts : Timeserie ua D) × (pull_timeserie ua hb hz D
              (some (run (create ua hb hz D n) es))
              s
              scope
              since
              clock
            ≡ some (success, some ts))
          × Perm
              (events_of ua D ts)
              (logged s scope.uuid (in_range (time2key since) (time2key clock)) es)
          × (ts.sensor_uuid ≡ s)
          × (ts.scope ≡ scope)
    unfolding pull_timeserie gathered
    pull-run n es s scope since clock =
        let (ret, made, empty, sensor, place) = create_lem ua D m s scope in
        let eb = run (create ua hb hz D n) es in
        let (sound, held) = run_lem m es (create ua hb hz D n) (create-IsSoundBase m n) in
        (
          collect ua hb hz D eb ret s scope.uuid since clock,
          rw (made, pull_timeserie),
          rw (events-collect m eb ret s scope.uuid since clock sound, empty)
              (rw (stored-create m n s scope.uuid) at
                (held s scope.uuid (in_range (time2key since) (time2key clock)))),
          ap (λ l. l.0) (label-collect eb ret s scope.uuid since clock) ∙ sensor,
          ap (λ l. l.1) (label-collect eb ret s scope.uuid since clock) ∙ place,
        )
