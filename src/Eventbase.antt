-- ===== src/Eventbase.antt =====
-- src/eventbase.c: the daemon's event store. Events are filed by sensor, by scope and by time
-- slice; the tables are uthash tables, whose elements own the records below. Memory for a new
-- record is given (`calloc`); `clock` stands for what nrm_time_gettime reads.
pub mod Tests
pub mod Slices
pub mod Store
pub mod Pull
use libnrm.Prelude.{
  ℕ, Bool, true, false, ◌&&◌, not, Option, none, some, List, [], ◌∷◌, map, if◌then◌else◌,
}
use libnrm.Prelude.Int.{ℤ, pos, ◌-ℤ◌, ltb_ℤ, rem}
use libnrm.Prelude.Bytes.{Bytes}
use libnrm.Error.{ErrorCode, success, einval}
use libnrm.Time.{Time, tons}
use libnrm.Scope.{Scope}
use libnrm.Ext.Utarray.{Utarray}
use libnrm.Ext.Uthash.{Uthash}
use libnrm.Vector
use libnrm.Vector.{Vector, Ptr}
use libnrm.Hash
use libnrm.Timeserie
use libnrm.Timeserie.{Event, Timeserie, sizeof_event}

-- TIMESLICE_PERIOD
abbrev pub timeslice_period : ℕ
timeslice_period = 1000

-- nrm_eb_time2key
unfoldable pub time2key : Time → ℤ
time2key t = let key = tons t in key -ℤ rem key timeslice_period

module _ (ua : Utarray) (hb : Uthash Bytes) (hz : Uthash ℤ) (D : Type 0) where
  -- struct nrm_eb_timeslice_s; its vector is NULL if it could not be made
  pub record Timeslice : Type 0 where
    pub key : ℤ
    pub events : Ptr (Vector ua (Event D))

  -- struct nrm_eb_scopebase_s
  pub record Scopebase : Type 0 where
    pub uuid : Bytes
    pub slices : hz.Table Timeslice

  -- struct nrm_eb_sensorbase_s
  pub record Sensorbase : Type 0 where
    pub uuid : Bytes
    pub scopes : hb.Table Scopebase

  -- struct nrm_eventbase_s
  pub record Eventbase : Type 0 where
    pub maxperiods : ℕ
    pub sensors : hb.Table Sensorbase

  -- nrm_eventbase_create
  unfoldable pub create : ℕ → Eventbase
  create maxperiods = record { maxperiods = maxperiods; sensors = hb.null Sensorbase }

  -- nrm_eventbase_add_event: the code of the push is not looked at
  unfoldable pub add_event : Timeslice → Time → D → Timeslice
  add_event ts time val = record ts {
    events = (Vector.push_back ua ts.events (some (record { time = time; value = val }))).1;
  }

  -- a NULL or a new vector, from nrm_vector_create on a zeroed location
  unfoldable pub new_events : Ptr (Vector ua (Event D))
  new_events = elim (Vector.create ua (some none) sizeof_event).1 [ none ↦ none | some w ↦ w ]

  -- nrm_eventbase_add_timeslice
  unfoldable pub add_timeslice : Scopebase → ℤ → Scopebase
  unfolding new_events
  add_timeslice sc key = record sc {
    slices = hz.add Timeslice sc.slices key (record { key = key; events = new_events });
  }

  -- nrm_eventbase_add_scope
  unfoldable pub add_scope : Sensorbase → Bytes → Sensorbase
  add_scope sb uuid = record sb {
    scopes = (Hash.add hb sb.scopes uuid (record { uuid = uuid; slices = hz.null Timeslice })).1;
  }

  -- nrm_eventbase_add_sensor
  unfoldable pub add_sensor : Eventbase → Bytes → Eventbase
  add_sensor eb uuid = record eb {
    sensors = (Hash.add hb eb.sensors uuid (record { uuid = uuid; scopes = hb.null Scopebase })).1;
  }

  -- The first block of nrm_eventbase_push_event: the sensor is there afterwards.
  unfoldable pub with_sensor : Eventbase → Bytes → Eventbase
  with_sensor eb uuid =
      if hb.is_null Sensorbase eb.sensors
      then add_sensor eb uuid
      else elim (Hash.find hb eb.sensors (some uuid)).1 [ none ↦ add_sensor eb uuid | some sb ↦ eb ]

  -- Its second block, on the sensor's record.
  unfoldable pub with_scope : Sensorbase → Bytes → Sensorbase
  with_scope sb uuid =
      if hb.is_null Scopebase sb.scopes
      then add_scope sb uuid
      else elim (Hash.find hb sb.scopes (some uuid)).1 [ none ↦ add_scope sb uuid | some sc ↦ sb ]

  -- Its third block, on the scope's record.
  unfoldable pub with_slice : Scopebase → ℤ → Scopebase
  with_slice sc key =
      if hz.is_null Timeslice sc.slices
      then add_timeslice sc key
      else elim (hz.find Timeslice sc.slices key) [ none ↦ add_timeslice sc key | some ts ↦ sc ]

  -- The event filed in the scope's record, in that of the sensor, in the event base. What the code
  -- does through the pointers `ts`, `sc` and `sb` is an update of the element they point to.
  unfoldable pub push_in_scope : Scopebase → Time → D → Scopebase
  unfolding add_event
  push_in_scope sc time val =
      let key = time2key time in
      let sc' = with_slice sc key in
      record sc' { slices = hz.update Timeslice sc'.slices key (λ ts. add_event ts time val) }

  unfoldable pub push_in_sensor : Sensorbase → Bytes → Time → D → Sensorbase
  push_in_sensor sb scope time val =
      let sb' = with_scope sb scope in
      record sb' { scopes = hb.update Scopebase sb'.scopes scope (λ sc. push_in_scope sc time val) }

  unfoldable pub push_in_base : Eventbase → Bytes → Bytes → Time → D → Eventbase
  push_in_base eb sensor scope time val =
      let eb' = with_sensor eb sensor in
      record eb' {
        sensors = hb.update Sensorbase eb'.sensors sensor (λ sb. push_in_sensor sb scope time val);
      }

  -- nrm_eventbase_push_event
  unfoldable pub push_event :
      Ptr Eventbase → Bytes → Ptr Scope → Time → D → ErrorCode × Ptr Eventbase
  push_event none sensor scope time val = (einval, none)
  push_event (some eb) sensor none time val = (einval, some eb)
  push_event (some eb) sensor (some scope) time val =
      (success, some (push_in_base eb sensor scope.uuid time val))

  -- nrm_timeserie_add_events of a slice's events. A NULL vector would be read; here it gives no
  -- event, and `Store` shows that there is none while memory lasts.
  unfoldable pub take_slice : Timeserie ua D → Timeslice → Timeserie ua D
  take_slice ret tl = elim tl.events [
    | none ↦ ret
    | some events ↦ elim (Timeserie.add_events ua D (some ret) events).1 [
      | none ↦ ret
      | some ret' ↦ ret'
    ]
  ]

  -- The loop of nrm_eventbase_pull_timeserie over the slices of a scope.
  unfoldable pub pull_slices : Timeserie ua D → ℤ → ℤ → List Timeslice → Timeserie ua D
  unfolding take_slice
  pull_slices ret ksince know [] = ret
  pull_slices ret ksince know (tl ∷ rest) =
      pull_slices
        (if not (ltb_ℤ tl.key ksince) && ltb_ℤ tl.key know then take_slice ret tl else ret) ksince
        know rest

  -- The slices that HASH_ITER goes through.
  unfoldable pub slices_of : Scopebase → List Timeslice
  slices_of sc = map (λ e. e.1) (hz.items Timeslice sc.slices)

  -- What the searches of nrm_eventbase_pull_timeserie lead to.
  unfoldable pub collect : Eventbase → Timeserie ua D → Bytes → Bytes → Time → Time → Timeserie ua D
  collect eb ret sensor scope since clock = elim (Hash.find hb eb.sensors (some sensor)).1 [
    | none ↦ ret
    | some sb ↦ elim (Hash.find hb sb.scopes (some scope)).1 [
      | none ↦ ret
      | some sc ↦ pull_slices ret (time2key since) (time2key clock) (slices_of sc)
    ]
  ]

  -- nrm_eventbase_pull_timeserie, with what `*ts` is set to; where the time series cannot be made, a
  -- pointer without a value is used
  unfoldable pub pull_timeserie :
      Ptr Eventbase → Bytes → Scope → Time → Time → Option (ErrorCode × Ptr (Timeserie ua D))
  pull_timeserie none sensor scope since clock = some (einval, none)
  pull_timeserie (some eb) sensor scope since clock =
      elim (Timeserie.create ua D (some sensor) (some scope)).1 [
        | none ↦ none
        | some ret ↦ some (success, some (collect eb ret sensor scope.uuid since clock))
      ]

  -- nrm_eventbase_tick does nothing.
  unfoldable pub tick : Eventbase → Time → ErrorCode × Eventbase
  tick eb time = (success, eb)
