-- ===== src/Timeserie.antt =====
-- src/timeserie.c: the events of one sensor in one scope. Event values are of any type `D`
-- (`double` in the code), which nothing here computes with.
use libnrm.Prelude.{ℕ, none, some, List, [], ◌∷◌, ◌++◌, ◌≡◌, refl, ◌∙◌, sym, if◌then◌else◌}
use mathlib.Core.List.{append_assoc, append-nil}
use libnrm.Prelude.Int.{pos, ltb_ℤ}
use libnrm.Prelude.Bytes.{Bytes}
use libnrm.Error.{ErrorCode, success, einval}
use libnrm.Time.{Time, tons, fromns}
use libnrm.Scope.{Scope}
use libnrm.Ext.Utarray.{Utarray, Memory}
use libnrm.Vector
use libnrm.Vector.{Vector, Ptr}
use libnrm.Vector.Laws.{list_of, append_one_lem}

-- struct nrm_event_s
pub record Event (D : Type 0) : Type 0 where
  pub time : Time
  pub value : D

-- sizeof(nrm_event_t)
abbrev pub sizeof_event : ℕ
sizeof_event = 24

module _ (ua : Utarray) (D : Type 0) where
  -- struct nrm_timeserie_s
  pub record Timeserie : Type 0 where
    pub sensor_uuid : Bytes
    pub scope : Scope
    pub events : Vector ua (Event D)
    pub start : Time

  -- nrm_timeserie_create; `calloc` succeeds. The result is what `*ts` is set to on success.
  unfoldable pub create : Ptr Bytes → Ptr Scope → ErrorCode × Ptr Timeserie
  create none scope = (einval, none)
  create (some sensor) none = (einval, none)
  create (some sensor) (some scope) =
      let (err, made) = Vector.create ua (some none) sizeof_event in
      elim made [
        | none ↦ (err, none)
        | some w ↦ elim w [
          | none ↦ (err, none)
          | some v ↦ (
            success,
            some (record {
              sensor_uuid = sensor;
              scope = scope;
              events = v;
              start = fromns (pos 0);
            }),
          )
        ]
      ]

  -- nrm_timeserie_add_event on a time series that is there; the code of the push is not looked at
  unfoldable pub add_event : Timeserie → Time → D → Timeserie
  add_event ts time val = record ts {
    events = (Vector.append_one ua ts.events (record { time = time; value = val })).1;
    start = if ltb_ℤ (tons ts.start) (tons time) then time else ts.start;
  }

  -- The loop of nrm_timeserie_add_events.
  unfoldable pub add_each : Timeserie → List (Event D) → Timeserie
  add_each ts [] = ts
  add_each ts (e ∷ es) = add_each (add_event ts e.time e.value) es

  -- nrm_timeserie_add_events
  unfoldable pub add_events : Ptr Timeserie → Vector ua (Event D) → ErrorCode × Ptr Timeserie
  unfolding add_each
  add_events none events = (einval, none)
  add_events (some ts) events = (success, some (add_each ts (Vector.elements ua events)))

  -- nrm_timeserie_get_events
  unfoldable pub get_events : Ptr Timeserie → Ptr (Vector ua (Event D))
  get_events none = none
  get_events (some ts) = some ts.events

  abbrev pub events_of : Timeserie → List (Event D)
  events_of ts = list_of ua ts.events

  module _ (m : Memory ua) where
    pub events-add_event :
        (ts : Timeserie) (time : Time) (val : D)
        → events_of (add_event ts time val)
          ≡ events_of ts ++ record { time = time; value = val } ∷ []
    unfolding add_event
    events-add_event ts time val =
        (append_one_lem ua ts.events m (record { time = time; value = val })).1

    pub events-add_each :
        (es : List (Event D)) (ts : Timeserie) → events_of (add_each ts es) ≡ events_of ts ++ es
    unfolding add_each
    events-add_each [] ts = sym (append-nil (events_of ts))
    events-add_each (e ∷ es) ts =
        events-add_each es (add_event ts e.time e.value)
        ∙ rw (events-add_event ts e.time e.value) (append_assoc (events_of ts) (e ∷ []) es)

    -- With memory left a new time series has no event.
    pub create_lem :
        (sensor : Bytes) (scope : Scope)
        → (ts : Timeserie) × (create (some sensor) (some scope) ≡ (success, some ts))
          × (events_of ts ≡ [])
          × (ts.sensor_uuid ≡ sensor)
          × (ts.scope ≡ scope)
    unfolding create Vector.create
    create_lem sensor scope =
        let (a, e) = m.new_ok (Event D) in
        (
          record {
            sensor_uuid = sensor;
            scope = scope;
            events = record { array = a; sz = sizeof_event };
            start = fromns (pos 0);
          },
          rw e,
          ua.contents-new (Event D) a e,
          refl,
          refl,
        )
