-- ===== src/Eventbase/Store.antt =====
-- What the event base holds for a sensor and a scope, and how nrm_eventbase_push_event changes it.
use libnrm.Prelude.{
  ◌≡◌, refl, sym, ap, ◌∙◌, Bool, true, ◌&&◌, Option, none, some, List, [], ◌∷◌, ◌++◌, arith,
  if◌then◌else◌, Bool-cases, Option-cases, inl, inr, subst,
}
use mathlib.Core.List.{append-nil, Perm}
use mathlib.Core.List.Perm
use libnrm.Prelude.Int.{ℤ}
use libnrm.Prelude.Bytes.{Bytes}
use libnrm.Ext.Utarray.{Utarray, Memory}
use libnrm.Ext.Uthash.{Uthash}
use libnrm.Hash
use libnrm.Hash.Laws.{find-add, find-update, found, is_null-of_found, find_null}
use libnrm.Time.{Time}
use libnrm.Eventbase.{
  Eventbase, Sensorbase, Scopebase, add_sensor, add_scope, with_sensor, with_scope, push_in_scope,
  push_in_sensor, push_in_base, time2key,
}
use libnrm.Eventbase.Slices.{Slice, AllSound, gathered, IsFiled, push_in_scope_lem}

unchanged :
    {V : Type 0} (hb : Uthash Bytes) (at : Bytes → Option V) (s j : Bytes) (v : V)
    → at s ≡ some v
    → at j ≡ (if hb.key.same s j then some v else at j)
unchanged hb at s j v e = elim (Bool-cases (hb.key.same s j)) [
  | inl h ↦ rw h (ap at (sym ((hb.key.same_iff s j).0 h)) ∙ e)
  | inr h ↦ rw h
]

module _ (ua : Utarray) (hb : Uthash Bytes) (hz : Uthash ℤ) (D : Type 0) where
  abbrev Base : Type 0
  Base = Eventbase ua hb hz D

  abbrev Sensors : Type 0
  Sensors = Sensorbase ua hb hz D

  abbrev Scopes : Type 0
  Scopes = Scopebase ua hb hz D

  abbrev pub slices : Scopes → List (ℤ × Slice ua hb hz D)
  slices sc = hz.items (Slice ua hb hz D) sc.slices

  -- The record that an event goes to: the one that is there, or a new one.
  abbrev sensor_or_new : Bytes → Option Sensors → Sensors
  sensor_or_new uuid none = record { uuid = uuid; scopes = hb.null Scopes }
  sensor_or_new uuid (some sb) = sb

  abbrev scope_or_new : Bytes → Option Scopes → Scopes
  scope_or_new uuid none = record { uuid = uuid; slices = hz.null (Slice ua hb hz D) }
  scope_or_new uuid (some sc) = sc

  abbrev pub sensor_at : Base → Bytes → Option Sensors
  sensor_at eb s = hb.find Sensors eb.sensors s

  abbrev pub scope_at : Sensors → Bytes → Option Scopes
  scope_at sb c = hb.find Scopes sb.scopes c

  abbrev pub held : Option Scopes → List (ℤ × Slice ua hb hz D)
  held none = []
  held (some sc) = slices sc

  abbrev pub held_under : Option Sensors → Bytes → List (ℤ × Slice ua hb hz D)
  held_under none c = []
  held_under (some sb) c = held (scope_at sb c)

  -- The slices that the event base holds for a sensor and a scope.
  abbrev pub stored : Base → Bytes → Bytes → List (ℤ × Slice ua hb hz D)
  stored eb s c = held_under (sensor_at eb s) c

  find_empty : (c : Bytes) → hb.find Scopes (hb.null Scopes) c ≡ none
  find_empty c =
      find_null hb Scopes (hb.null Scopes) c
        ((hb.is_null_iff Scopes (hb.null Scopes)).1 (hb.items-null Scopes))

  held-sensor_or_new :
      (s c : Bytes) (o : Option Sensors) → held (scope_at (sensor_or_new s o) c) ≡ held_under o c
  held-sensor_or_new s c none = ap held (find_empty c)
  held-sensor_or_new s c (some sb) = refl

  slices-scope_or_new : (c : Bytes) (o : Option Scopes) → slices (scope_or_new c o) ≡ held o
  slices-scope_or_new c none = hz.items-null (Slice ua hb hz D)
  slices-scope_or_new c (some sc) = refl

  abbrev pub is_here : Bytes → Bytes → Bytes → Bytes → Bool
  is_here s c s' c' = hb.key.same s s' && hb.key.same c c'

  here_eq : (s c s' c' : Bytes) → is_here s c s' c' ≡ true → (s ≡ s') × (c ≡ c')
  here_eq s c s' c' h = (ground (arith, hb.key.same_iff s s'), ground (arith, hb.key.same_iff c c'))

  module _ (s c : Bytes) (time : Time) (val : D) where
    sensor_new :
        (eb : Base)
        → sensor_at eb s ≡ none
        → with_sensor ua hb hz D eb s ≡ add_sensor ua hb hz D eb s
    unfolding with_sensor
    sensor_new eb e = ground (arith, found hb eb.sensors s)

    sensor_old :
        (eb : Base) (sb : Sensors) → sensor_at eb s ≡ some sb → with_sensor ua hb hz D eb s ≡ eb
    unfolding with_sensor
    sensor_old eb sb e =
        ground (arith, found hb eb.sensors s, is_null-of_found hb Sensors eb.sensors s sb e)

    sensor_added :
        (eb : Base)
        → sensor_at eb s ≡ none
        → (add_sensor ua hb hz D eb s).sensors ≡ hb.add Sensors eb.sensors s (sensor_or_new s none)
    unfolding add_sensor Hash.add
    sensor_added eb e = ground arith

    sensor-with :
        (eb : Base) (j : Bytes)
        → sensor_at (with_sensor ua hb hz D eb s) j
          ≡ (if hb.key.same s j then some (sensor_or_new s (sensor_at eb s)) else sensor_at eb j)
    sensor-with eb j = elim (Option-cases (sensor_at eb s)) [
      | inl e ↦
          rw (sensor_new eb e, sensor_added eb e, e)
            (find-add hb Sensors eb.sensors s j (sensor_or_new s none) e)
      | inr (sb, e) ↦ rw (sensor_old eb sb e, e) (unchanged hb (sensor_at eb) s j sb e)
    ]

    sensor-push :
        (eb : Base) (j : Bytes)
        → sensor_at (push_in_base ua hb hz D eb s c time val) j ≡ (
            if hb.key.same s j
            then some (push_in_sensor ua hb hz D (sensor_or_new s (sensor_at eb s)) c time val)
            else sensor_at eb j)
    unfolding push_in_base
    sensor-push eb j =
        find-update hb Sensors _ s j _
        ∙ rw (sensor-with eb s, sensor-with eb j, (hb.key.same_iff s s).1 refl) (ground arith)

    scope_new :
        (sb : Sensors)
        → scope_at sb c ≡ none
        → with_scope ua hb hz D sb c ≡ add_scope ua hb hz D sb c
    unfolding with_scope
    scope_new sb e = ground (arith, found hb sb.scopes c)

    scope_old :
        (sb : Sensors) (sc : Scopes) → scope_at sb c ≡ some sc → with_scope ua hb hz D sb c ≡ sb
    unfolding with_scope
    scope_old sb sc e =
        ground (arith, found hb sb.scopes c, is_null-of_found hb Scopes sb.scopes c sc e)

    scope_added :
        (sb : Sensors)
        → scope_at sb c ≡ none
        → (add_scope ua hb hz D sb c).scopes ≡ hb.add Scopes sb.scopes c (scope_or_new c none)
    unfolding add_scope Hash.add
    scope_added sb e = ground arith

    scope-with :
        (sb : Sensors) (j : Bytes)
        → scope_at (with_scope ua hb hz D sb c) j
          ≡ (if hb.key.same c j then some (scope_or_new c (scope_at sb c)) else scope_at sb j)
    scope-with sb j = elim (Option-cases (scope_at sb c)) [
      | inl e ↦
          rw (scope_new sb e, scope_added sb e, e)
            (find-add hb Scopes sb.scopes c j (scope_or_new c none) e)
      | inr (sc, e) ↦ rw (scope_old sb sc e, e) (unchanged hb (scope_at sb) c j sc e)
    ]

    scope-push :
        (sb : Sensors) (j : Bytes)
        → scope_at (push_in_sensor ua hb hz D sb c time val) j ≡ (
            if hb.key.same c j
            then some (push_in_scope ua hb hz D (scope_or_new c (scope_at sb c)) time val)
            else scope_at sb j)
    unfolding push_in_sensor
    scope-push sb j =
        find-update hb Scopes _ c j _
        ∙ rw (scope-with sb c, scope-with sb j, (hb.key.same_iff c c).1 refl) (ground arith)

    -- The scope's record that an event for (s, c) goes to.
    abbrev target : Base → Scopes
    target eb = scope_or_new c (scope_at (sensor_or_new s (sensor_at eb s)) c)

    slices-target : (eb : Base) → slices (target eb) ≡ stored eb s c
    slices-target eb =
        slices-scope_or_new c (scope_at (sensor_or_new s (sensor_at eb s)) c)
        ∙ held-sensor_or_new s c (sensor_at eb s)

    -- nrm_eventbase_push_event changes only what is held for its sensor and scope.
    stored-push :
        (eb : Base) (s' c' : Bytes)
        → stored (push_in_base ua hb hz D eb s c time val) s' c' ≡ (
            if is_here s c s' c'
            then slices (push_in_scope ua hb hz D (target eb) time val)
            else stored eb s' c')
    stored-push eb s' c' = elim (Bool-cases (hb.key.same s s')) [
      | inl h ↦
          rw (sensor-push eb s', h)
            (ap held (scope-push (sensor_or_new s (sensor_at eb s)) c')
              ∙ elim (Bool-cases (hb.key.same c c')) [
                | inl g ↦ rw g
                | inr g ↦ rw g (
                    held-sensor_or_new s c' (sensor_at eb s)
                    ∙ ap (λ k. stored eb k c') ((hb.key.same_iff s s').0 h))
              ])
      | inr h ↦ rw (sensor-push eb s', h)
    ]

  -- Every slice of the event base is filed under its key and has its vector.
  pub record IsSoundBase (eb : Base) : Type 0 where
    pub all : (s c : Bytes) → AllSound ua hb hz D (stored eb s c)

  module _ (m : Memory ua) where
    -- nrm_eventbase_push_event keeps the event base sound, and adds its event to what is held for its
    -- sensor and scope, and nothing else anywhere.
    pub push_in_base_lem :
        (eb : Base) (s c : Bytes) (time : Time) (val : D)
        → IsSoundBase eb
        → IsSoundBase (push_in_base ua hb hz D eb s c time val)
          × ((s' c' : Bytes) (p : ℤ → Bool)
              → Perm
                  (gathered ua hb hz D p (stored (push_in_base ua hb hz D eb s c time val) s' c'))
                  (gathered ua hb hz D p (stored eb s' c')
                    ++ (if is_here s c s' c' && p (time2key time)
                        then record { time = time; value = val } ∷ []
                        else [])))
    push_in_base_lem eb s c time val v =
        (record { all = λ s' c'. rw (stored-push s c time val eb s' c') (sound s' c') }, added)
      where
        after : List (ℤ × Slice ua hb hz D)
        after = slices (push_in_scope ua hb hz D (target s c time val eb) time val)

        filed : IsFiled ua hb hz D m time val (stored eb s c) after
        filed =
            subst (λ l. IsFiled ua hb hz D m time val l after) (slices-target s c time val eb)
              (push_in_scope_lem ua hb hz D m time val (target s c time val eb)
                (subst (AllSound ua hb hz D) (sym (slices-target s c time val eb)) (v.all s c)))

        sound :
            (s' c' : Bytes)
            → AllSound ua hb hz D (if is_here s c s' c' then after else stored eb s' c')
        sound s' c' = elim (Bool-cases (is_here s c s' c')) [
          | inl h ↦ rw h filed.sound
          | inr h ↦ rw h (v.all s' c')
        ]

        added :
            (s' c' : Bytes) (p : ℤ → Bool)
            → Perm
                (gathered ua hb hz D p (stored (push_in_base ua hb hz D eb s c time val) s' c'))
                (gathered ua hb hz D p (stored eb s' c')
                  ++ (if is_here s c s' c' && p (time2key time)
                      then record { time = time; value = val } ∷ []
                      else []))
        added s' c' p =
            rw (stored-push s c time val eb s' c') (elim (Bool-cases (is_here s c s' c')) [
              | inl h ↦
                  let e = here_eq s c s' c' h in
                  rw h (
                    subst
                      (λ l. Perm (gathered ua hb hz D p after) (
                        gathered ua hb hz D p l
                        ++ (if p (time2key time)
                            then record { time = time; value = val } ∷ []
                            else [])))
                      (λ i. stored eb (e.0 i) (e.1 i)) (filed.holds p))
              | inr h ↦ rw (h, append-nil) (Perm.refl (gathered ua hb hz D p (stored eb s' c')))
            ])
