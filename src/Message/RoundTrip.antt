-- ===== src/Message/RoundTrip.antt =====
-- Objects that go into a message and come out of it.
use libnrm.Prelude.{
  ℕ, ◌+◌, ◌≡◌, refl, sym, ap, ap₂, ◌∙◌, Option, none, some, List, [], ◌∷◌, ◌++◌, length,
  length-append, arith, ◌>>=◌, subst,
}
use mathlib.Core.List.{append_assoc, Perm}
use mathlib.Core.List.Perm
use libnrm.Prelude.Bytes.{Bytes}
use libnrm.Error.{success}
use libnrm.Ext.Utarray.{Utarray, Memory}
use libnrm.Ext.Qsort.{Qsort}
use libnrm.Ext.Doubles.{Doubles}
use libnrm.Bitmap.Membership.{IsValid}
use libnrm.Bitmap.Arrays.{from_array-to_array}
use libnrm.Scope
use libnrm.Scope.{Scope, map_of, zero_map}
use libnrm.Scope.Laws.{maps_lem}
use libnrm.Vector
use libnrm.Vector.{Vector, Ptr}
use libnrm.Vector.Sorting.{IsAscending}
use libnrm.Actuator
use libnrm.Actuator.{Actuator, Kind, discrete, continuous}
use libnrm.Actuator.Valid.{set_choices_lem}
use libnrm.Vector.Laws.{list_of, at_head, get_lem}
use libnrm.Message.{scope_new, read_from, read_out, actuator_new}
use libnrm.Message.Parsing.{
  scope_create_frommsg, scope_update_frommsg, with_maps, actuator_create_frommsg,
  actuator_update_frommsg, discrete_create_frommsg, continuous_create_frommsg, with_choices,
  with_limits, with_fields,
}

-- A scope with its three maps, each well formed.
pub record IsWhole (s : Scope) : Type 0 where
  pub three : length s.maps ≡ 3
  pub cpus : IsValid (map_of s 0)
  pub numas : IsValid (map_of s 1)
  pub gpus : IsValid (map_of s 2)

with_maps-scope_new : (s t : Scope) → IsWhole s → (with_maps t (scope_new s)).maps ≡ s.maps
unfolding with_maps scope_new
with_maps-scope_new s t v =
    ap₂ ◌∷◌ (from_array-to_array (map_of s 0) (map_of t 0) v.cpus) (
      ap₂ ◌∷◌ (from_array-to_array (map_of s 1) (map_of t 1) v.numas)
        (ap₂ ◌∷◌ (from_array-to_array (map_of s 2) (map_of t 2) v.gpus) refl))
    ∙ maps_lem s.maps v.three

-- nrm_scope_create_frommsg on what nrm_msg_scope_new made of a scope gives the scope again.
pub scope_create-scope_new :
    (s : Scope) → IsWhole s → scope_create_frommsg (some (scope_new s)) ≡ some s
unfolding scope_create_frommsg with_maps scope_new Scope.create
scope_create-scope_new s v =
    ap (λ m. some (record { uuid = s.uuid; maps = m }))
      (with_maps-scope_new s (Scope.create s.uuid) v)

-- nrm_scope_update_frommsg makes a scope's maps those of the scope that the message was made of.
pub scope_update-scope_new :
    (s t : Scope)
    → IsWhole s
    → scope_update_frommsg (some t) (some (scope_new s))
      ≡ (success, some (record t { maps = s.maps }))
unfolding scope_update_frommsg with_maps
scope_update-scope_new s t v =
    ap (λ m. (success, some (record t { maps = m }))) (with_maps-scope_new s t v)

module _ (ua : Utarray) where
  read_from_lem :
      {A : Type 0} (v : Vector ua A) (ys xs : List A) (j : ℕ)
      → list_of ua v ≡ xs ++ ys
      → j ≡ length xs
      → read_from ua (length ys) j v ≡ ys
  unfolding read_from
  read_from_lem v [] xs j e h = refl
  read_from_lem v (y ∷ ys) xs j e h =
      rw (get_lem ua v j y (at_head ua v xs ys y j e h), read_from)
        (ap (λ l. y ∷ l)
          (read_from_lem v ys (xs ++ y ∷ []) (j + 1) (e ∙ sym (append_assoc xs (y ∷ []) ys))
            (omega (arith, h, length-append xs (y ∷ [])))))

  -- The loops that copy a vector into a message copy all its elements in order.
  pub read_out_lem : {A : Type 0} (v : Vector ua A) → read_out ua v ≡ list_of ua v
  unfolding read_out
  read_out_lem {A} v =
      rw (ua.len-contents A v.array, read_out) (read_from_lem v (list_of ua v) [] 0 refl refl)

-- A list of choices beside the one that a message carried: the same numbers, in ascending order.
pub data SameKind (ua : Utarray) (fp : Doubles) : Kind ua fp → Kind ua fp → Type 0 where
  same_choices :
      {v w : Vector ua fp.Double}
      → Perm (list_of ua w) (list_of ua v)
      → IsAscending fp (list_of ua w)
      → SameKind ua fp (discrete v) (discrete w)
  same_limits : {min max : fp.Double} → SameKind ua fp (continuous min max) (continuous min max)

pub uuid-actuator_new :
    (ua : Utarray) (fp : Doubles) (a : Actuator ua fp) → (actuator_new ua fp a).uuid ≡ a.uuid
unfolding actuator_new
uuid-actuator_new ua fp a = by_kind a.kind
  where
    by_kind : (k : Kind ua fp) → (actuator_new ua fp (record a { kind = k })).uuid ≡ a.uuid
    by_kind (discrete v) = refl
    by_kind (continuous min max) = refl

module _ (ua : Utarray) (fp : Doubles) (qs : Qsort ua) (m : Memory ua) where
  refilled_lem :
      (v : Vector ua fp.Double) (l : List fp.Double) (a : Actuator ua fp)
      → (l ≡ [] → list_of ua v ≡ [])
      → a.kind ≡ discrete v
      → (w : Vector ua fp.Double) × ((Actuator.set_choices ua fp qs (some a) (some l)).1
          ≡ some (record a { kind = discrete w }))
        × Perm (list_of ua w) l
        × IsAscending fp (list_of ua w)
  unfolding Actuator.set_choices
  refilled_lem v [] a none_yet e = (
    v,
    ap (λ k. some (record a { kind = k })) e,
    rw (none_yet refl) (Perm.refl []),
    rw (none_yet refl) tt,
  )
  refilled_lem v (x ∷ xs) a none_yet e =
      let (w, set, same, up) = set_choices_lem ua fp qs m a v x xs e in
      (w, ap (λ r. r.1) set, same, up)

  discrete_create_lem :
      (u : Bytes)
      → (v : Vector ua fp.Double) × (Actuator.discrete_create ua fp u
          ≡ some (record { uuid = u; clientid = none; value = fp.zero; kind = discrete v }))
        × (list_of ua v ≡ [])
  unfolding Actuator.discrete_create Vector.create
  discrete_create_lem u =
      let (a, made) = m.new_ok fp.Double in
      (
        record { array = a; sz = 8 },
        rw (made, Actuator.discrete_create, Vector.create) refl,
        ua.contents-new fp.Double a made,
      )

  -- A NULL name leaves the new actuator without one.
  owner_lem : (c : Option Bytes) → elim c [ none ↦ none | some b ↦ some b ] ≡ c
  owner_lem none = refl
  owner_lem (some b) = refl

  abbrev As : Bytes → Option Bytes → fp.Double → Kind ua fp → Actuator ua fp
  As u c x k = record { uuid = u; clientid = c; value = x; kind = k }

  discrete_lem :
      (u : Bytes) (c : Option Bytes) (x : fp.Double) (v : Vector ua fp.Double)
      → (w : Vector ua fp.Double) × (discrete_create_frommsg ua fp qs
            (actuator_new ua fp (As u c x (discrete v)))
          ≡ some (As u c x (discrete w)))
        × SameKind ua fp (discrete v) (discrete w)
  unfolding discrete_create_frommsg with_choices with_fields actuator_new
  discrete_lem u c x v =
      let (new, made, empty) = discrete_create_lem u in
      let (w, set, same, up) =
        refilled_lem new (list_of ua v) (As u c x (discrete new)) (λ e. empty) refl in
      (
        w,
        rw (made, owner_lem c, read_out_lem ua v, discrete_create_frommsg) set,
        same_choices same up,
      )

  created_lem :
      (u : Bytes) (c : Option Bytes) (x : fp.Double) (k : Kind ua fp)
      → (k' : Kind ua fp) × (actuator_create_frommsg ua fp qs
            (some (actuator_new ua fp (As u c x k)))
          ≡ some (some (As u c x k')))
        × SameKind ua fp k k'
  unfolding actuator_create_frommsg actuator_new continuous_create_frommsg with_limits with_fields
      Actuator.set_limits Actuator.continuous_create
  created_lem u c x (continuous min max) = (
    continuous min max,
    ap (λ o. some (some (As u o x (continuous min max)))) (owner_lem c),
    same_limits,
  )
  created_lem u c x (discrete v) =
      let (w, made, same) = discrete_lem u c x v in
      (discrete w, ap (λ o. o >>= (λ ret. some (some ret))) made, same)

  -- nrm_actuator_create_frommsg on what nrm_msg_actuator_new made of an actuator, with memory left: an
  -- actuator with the same name, owner and value, and with the same limits or, in ascending order, the
  -- same choices.
  pub actuator_create-actuator_new :
      (a : Actuator ua fp)
      → (k : Kind ua fp) × (actuator_create_frommsg ua fp qs (some (actuator_new ua fp a))
          ≡ some (some (record a { kind = k })))
        × SameKind ua fp a.kind k
  actuator_create-actuator_new a = created_lem a.uuid a.clientid a.value a.kind

  -- nrm_actuator_update_frommsg with the message of an actuator that has an owner.
  pub update_lem :
      (u u' c : Bytes) (c' : Option Bytes) (x x' : fp.Double) (k k' : Kind ua fp)
      → SameKind ua fp k' k
      → (k₂ : Kind ua fp) × (actuator_update_frommsg ua fp qs
            (some (As u' c' x' k'))
            (some (actuator_new ua fp (As u (some c) x k)))
          ≡ some (success, some (As u (some c) x k₂)))
        × SameKind ua fp k k₂
  unfolding actuator_update_frommsg actuator_new with_choices with_limits with_fields
      Actuator.set_limits
  update_lem u u' c c' x x' (continuous min max) k' same_limits =
      (continuous min max, refl, same_limits)
  update_lem u u' c c' x x' (discrete w) k' (same_choices {v = v} perm up) =
      let (w', set, same, up') =
        refilled_lem v (list_of ua w) (As u (some c) x (discrete v))
          (λ e. Perm.eq-nil (subst (Perm (list_of ua v)) e (Perm.symm perm))) refl in
      (
        discrete w',
        rw (read_out_lem ua w) (ap (λ o. o >>= (λ ret. some (success, some ret))) set),
        same_choices same up',
      )

-- What a client makes of an actuator's message: a pointer to an actuator that differs at most in the
-- order of its choices.
pub record IsCopy (ua : Utarray) (fp : Doubles) (a : Actuator ua fp) (p : Ptr (Actuator ua fp))
    : Type 0 where
  pub kind : Kind ua fp
  pub made : p ≡ some (record a { kind = kind })
  pub same : SameKind ua fp a.kind kind
