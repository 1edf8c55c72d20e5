-- ===== src/Actuator.antt =====
-- src/actuator.c, src/actuators/discrete.c and src/actuators/continuous.c. The table of operations
-- that an actuator carries is chosen by its kind, which is a constructor here.

pub mod Tests
pub mod Values
pub mod Valid
use libnrm.Prelude.{
  ℕ, zero, suc, ◌+◌, Bool, true, false, ◌||◌, Option, none, some, List, [], ◌∷◌, length,
  if◌then◌else◌,
}
use libnrm.Prelude.Bytes.{Bytes}
use libnrm.Error.{
  ErrorCode, success, failure, enomem, einval, edom, enotsup, ebusy, eperm, enotfound,
}
use libnrm.Ext.Utarray.{Utarray}
use libnrm.Ext.Qsort.{Qsort}
use libnrm.Ext.Doubles.{Doubles}
use libnrm.Vector
use libnrm.Vector.{Vector, Ptr}
use libnrm.Vector.Sorting

module _ (ua : Utarray) (fp : Doubles) where
  -- NRM_ACTUATOR_TYPE_DISCRETE and NRM_ACTUATOR_TYPE_CONTINUOUS, with the union's part
  pub data Kind : Type 0 where
    discrete : Vector ua fp.Double → Kind
    continuous : fp.Double → fp.Double → Kind

  -- struct nrm_actuator_data_s
  pub record Actuator : Type 0 where
    pub uuid : Bytes
    pub clientid : Option Bytes
    pub value : fp.Double
    pub kind : Kind

  -- nrm_actuator_continuous_create, on zeroed memory
  unfoldable pub continuous_create : Bytes → Actuator
  continuous_create name = record {
    uuid = name;
    clientid = none;
    value = fp.zero;
    kind = continuous fp.zero fp.zero;
  }

  -- nrm_actuator_discrete_create; nothing if the vector of choices cannot be made
  unfoldable pub discrete_create : Bytes → Option Actuator
  discrete_create name = elim (Vector.create ua (some none) 8).1 [
    | none ↦ none
    | some made ↦ elim made [
      | none ↦ none
      | some v ↦ some (record { uuid = name; clientid = none; value = fp.zero; kind = discrete v })
    ]
  ]

  -- nrm_actuator_set_clientid and nrm_actuator_set_value
  unfoldable pub set_clientid : Actuator → Option Bytes → Actuator
  set_clientid a clientid = record a { clientid = clientid }

  unfoldable pub set_value : Actuator → fp.Double → Actuator
  set_value a value = record a { value = value }

  -- nrm_actuator_continuous_set_limits; the code writes to the union without looking at the type
  unfoldable pub set_limits : Ptr Actuator → fp.Double → fp.Double → ErrorCode × Ptr Actuator
  set_limits none min max = (einval, none)
  set_limits (some a) min max = (success, some (record a { kind = continuous min max }))

  -- nrm_actuator_continuous_corrected_value, on the limits
  unfoldable pub clamp : fp.Double → fp.Double → fp.Double → fp.Double
  clamp min max value = if fp.lt value min then min else if fp.lt max value then max else value

  -- nrm_actuator_continuous_validate_value, on the limits
  unfoldable pub within : fp.Double → fp.Double → fp.Double → ErrorCode
  within min max value = if fp.lt value min || fp.lt max value then edom else success

  -- The loop of nrm_actuator_discrete_corrected_value over the choices: the nearest so far is `ret`,
  -- at distance `dist`.
  unfoldable pub nearest : fp.Double → List fp.Double → fp.Double → fp.Double → fp.Double
  nearest value [] dist ret = ret
  nearest value (d ∷ ds) dist ret =
      let closer = fp.lt (fp.fabs (fp.sub value d)) dist in
      nearest value ds (if closer then fp.fabs (fp.sub value d) else dist)
        (if closer then d else ret)

  -- nrm_actuator_discrete_corrected_value, on the choices
  unfoldable pub choose : Vector ua fp.Double → fp.Double → ErrorCode × fp.Double
  choose choices value = elim (ua.len fp.Double choices.array) [
    | zero ↦ (einval, value)
    | suc last ↦ elim (ua.eltptr fp.Double choices.array 0) [
      | none ↦ (einval, value)
      | some min ↦ elim (ua.eltptr fp.Double choices.array last) [
        | none ↦ (einval, value)
        | some max ↦ (
          success,
          if fp.lt value min
              then min
              else if fp.lt max value
              then max
              else nearest value (Vector.elements ua choices) fp.dbl_max value,
        )
      ]
    ]
  ]

  -- The loop of nrm_actuator_discrete_validate_value, from position `i`.
  unfoldable pub is_choice : ℕ → ℕ → Vector ua fp.Double → fp.Double → Bool
  is_choice zero i choices value = false
  is_choice (suc rounds) i choices value =
      let rest = is_choice rounds (i + 1) choices value in
      elim (ua.eltptr fp.Double choices.array i) [
        | none ↦ false
        | some d ↦ if fp.eq d value then true else rest
      ]

  -- nrm_actuator_corrected_value, through the table of operations
  unfoldable pub corrected_value : Actuator → fp.Double → ErrorCode × fp.Double
  corrected_value a value = elim a.kind [
    | discrete choices ↦ choose choices value
    | continuous min max ↦ (success, clamp min max value)
  ]

  -- nrm_actuator_validate_value, through the table of operations
  unfoldable pub validate_value : Actuator → fp.Double → ErrorCode
  validate_value a value = elim a.kind [
    | discrete choices ↦
        if is_choice (ua.len fp.Double choices.array) 0 choices value then success else edom
    | continuous min max ↦ within min max value
  ]

  -- The loop of nrm_actuator_discrete_set_choices; the codes of the pushes are not looked at.
  unfoldable pub push_all : Vector ua fp.Double → List fp.Double → Vector ua fp.Double
  push_all v [] = v
  push_all v (x ∷ xs) = push_all (Vector.append_one ua v x).1 xs

  -- nrm_actuator_discrete_set_choices on a discrete actuator's vector: resized, cleared, filled and
  -- sorted, with no code looked at
  unfoldable pub refilled : Qsort ua → Vector ua fp.Double → List fp.Double → Vector ua fp.Double
  unfolding push_all
  refilled qs v choices =
      let resized = (Vector.store ua v (ua.resize fp.Double fp.zero v.array (length choices))).1 in
      let full = push_all (record resized { array = ua.clear fp.Double resized.array }) choices in
      record full { array = qs.sort fp.Double (Sorting.sort_double_cmp fp) full.array }

  -- nrm_actuator_discrete_set_choices, of an array whose length is `nchoices`. On a continuous
  -- actuator the code would take its limits for a pointer; the model leaves it alone.
  unfoldable pub set_choices :
      Qsort ua → Ptr Actuator → Ptr (List fp.Double) → ErrorCode × Ptr Actuator
  set_choices qs none choices = (einval, none)
  set_choices qs (some a) none = (einval, some a)
  set_choices qs (some a) (some []) = (einval, some a)
  set_choices qs (some a) (some (x ∷ xs)) = elim a.kind [
    | discrete v ↦ (success, some (record a { kind = discrete (refilled qs v (x ∷ xs)) }))
    | continuous min max ↦ (success, some a)
  ]

  -- nrm_actuator_discrete_list_choices, with what `*choices` was; as above for the other kind
  unfoldable pub list_choices :
      Ptr Actuator → Ptr (Ptr (Vector ua fp.Double)) → ErrorCode × Ptr (Ptr (Vector ua fp.Double))
  list_choices none out = (einval, out)
  list_choices (some a) none = (einval, none)
  list_choices (some a) (some old) = elim a.kind [
    | discrete v ↦
        let copied = Vector.copy ua (some none) (some v) in
        elim copied.0 [ success ↦ copied | err ↦ (err, some old) ]
    | continuous min max ↦ (success, some old)
  ]
