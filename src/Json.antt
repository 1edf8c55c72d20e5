-- ===== src/Json.antt =====
-- The JSON of bitmaps, scopes, sensors, slices, UUIDs and actuators: src/utils/bitmaps.c,
-- src/utils/scopes.c, src/utils/uuids.c, src/sensor.c, src/slices.c and src/actuator.c. `none` is
-- NULL as a value, and a behaviour that C does not define where it is a whole result.
pub mod Scopes
pub mod Times
pub mod Tests
pub mod Actuators
use libnrm.Prelude.{
  ◌>>=◌, ℕ, zero, suc, ◌+◌, Bool, true, false, Option, none, some, List, [], ◌∷◌, map, length, ltb,
  if◌then◌else◌,
}
use libnrm.Prelude.Int.{ℤ, pos}
use libnrm.Prelude.Bytes.{Bytes, ascii, bytes_eq}
use libnrm.Error.{ErrorCode, success, einval}
use libnrm.Ext.Utarray.{Utarray}
use libnrm.Ext.Doubles.{Doubles}
use libnrm.Ext.Jansson.{Jansson}
use libnrm.Bitmap
use libnrm.Bitmap.{Bitmap, nset_of, isset, nonzero, set_all, bitmap_max}
use libnrm.Scope.{Scope, map_of, type_cpu, type_numa, type_gpu}
use libnrm.Vector
use libnrm.Vector.{Vector, Ptr, elements}
use libnrm.Actuator.{Actuator, Kind, discrete, continuous, push_all}

-- The loop of nrm_bitmap_to_json from index `i`, with `printed` indices so far.
unfoldable pub listed : Bitmap → ℕ → ℕ → ℕ → ℕ → List ℕ
listed m size zero i printed = []
listed m size (suc rounds) i printed =
    let hit = nonzero (isset (some m) i) in
    let rest = listed m size rounds (i + 1) (if hit then printed + 1 else printed) in
    let found = if hit then i ∷ rest else rest in if ltb printed size then found else []

-- nrm_actuator_type_t2s, of the two types, with the codes NRM_ACTUATOR_TYPE_DISCRETE and so on
abbrev pub type_discrete : ℕ
type_discrete = 0

abbrev pub type_continuous : ℕ
type_continuous = 1

unfoldable pub type_t2s : ℕ → Bytes
type_t2s zero = ascii "DISCRETE"
type_t2s (suc zero) = ascii "CONTINUOUS"
type_t2s (suc (suc n)) = ascii "UNKNOWN"

-- nrm_actuator_type_s2t; `none` is -1
unfoldable pub type_s2t : Bytes → Option ℕ
type_s2t s =
    if bytes_eq s (ascii "DISCRETE")
    then some type_discrete
    else if bytes_eq s (ascii "CONTINUOUS")
    then some type_continuous
    else none

module _ (fp : Doubles) (js : Jansson fp) where
  -- What json_pack puts in for a NULL under `o?`.
  unfoldable pub nullable : Option js.Json → js.Json
  nullable none = js.null
  nullable (some j) = j

  -- The elements that json_array_append_new takes; it refuses NULL.
  unfoldable pub reals : List fp.Double → List js.Json
  reals [] = []
  reals (d ∷ ds) = let rest = reals ds in elim (js.real d) [ none ↦ rest | some j ↦ j ∷ rest ]

  -- json_unpack of an optional string: nothing, what is there, or an error
  unfoldable pub optional_string : js.Json → Bytes → Option (Option Bytes)
  optional_string json key = elim (js.member json key) [
    | none ↦ some none
    | some j ↦ js.string_value j >>= (λ s. some (some s))
  ]

  -- nrm_bitmap_to_json
  unfoldable pub bitmap_to_json : Bitmap → js.Json
  unfolding listed
  bitmap_to_json m = js.array (map (λ i. js.integer (pos i)) (listed m (nset_of m) bitmap_max 0 0))

  -- nrm_bitmap_from_json; a number counts as the unsigned int of its bit pattern
  unfoldable pub bitmap_from_json : Bitmap → Ptr js.Json → ErrorCode × Bitmap
  bitmap_from_json m none = (einval, m)
  bitmap_from_json m (some json) = elim (js.items json) [
    | none ↦ (einval, m)
    | some l ↦ (success, set_all (Bitmap.reset m) (map js.integer_value l))
  ]

  -- nrm_scope_to_json
  unfoldable pub scope_to_json : Scope → Option js.Json
  unfolding bitmap_to_json
  scope_to_json s = do
    uuid ← js.string s.uuid
    some (
        js.object (
          (ascii "uuid", uuid)
          ∷ (ascii "cpu", bitmap_to_json (map_of s type_cpu))
          ∷ (ascii "numa", bitmap_to_json (map_of s type_numa))
          ∷ (ascii "gpu", bitmap_to_json (map_of s type_gpu))
          ∷ []))

  -- What nrm_scope_from_json does once the name is unpacked.
  unfoldable pub scope_of : Scope → js.Json → Option Bytes → Scope
  unfolding bitmap_from_json
  scope_of s json uuid = record {
    uuid = elim uuid [ none ↦ s.uuid | some u ↦ u ];
    maps =
        (bitmap_from_json (map_of s type_cpu) (js.member json (ascii "cpu"))).1
        ∷ (bitmap_from_json (map_of s type_numa) (js.member json (ascii "numa"))).1
        ∷ (bitmap_from_json (map_of s type_gpu) (js.member json (ascii "gpu"))).1
        ∷ [];
  }

  -- nrm_scope_from_json
  unfoldable pub scope_from_json : Scope → Ptr js.Json → ErrorCode × Scope
  unfolding scope_of optional_string
  scope_from_json s none = (einval, s)
  scope_from_json s (some json) =
      if js.is_object json
      then (elim (optional_string json (ascii "uuid")) [
        | none ↦ (einval, s)
        | some uuid ↦ (success, scope_of s json uuid)
      ])
      else (einval, s)

  -- nrm_sensor_to_json and nrm_slice_to_json, of the object's name
  unfoldable pub named_to_json : Bytes → Option js.Json
  named_to_json uuid = do u ← js.string uuid; some (js.object ((ascii "uuid", u) ∷ []))

  -- nrm_uuid_to_json
  unfoldable pub uuid_to_json : Ptr Bytes → Option js.Json
  uuid_to_json none = none
  uuid_to_json (some uuid) = js.string uuid

  module _ (ua : Utarray) where
    -- nrm_vector_d_to_json
    unfoldable pub vector_d_to_json : Vector ua fp.Double → js.Json
    unfolding reals
    vector_d_to_json v = js.array (reals (elements ua v))

    -- nrm_vector_d_from_json: resized, cleared and filled, with no code looked at
    unfoldable pub vector_d_from_json :
        Vector ua fp.Double → Ptr js.Json → ErrorCode × Vector ua fp.Double
    vector_d_from_json v none = (einval, v)
    vector_d_from_json v (some json) = elim (js.items json) [
      | none ↦ (einval, v)
      | some l ↦
          let resized = (Vector.store ua v (ua.resize fp.Double fp.zero v.array (length l))).1 in
          (
            success,
            push_all ua fp (record resized { array = ua.clear fp.Double resized.array })
                (map js.real_value l),
          )
    ]

    -- nrm_actuator_discrete_to_json
    unfoldable pub discrete_to_json : Vector ua fp.Double → js.Json
    unfolding vector_d_to_json
    discrete_to_json v = js.object ((ascii "choices", vector_d_to_json v) ∷ [])

    -- nrm_actuator_to_json: the type and the part of the kind
    unfoldable pub kind_to_json : Kind ua fp → ℕ × Option js.Json
    unfolding discrete_to_json
    kind_to_json (discrete v) = (type_discrete, some (discrete_to_json v))
    kind_to_json (continuous min max) = (type_continuous, none)

    unfoldable pub actuator_to_json : Actuator ua fp → Option js.Json
    unfolding kind_to_json uuid_to_json nullable type_t2s
    actuator_to_json a = do
      uuid ← js.string a.uuid
      value ← js.real a.value
      type ← js.string (type_t2s (kind_to_json a.kind).0)
      some (
          js.object (
            (ascii "uuid", uuid)
            ∷ (ascii "clientid", nullable (uuid_to_json a.clientid))
            ∷ (ascii "value", value)
            ∷ (ascii "type", type)
            ∷ (ascii "subtype", nullable (kind_to_json a.kind).1)
            ∷ []))

    -- nrm_actuator_discrete_from_json, on the choices
    unfoldable pub discrete_from_json :
        Vector ua fp.Double → Ptr js.Json → ErrorCode × Vector ua fp.Double
    unfolding vector_d_from_json
    discrete_from_json v none = (einval, v)
    discrete_from_json v (some json) =
        if js.is_object json
        then (success, (vector_d_from_json v (js.member json (ascii "choices"))).1)
        else (einval, v)

    -- What json_unpack_ex finds in nrm_actuator_from_json: the name, the type, and the value, which
    -- stays when there is none.
    unfoldable pub unpacked : fp.Double → js.Json → Option (Bytes × Bytes × fp.Double)
    unpacked old json = do
      uuid ← js.member json (ascii "uuid") >>= js.string_value
      type ← js.member json (ascii "type") >>= js.string_value
      value ← elim (js.member json (ascii "value")) [
        | none ↦ some old
        | some j ↦ if js.is_real j then some (js.real_value j) else none
      ]
      some (uuid, type, value)

    -- nrm_actuator_from_json's choice by the type, on a discrete actuator; what an actuator whose
    -- type is not DISCRETE holds after the error is left out
    unfoldable pub kind_from_json :
        Actuator ua fp → Vector ua fp.Double → Option ℕ → Ptr js.Json → ErrorCode × Actuator ua fp
    unfolding discrete_from_json
    kind_from_json a v (some zero) sub =
        let (code, v') = discrete_from_json v sub in (code, record a { kind = discrete v' })
    kind_from_json a v type sub = (einval, a)

    -- nrm_actuator_from_json of an object: the client's name is unpacked as a JSON value, whose
    -- bytes are then read as a string, and the limits of a continuous actuator as a vector.
    unfoldable pub actuator_from_json :
        Actuator ua fp → Ptr js.Json → Option (ErrorCode × Actuator ua fp)
    unfolding unpacked kind_from_json type_s2t
    actuator_from_json a none = some (einval, a)
    actuator_from_json a (some json) =
        if js.is_object json
        then (elim (unpacked a.value json) [
          | none ↦ some (einval, a)
          | some (uuid, type, value) ↦ elim (js.member json (ascii "clientid")) [
            | some j ↦ none
            | none ↦ elim a.kind [
              | continuous min max ↦
                  if bytes_eq type (ascii "DISCRETE")
                  then none
                  else some (einval, record a { uuid = uuid; value = value })
              | discrete v ↦ some (
                  kind_from_json (record a { uuid = uuid; value = value }) v (type_s2t type)
                    (js.member json (ascii "subtype")))
            ]
          ]
        ])
        else some (einval, a)
