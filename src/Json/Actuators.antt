-- ===== src/Json/Actuators.antt =====
-- JSON of vectors of numbers and of actuators, made and read back.
use libnrm.Prelude.{
  bind_some, ◌≡◌, refl, ap, ap₂, ◌∙◌, true, none, some, List, [], ◌∷◌, ◌++◌, arith, map, length,
}
use libnrm.Prelude.Bytes.{Bytes, ascii, bytes_eq}
use libnrm.Error.{success}
use libnrm.Ext.Utarray.{Utarray, Memory}
use libnrm.Ext.Doubles.{Doubles}
use libnrm.Ext.Jansson.{Jansson, find_member}
use libnrm.Vector
use libnrm.Vector.{Vector, elements}
use libnrm.Vector.Laws.{list_of, elements_lem}
use libnrm.Actuator.{Actuator, Kind, discrete, continuous, push_all}
use libnrm.Actuator.Valid.{push_all_lem}
use libnrm.Json.{
  reals, nullable, uuid_to_json, kind_to_json, type_t2s, vector_d_to_json, vector_d_from_json,
  actuator_to_json, actuator_from_json, unpacked,
}

module _ (fp : Doubles) (js : Jansson fp) where
  -- Every number is finite.
  abbrev pub AllFinite : List fp.Double → Type 0
  AllFinite [] = Unit {0}
  AllFinite (d ∷ ds) = js.IsFinite d × AllFinite ds

  reals_lem : (ds : List fp.Double) → AllFinite ds → map js.real_value (reals fp js ds) ≡ ds
  unfolding reals
  reals_lem [] h = refl
  reals_lem (d ∷ ds) (h, hs) =
      let (j, made, value, _) = js.real_lem d h in
      rw (made, reals) (ap₂ ◌∷◌ value (reals_lem ds hs))

  module _ (ua : Utarray) (m : Memory ua) where
    -- nrm_vector_d_from_json, of what nrm_vector_d_to_json makes of a vector of finite numbers, puts
    -- these numbers into any vector, in their order.
    pub vector_d_from_json-vector_d_to_json :
        (v old : Vector ua fp.Double)
        → AllFinite (list_of ua v)
        → (v' : Vector ua fp.Double) × (vector_d_from_json fp js ua old
              (some (vector_d_to_json fp js ua v))
            ≡ (success, v'))
          × (list_of ua v' ≡ list_of ua v)
    unfolding vector_d_from_json vector_d_to_json
    vector_d_from_json-vector_d_to_json v old h =
        let l = reals fp js (elements ua v) in
        let resized = (Vector.store ua old (ua.resize fp.Double fp.zero old.array (length l))).1 in
        let cleared : Vector ua fp.Double = record resized {
          array = ua.clear fp.Double resized.array;
        } in
        let read : map js.real_value l ≡ list_of ua v =
          rw (elements_lem ua v) (reals_lem (list_of ua v) h) in
        (
          push_all ua fp cleared (map js.real_value l),
          rw (js.items-array l, vector_d_from_json) refl,
          push_all_lem ua fp m cleared (map js.real_value l)
              ∙ ap (λ k. k ++ map js.real_value l) (ua.contents-clear fp.Double resized.array)
              ∙ read,
        )

  at :
      (l : List (Bytes × js.Json)) (k : Bytes) (j : js.Json)
      → find_member k l ≡ some j
      → js.member (js.object l) k ≡ some j
  at l k j h = js.member-object l k ∙ h

  module _ (ua : Utarray) where
    type_text : (k : Kind ua fp) → js.IsText (type_t2s (kind_to_json fp js ua k).0)
    unfolding type_t2s kind_to_json
    type_text (discrete v) = js.text_of_ascii (ascii "DISCRETE") (omega arith)
    type_text (continuous min max) = js.text_of_ascii (ascii "CONTINUOUS") (omega arith)

    unpacked_lem :
        (old : fp.Double) (json u t x : js.Json) (uuid type : Bytes)
        → js.member json (ascii "uuid") ≡ some u
        → js.string_value u ≡ some uuid
        → js.member json (ascii "type") ≡ some t
        → js.string_value t ≡ some type
        → js.member json (ascii "value") ≡ some x
        → js.is_real x ≡ true
        → unpacked fp js ua old json ≡ some (uuid, type, js.real_value x)
    unfolding unpacked
    unpacked_lem old json u t x uuid type hu su ht st hx is =
        rw (hu, su, ht, st, hx, is, unpacked) refl

    refused :
        (old : Actuator ua fp) (json : js.Json) (uuid type : Bytes) (value : fp.Double)
        (j : js.Json)
        → js.is_object json ≡ true
        → unpacked fp js ua old.value json ≡ some (uuid, type, value)
        → js.member json (ascii "clientid") ≡ some j
        → actuator_from_json fp js ua old (some json) ≡ none
    unfolding actuator_from_json
    refused old json uuid type value j is found client =
        rw (is, found, client, actuator_from_json) refl

  -- An actuator's JSON cannot be read back: nrm_actuator_to_json always writes a member "clientid",
  -- and nrm_actuator_from_json takes that value's bytes for the characters of a string.
  pub actuator_from_json-actuator_to_json :
      (ua : Utarray) (a old : Actuator ua fp)
      → js.IsText a.uuid
      → js.IsFinite a.value
      → (j : js.Json) × (actuator_to_json fp js ua a ≡ some j)
        × (actuator_from_json fp js ua old (some j) ≡ none)
  unfolding actuator_to_json find_member bytes_eq
  actuator_from_json-actuator_to_json ua a old text finite =
      let (u, named, uuid) = js.string_lem a.uuid text in
      let (x, valued, value, is) = js.real_lem a.value finite in
      let (t, typed, type) = js.string_lem _ (type_text ua a.kind) in
      let l : List (Bytes × js.Json) =
        (ascii "uuid", u)
        ∷ (ascii "clientid", nullable fp js (uuid_to_json fp js a.clientid))
        ∷ (ascii "value", x)
        ∷ (ascii "type", t)
        ∷ (ascii "subtype", nullable fp js (kind_to_json fp js ua a.kind).1)
        ∷ [] in
      (
        js.object l,
        bind_some named _ ∙ bind_some valued _ ∙ bind_some typed _,
        refused ua old (js.object l) _ _ _ _ (js.is_object-object l)
            (unpacked_lem ua old.value (js.object l) u t x _ _ (at l (ascii "uuid") u refl) uuid
              (at l (ascii "type") t refl) type (at l (ascii "value") x refl) is)
            (at l (ascii "clientid") _ refl),
      )
